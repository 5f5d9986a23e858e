-- ===== src/Packet/Samples.antt =====
-- A few packets, and the answers that Scapy's packets give for them.
use dpi_engine_python.Packet.{IpLayer, TransportLayer, Scapy}
use dpi_engine_python.Prelude.{Option, none, some}
use dpi_engine_python.Sni.Samples.{hello_bytes}
use dpi_engine_python.Text.{codes}

pub record Sample : Type 0 where
  pub ip_layer : Option IpLayer
  pub tcp_layer : Option TransportLayer

abbrev pub sample_scapy : Scapy
sample_scapy = record {
  Packet = Sample;
  len = λ p. 60;
  ip = λ p. p.ip_layer;
  tcp = λ p. p.tcp_layer;
  udp = λ p. none;
}

abbrev pub hello_packet : Sample
hello_packet = record {
  ip_layer = some (record { src = codes "10.0.0.1"; dst = codes "1.2.3.4"; proto = 6 });
  tcp_layer = some (record { sport = 5000; dport = 443; payload = hello_bytes });
}

-- No IP layer.
abbrev pub arp_packet : Sample
arp_packet = record { ip_layer = none; tcp_layer = none }
