-- ===== src/Packet/Tests.antt =====
-- Runs of src/packet_parser.py.
use dpi_engine_python.Packet.{protocol_name, parse}
use dpi_engine_python.Packet.Samples.{sample_scapy, hello_packet, arp_packet}
use dpi_engine_python.Prelude.{◌≡◌, refl, none, some}
use dpi_engine_python.Text.{codes}

hello_protocol : (parse sample_scapy hello_packet).protocol ≡ some (codes "TCP")
unfolding parse protocol_name
hello_protocol = refl

arp_addresses : (parse sample_scapy arp_packet).src_ip ≡ none
unfolding parse
arp_addresses = refl
