-- ===== src/Generator.antt =====
-- generate_test_pcap.py: the packets of the test capture. What Scapy makes of layers is a record of
-- them; `IP() / TCP()` has protocol 6 and `IP() / UDP()` has 17.
pub mod Names
mod Tests
use dpi_engine_python.Bytes.{Bytes}
use dpi_engine_python.Hello.{build_client_hello, http_request}
use dpi_engine_python.Packet.{IpLayer, TransportLayer, Scapy}
use dpi_engine_python.Prelude.{
  ℕ, zero, suc, ◌+◌, Option, none, some, List, [], ◌∷◌, ◌++◌, length, replicate,
}
use dpi_engine_python.Prelude.Result.{Result, ok, err, ◌>>=◌}
use dpi_engine_python.Text.{Str, codes, encode}

pub record Generated : Type 0 where
  pub ip_layer : IpLayer
  pub tcp_layer : Option TransportLayer
  pub udp_layer : Option TransportLayer
  pub flags : Str

-- Scapy on these packets. Their length is left open.
abbrev pub generated_scapy : (Generated → ℕ) → Scapy
generated_scapy len = record {
  Packet = Generated;
  len = len;
  ip = λ p. some p.ip_layer;
  tcp = λ p. p.tcp_layer;
  udp = λ p. p.udp_layer;
}

-- `IP(src, dst) / TCP(sport, dport, flags) / Raw(load)`
abbrev pub tcp_packet : Str → Str → ℕ → ℕ → Str → Bytes → Generated
tcp_packet src dst sport dport flags load = record {
  ip_layer = record { src = src; dst = dst; proto = 6 };
  tcp_layer = some (record { sport = sport; dport = dport; payload = load });
  udp_layer = none;
  flags = flags;
}

-- `IP(src, dst) / UDP(sport, dport) / Raw(load)`
abbrev pub udp_packet : Str → Str → ℕ → ℕ → Bytes → Generated
udp_packet src dst sport dport load = record {
  ip_layer = record { src = src; dst = dst; proto = 17 };
  tcp_layer = none;
  udp_layer = some (record { sport = sport; dport = dport; payload = load });
  flags = [];
}

abbrev pub client_ip : Str
client_ip = codes "192.168.1.100"

abbrev pub http_client_ip : Str
http_client_ip = codes "192.168.1.50"

-- `TLS_DOMAINS`
unfoldable pub tls_domains : List (Str × Str)
tls_domains =
    (codes "www.google.com", codes "142.250.185.206")
    ∷ (codes "www.youtube.com", codes "142.250.185.110")
    ∷ (codes "www.facebook.com", codes "157.240.1.35")
    ∷ (codes "www.instagram.com", codes "157.240.1.174")
    ∷ (codes "twitter.com", codes "104.244.42.65")
    ∷ (codes "www.amazon.com", codes "52.94.236.248")
    ∷ (codes "www.netflix.com", codes "23.52.167.61")
    ∷ (codes "github.com", codes "140.82.114.4")
    ∷ (codes "discord.com", codes "104.16.85.20")
    ∷ (codes "zoom.us", codes "35.186.224.25")
    ∷ (codes "web.telegram.org", codes "35.186.227.140")
    ∷ (codes "www.tiktok.com", codes "99.86.0.100")
    ∷ (codes "open.spotify.com", codes "35.186.224.47")
    ∷ (codes "www.cloudflare.com", codes "192.0.78.24")
    ∷ (codes "www.microsoft.com", codes "13.107.42.14")
    ∷ (codes "www.apple.com", codes "17.253.144.10")
    ∷ []

-- `HTTP_HOSTS`
unfoldable pub http_hosts : List (Str × Str)
http_hosts =
    (codes "example.com", codes "93.184.216.34") ∷ (codes "httpbin.org", codes "34.227.213.82") ∷ []

-- The packets of a domain: a handshake, a ClientHello and a reply.
unfoldable pub tls_flow : ℕ → Str → Str → Bytes → List Generated
tls_flow source_port domain server_ip hello =
    tcp_packet client_ip server_ip source_port 443 (codes "S") []
    ∷ tcp_packet client_ip server_ip source_port 443 (codes "PA") hello
    ∷ tcp_packet server_ip client_ip 443 source_port (codes "SA") []
    ∷ []

-- The loop over the domains, which counts the port up before each.
unfoldable pub tls_flows : ℕ → List (Str × Str) → Result (List Generated)
tls_flows source_port [] = ok []
tls_flows source_port ((domain, server_ip) ∷ domains) = do
  hello ← build_client_hello domain
  rest ← tls_flows (source_port + 1) domains
  ok (tls_flow (source_port + 1) domain server_ip hello ++ rest)

unfoldable pub http_flows : ℕ → List (Str × Str) → List Generated
http_flows source_port [] = []
http_flows source_port ((host, server_ip) ∷ hosts) =
    tcp_packet http_client_ip server_ip (source_port + 1) 80 (codes "S") []
    ∷ tcp_packet http_client_ip server_ip (source_port + 1) 80 (codes "PA")
        (encode (http_request host))
    ∷ http_flows (source_port + 1) hosts

-- With the index of the loop; `count` turns are left.
unfoldable pub encrypted : ℕ → ℕ → ℕ → List Generated
encrypted source_port index zero = []
encrypted source_port index (suc count) =
    tcp_packet client_ip (codes "8.8.8.8") (source_port + 1) 443 (codes "PA") (replicate 32 index)
    ∷ encrypted (source_port + 1) (index + 1) count

unfoldable pub dns_queries : ℕ → ℕ → List Generated
dns_queries source_port zero = []
dns_queries source_port (suc count) =
    udp_packet http_client_ip (codes "8.8.4.4") (source_port + 1) 53
      (0x00 ∷ 0x01 ∷ 0x01 ∷ 0x00 ∷ replicate 8 0)
    ∷ dns_queries (source_port + 1) count

-- From the source port that the domains and the hosts leave.
abbrev after_tls : ℕ → List (Str × Str) → List Generated
after_tls source_port hosts =
    let next = source_port + length hosts in
    http_flows source_port hosts ++ (encrypted next 0 21 ++ dns_queries (next + 21) 4)

unfoldable pub build_packets : Result (List Generated)
build_packets = do
  flows ← tls_flows 54000 tls_domains
  ok (flows ++ after_tls (54000 + length tls_domains) http_hosts)
