-- ===== src/Main/Lines.antt =====
-- main.py: the lines of the statistics and the security report.
use dpi_engine_python.Analyzer.{PacketAnalyzer, SniReport}
use dpi_engine_python.Dict.{Dict}
use dpi_engine_python.Main.{
  text, number, padded, padded_number, optional, percent, packet, Line, line, SecurityReport,
}
use dpi_engine_python.Packet.{ParsedPacket}
use dpi_engine_python.Pipeline.{Report, or_text}
use dpi_engine_python.Prelude.{ℕ, zero, suc, ◌+◌, List, [], ◌∷◌, ◌++◌, map, length, if◌then◌else◌}
use dpi_engine_python.Prelude.Result.{Error, Result, ok, err}
use dpi_engine_python.Text.{Str, codes}

abbrev rule : Line
rule = line (codes "-----------------------------------")

-- `item['sni']` is a text: the report has only flows with a name.
unfoldable pub flow_line : SniReport → Line
flow_line item =
    padded 25 (or_text [] item.sni)
    ∷ text (codes " -> ")
    ∷ padded 10 item.application
    ∷ text (codes " -> ")
    ∷ text (if item.blocked then codes "DROP" else codes "FORWARD")
    ∷ []

-- `f"{key:<15}: {count}"`
abbrev padded_count : Str × ℕ → Line
padded_count (key, count) = padded 15 key ∷ text (codes ": ") ∷ number count ∷ []

abbrev plain_count : Str × ℕ → Line
plain_count (key, count) = text key ∷ text (codes ": ") ∷ number count ∷ []

abbrev packets_of : Str × ℕ → Line
packets_of (key, count) = text key ∷ text (codes ": ") ∷ number count ∷ text (codes " packets") ∷ []

abbrev port_packets : ℕ × ℕ → Line
port_packets (port, count) =
    text (codes "Port ")
    ∷ number port
    ∷ text (codes ": ")
    ∷ number count
    ∷ text (codes " packets")
    ∷ []

abbrev labelled : Str → ℕ → Line
labelled label count = text label ∷ number count ∷ []

unfoldable pub application_lines : PacketAnalyzer → List Line
application_lines a =
    line (codes "\nApplication / Flow Statistics")
    ∷ rule
    ∷ (map flow_line a.sni_application_report
        ++ line (codes "\nApplication Statistics")
          ∷ rule
          ∷ (map padded_count a.application_count ++ line (codes "\nProtocol Statistics:") ∷ []))

unfoldable pub protocol_line : Str → ℕ → ℕ → Line
protocol_line protocol count total =
    text protocol
    ∷ text (codes ": ")
    ∷ number count
    ∷ text (codes " (")
    ∷ percent count total
    ∷ text (codes "%)")
    ∷ []

-- The line of a protocol; a division by no packets raises.
unfoldable pub protocol_share : ℕ → Str × ℕ → Result Line
protocol_share zero (protocol, count) = err Error.zero_division
protocol_share (suc n) (protocol, count) = ok (protocol_line protocol count (suc n))

unfoldable pub source_lines : PacketAnalyzer → List Line
source_lines a =
    line (codes "\nUnique Source IPs:")
    ∷ (number (length a.unique_source_ips) ∷ [])
    ∷ line (codes "\nSource IP Packet Count:")
    ∷ (map packets_of a.source_ip_count
        ++ line (codes "\nDestination Port Statistics:")
          ∷ (map port_packets a.destination_port_count
              ++ line (codes "\nService Statistics:")
                ∷ (map packets_of a.service_count
                    ++ line (codes "\nTop Service:") ∷ (optional a.top_service ∷ []) ∷ [])))

unfoldable pub http_lines : PacketAnalyzer → List Line
http_lines a =
    line (codes "\nHTTP Packet Statistics:")
    ∷ labelled (codes "HTTP Packets: ") a.http_packet_count
    ∷ labelled (codes "HTTPS Packets: ") a.https_packet_count
    ∷ labelled (codes "TLS Handshakes: ") a.tls_handshake_count
    ∷ line (codes "\nHTTP Response Statistics:")
    ∷ labelled (codes "HTTP Responses: ") a.http_response_count
    ∷ (map plain_count a.http_status_codes
        ++ line (codes "\nHTTP Method Statistics:")
          ∷ (map plain_count a.http_method_count
              ++ line (codes "\nHTTP Hosts:")
                ∷ (map line a.http_hosts
                    ++ line (codes "\nTop HTTP Hosts:")
                      ∷ (map plain_count a.http_host_count
                          ++ line (codes "\nHTTP User Agents:")
                            ∷ (map line a.user_agents
                                ++ line (codes "\nTop User Agents:")
                                  ∷ (map plain_count a.user_agent_count
                                      ++ line (codes "\nHTTP Requested Paths:")
                                        ∷ map line a.http_paths))))))

-- "HIGH" exactly where there are suspicious domains.
unfoldable pub risk_of : List Str → Str
risk_of [] = codes "LOW"
risk_of (domain ∷ domains) = codes "HIGH"

abbrev found_line : Str → Line
found_line domain = text (codes "- ") ∷ text domain ∷ []

unfoldable pub risk_lines : List Str → List Line
risk_lines [] =
    line (codes "\nDetected Suspicious Domains : None Found") ∷ line (codes "Risk Level : LOW") ∷ []
risk_lines (domain ∷ domains) =
    line (codes "\nDetected Suspicious Domains:")
    ∷ (map found_line (domain ∷ domains) ++ line (codes "\nRisk Level : HIGH") ∷ [])

unfoldable pub security_lines : PacketAnalyzer → List Line
security_lines a =
    line (codes "\nSNI Domains:")
    ∷ (map line a.sni_domains
        ++ line (codes "\n========== SECURITY REPORT ==========")
          ∷ labelled (codes "Total SNI Domains : ") (length a.sni_domains)
          ∷ labelled (codes "Suspicious Domains Found : ") (length a.suspicious_domains)
          ∷ (risk_lines a.suspicious_domains ++ line (codes "\nFirst Parsed Packet:") ∷ []))

-- `parsed_packets[0]`
unfoldable pub first_packet : List ParsedPacket → Result Line
first_packet [] = err Error.index_error
first_packet (p ∷ packets) = ok (packet p ∷ [])

unfoldable pub security_report : Dict Str ℕ → PacketAnalyzer → SecurityReport
security_report protocol_statistics a = record {
  protocol_statistics = protocol_statistics;
  http_packets = a.http_packet_count;
  https_packets = a.https_packet_count;
  tls_handshakes = a.tls_handshake_count;
  http_methods = a.http_method_count;
  http_hosts = a.http_hosts;
  http_paths = a.http_paths;
  sni_domains = a.sni_domains;
  suspicious_domains = a.suspicious_domains;
  risk_level = risk_of a.suspicious_domains;
}

abbrev worker_line : ℕ × ℕ → Line
worker_line (worker_id, count) =
    text (codes "Worker ")
    ∷ padded_number 9 worker_id
    ∷ text (codes ": ")
    ∷ number count
    ∷ text (codes " packets")
    ∷ []

-- `sum(d.values())`
abbrev sum_of : List (ℕ × ℕ) → ℕ
sum_of [] = 0
sum_of ((worker_id, count) ∷ counts) = count + sum_of counts

abbrev wide_rule : Line
wide_rule = line (codes "==========================================")

abbrev thin_rule : Line
thin_rule = line (codes "------------------------------------------")

abbrev pub v2_title : List Line
v2_title =
    line (codes "\n")
    ∷ wide_rule
    ∷ line (codes "       V2 MULTI-THREADED DPI ENGINE")
    ∷ wide_rule
    ∷ []

unfoldable pub v2_lines : Report → Str → List Line
v2_lines r output =
    line (codes "\nV2 DPI REPORT")
    ∷ wide_rule
    ∷ labelled (codes "Total Processed : ") r.total_packets
    ∷ labelled (codes "Forwarded       : ") r.forwarded
    ∷ labelled (codes "Dropped         : ") r.dropped
    ∷ labelled (codes "Skipped Non-IP  : ") r.skipped
    ∷ labelled (codes "Total Flows     : ") r.total_flows
    ∷ labelled (codes "Worker Errors   : ") (sum_of r.errors)
    ∷ line (codes "\nApplication Statistics")
    ∷ thin_rule
    ∷ (map padded_count r.applications
        ++ line (codes "\nWorker Statistics")
          ∷ thin_rule
          ∷ (map worker_line r.workers
              ++ line (codes "\nOutput")
                ∷ thin_rule
                ∷ (text (codes "Filtered PCAP   : ") ∷ text output ∷ [])
                ∷ line (codes "\n==========================================")
                ∷ line (codes "       V2 PIPELINE COMPLETED")
                ∷ wide_rule
                ∷ []))
