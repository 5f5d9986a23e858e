-- ===== src/Analyzer/Tests.antt =====
-- Runs of src/analyzer.py, and instances of its theorems.
use dpi_engine_python.Analyzer.{
  PacketAnalyzer, packet_analyzer, bump, note_host, note_hosts, note_agent_in, note_agent,
}
use dpi_engine_python.Analyzer.Counts.{is_counted}
use dpi_engine_python.Analyzer.Loop.{
  summarise, analyze, count_request, note_path, status_in, note_response, read_text,
}
use dpi_engine_python.Analyzer.Totals.{
  tally, one_if, total, flows_named, analyze_counts, summarise_reports,
}
use dpi_engine_python.Dict.{get, put, values}
use dpi_engine_python.Packet.{ParsedPacket, parse}
use dpi_engine_python.Packet.Samples.{sample_scapy, hello_packet, arp_packet}
use dpi_engine_python.Prelude.{ℕ, ◌+◌, ◌≤◌, ◌≡◌, ◌≢◌, refl, true, none, some, List, [], ◌∷◌, In}
use dpi_engine_python.Prelude.Eq.{◌==◌, nat_eq, list_eq, option_eq}
use dpi_engine_python.Prelude.Result.{ok}
use dpi_engine_python.Rules.{rule_manager}
use dpi_engine_python.Text.{Str, codes, decode, strip, is_space, split, remove}
use dpi_engine_python.Tracker.{connection_tracker, or_zero}
use dpi_engine_python.Tracker.Runs.{empty-IsValid}

abbrev fresh : PacketAnalyzer
fresh = packet_analyzer (connection_tracker none none none)

abbrev busy : PacketAnalyzer
busy = record fresh { service_count = (codes "DNS", 2) ∷ (codes "HTTPS", 3) ∷ [] }

abbrev response : List ℕ
response = codes "HTTP/1.1 200 OK\r\nUser-Agent: x\r\nHost:a.io"

response_status : (read_text response fresh).http_status_codes ≡ (codes "200", 1) ∷ []
unfolding read_text note_response status_in note_path count_request note_agent note_agent_in
    note_hosts note_host bump decode strip is_space split remove get put
response_status = refl

response_hosts : (read_text response fresh).http_hosts ≡ codes "a.io" ∷ []
unfolding read_text note_response status_in note_path count_request note_agent note_agent_in
    note_hosts note_host bump decode strip is_space split remove get put
response_hosts = refl

abbrev capture : List ParsedPacket
capture = parse sample_scapy hello_packet ∷ parse sample_scapy arp_packet ∷ []

analyze_counts_example :
    ((analyze capture fresh).0 ≡ ok (analyze capture fresh).1.protocol_count)
    × ((analyze capture fresh).1.total_bytes ≡ 0 + total (λ p. or_zero p.packet_length) capture)
    × ((analyze capture fresh).1.https_packet_count
        ≡ 0 + total (λ p. one_if (or_zero p.dst_port == 443)) capture)
    × ((ip : Str)
        → ip ≢ []
        → tally (analyze capture fresh).1.source_ip_count ip
          ≡ tally fresh.source_ip_count ip + total (λ p. one_if (p.src_ip == some ip)) capture)
    × ((name : Str)
        → is_counted name ≡ true
        → tally (analyze capture fresh).1.protocol_count name
          ≡ tally fresh.protocol_count name + total (λ p. one_if (p.protocol == some name)) capture)
analyze_counts_example = analyze_counts capture fresh (empty-IsValid (rule_manager none none none))

summarise_reports_example :
    ((service : Str) (i : ℕ)
      → In (service, i) busy.service_count
      → (top : Str) × (m : ℕ) × ((summarise busy).top_service ≡ some top)
        × In (top, m) busy.service_count
        × (i ≤ m))
    × ((name : Str)
        → tally (summarise busy).application_count name
          ≡ flows_named name (values busy.connection_tracker.flows))
summarise_reports_example = summarise_reports busy
