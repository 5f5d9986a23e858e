-- ===== src/Analyzer/Loop.antt =====
-- src/analyzer.py: `analyze`, the loop over the packets and what follows it.
use dpi_engine_python.Analyzer.{
  SniReport, PacketAnalyzer, bump, count_source, count_service, note_sni, count_tls, note_hosts,
  note_agent,
}
use dpi_engine_python.Bytes.{Bytes}
use dpi_engine_python.Dict.{Dict, values}
use dpi_engine_python.Http.{crlf}
use dpi_engine_python.Packet.{ParsedPacket}
use dpi_engine_python.Prelude.{
  ℕ, ◌+◌, ◌||◌, Option, none, some, List, [], ◌∷◌, ◌++◌, get_elem?, ltb, if◌then◌else◌,
}
use dpi_engine_python.Prelude.Eq.{◌==◌, nat_eq, list_eq, option_eq}
use dpi_engine_python.Prelude.Result.{Error, Result, ok, err}
use dpi_engine_python.Processor.{payload_of}
use dpi_engine_python.Sni
use dpi_engine_python.Text.{Str, codes, truthy, starts_with, split, decode}
use dpi_engine_python.Tracker.{get_or_create_flow, create_five_tuple, or_zero}
use dpi_engine_python.Types.{app_name, FiveTuple, five_tuple_eq, Flow}

-- `text.split(" ")[1]`; none where the index is out of range.
abbrev second_word : Str → Option Str
second_word text = get_elem? (split (codes " ") text) 1

-- Requests and their methods.
unfoldable pub count_request : Str → PacketAnalyzer → PacketAnalyzer
count_request text a =
    let get_request = starts_with text (codes "GET") in
    let post_request = starts_with text (codes "POST") in
    let other_request = starts_with text (codes "PUT") || starts_with text (codes "DELETE") in
    let counted = record a {
      http_packet_count =
          if get_request || (post_request || other_request)
          then a.http_packet_count + 1
          else a.http_packet_count;
    } in
    record counted {
      http_method_count =
          if get_request
          then bump a.http_method_count (codes "GET")
          else if post_request
          then bump a.http_method_count (codes "POST")
          else a.http_method_count;
    }

-- With the word after the method. An index out of range leaves the `try`, with what was done so far.
unfoldable pub path_in : Str → Option Str → PacketAnalyzer → PacketAnalyzer
path_in text none a = a
path_in text (some path) a =
    count_request text (record a { http_paths = a.http_paths ++ path ∷ [] })

-- From the path on.
unfoldable pub note_path : Str → PacketAnalyzer → PacketAnalyzer
note_path text a =
    if starts_with text (codes "GET") || starts_with text (codes "POST")
    then path_in text (second_word text) a
    else count_request text a

unfoldable pub status_in : Str → Option Str → PacketAnalyzer → PacketAnalyzer
status_in text none a = a
status_in text (some status_code) a =
    note_path text (record a { http_status_codes = bump a.http_status_codes status_code })

-- From the responses on.
unfoldable pub note_response : Str → PacketAnalyzer → PacketAnalyzer
note_response text a =
    if starts_with text (codes "HTTP/")
    then status_in text (second_word text)
        (record a { http_response_count = a.http_response_count + 1 })
    else note_path text a

-- The `try` block.
unfoldable pub read_text : Bytes → PacketAnalyzer → PacketAnalyzer
read_text payload a =
    let text = decode payload in
    note_response text (note_agent text (note_hosts (split crlf text) a))

-- `protocol_count[protocol] += 1` for the three protocols that are counted.
unfoldable pub count_protocol : Option Str → PacketAnalyzer → PacketAnalyzer
count_protocol none a = a
count_protocol (some protocol) a =
    if protocol == codes "TCP" || (protocol == codes "UDP" || protocol == codes "ICMP")
    then record a { protocol_count = bump a.protocol_count protocol }
    else a

-- What the loop goes on with: an exception leaves it.
abbrev pub Turn : Type 0
Turn = Option Error × PacketAnalyzer

unfoldable pub counted : ParsedPacket → Result Flow → PacketAnalyzer → Turn
counted p (err e) a = (some e, a)
counted p (ok flow) a = (none, count_protocol p.protocol a)

-- From the five-tuple on.
unfoldable pub tracked : ParsedPacket → Option Str → Option FiveTuple → PacketAnalyzer → Turn
tracked p sni none a = (none, count_protocol p.protocol a)
tracked p sni (some key) a =
    let (result, tracker) = get_or_create_flow a.connection_tracker (some key) sni in
    counted p result (record a { connection_tracker = tracker })

-- From the SNI on.
unfoldable pub with_sni : ParsedPacket → Result (Option Str) → PacketAnalyzer → Turn
with_sni p (err e) a = (some e, a)
with_sni p (ok sni) a =
    let payload = payload_of p in
    tracked p sni (create_five_tuple p) (read_text payload (count_tls payload (note_sni sni a)))

-- What is done for a destination port, which 0 is not.
unfoldable pub at_port : ParsedPacket → ℕ → PacketAnalyzer → Turn
at_port p port a =
    if port == 0
    then (none, count_protocol p.protocol a)
    else with_sni p (Sni.extract (payload_of p)) (record a {
      destination_port_count = bump a.destination_port_count port;
      https_packet_count = if port == 443 then a.https_packet_count + 1 else a.https_packet_count;
    })

-- The body of the loop.
unfoldable pub analyze_packet : ParsedPacket → PacketAnalyzer → Turn
analyze_packet p a =
    let sized = record a { total_bytes = a.total_bytes + or_zero p.packet_length } in
    at_port p (or_zero p.dst_port) (count_service p.dst_port (count_source p.src_ip sized))

-- The rest of the loop runs if the body did not raise.
abbrev pub proceed : Option Error → PacketAnalyzer → Turn → Turn
proceed none next rest = rest
proceed (some e) next rest = (some e, next)

unfoldable pub analyze_all : List ParsedPacket → PacketAnalyzer → Turn
analyze_all [] a = (none, a)
analyze_all (p ∷ packets) a =
    let (raised, next) = analyze_packet p a in proceed raised next (analyze_all packets next)

-- `max(d, key=d.get)`: the first of the keys with the greatest value.
unfoldable pub max_key : Str → ℕ → Dict Str ℕ → Str
max_key best n [] = best
max_key best n ((k, m) ∷ rest) = if ltb n m then max_key k m rest else max_key best n rest

unfoldable pub find_top : Dict Str ℕ → Option Str → Option Str
find_top [] old = old
find_top ((k, n) ∷ rest) old = some (max_key k n rest)

unfoldable pub count_flows : List Flow → Dict Str ℕ → Dict Str ℕ
count_flows [] counts = counts
count_flows (flow ∷ flows) counts = count_flows flows (bump counts (app_name flow.app_type))

unfoldable pub report_flows : List Flow → List SniReport
report_flows [] = []
report_flows (flow ∷ flows) =
    let entry : SniReport = record {
      sni = flow.sni;
      application = app_name flow.app_type;
      blocked = flow.blocked;
    } in
    if truthy flow.sni then entry ∷ report_flows flows else report_flows flows

-- What follows the loop.
unfoldable pub summarise : PacketAnalyzer → PacketAnalyzer
summarise a =
    let flows = values a.connection_tracker.flows in
    record a {
      top_service = find_top a.service_count a.top_service;
      application_count = count_flows flows [];
      sni_application_report = report_flows flows;
    }

unfoldable pub finish_analysis : Turn → Result (Dict Str ℕ) × PacketAnalyzer
finish_analysis (some e, a) = (err e, a)
finish_analysis (none, a) = let done = summarise a in (ok done.protocol_count, done)

unfoldable pub analyze : List ParsedPacket → PacketAnalyzer → Result (Dict Str ℕ) × PacketAnalyzer
analyze packets a = finish_analysis (analyze_all packets a)
