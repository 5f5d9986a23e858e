-- ===== src/Engine/Tests.antt =====
-- An instance of the theorem on src/dpi_engine.py.
use dpi_engine_python.Analyzer.Totals.{one_if, total}
use dpi_engine_python.Engine.{dpi_engine, Processing, process_packets}
use dpi_engine_python.Engine.Results.{has_key, parse_all, recounted, process_packets_counts}
use dpi_engine_python.Dict.{get}
use dpi_engine_python.Packet.{protocol_name, parse}
use dpi_engine_python.Packet.Samples.{Sample, sample_scapy, hello_packet, arp_packet}
use dpi_engine_python.Prelude.{◌+◌, ◌≡◌, none, some, List, [], ◌∷◌, length}
use dpi_engine_python.Prelude.Eq.{◌==◌, option_eq}
use dpi_engine_python.Prelude.Result.{ok}
use dpi_engine_python.Rules.{rule_manager}
use dpi_engine_python.Text.{codes}
use dpi_engine_python.Tracker.{create_five_tuple, create_from}
use dpi_engine_python.Tracker.Runs.{empty-IsValid, counted}
use dpi_engine_python.Types.{FiveTuple, five_tuple_eq}

abbrev capture : List Sample
capture = hello_packet ∷ arp_packet ∷ hello_packet ∷ []

abbrev key : FiveTuple
key = record {
  src_ip = codes "10.0.0.1";
  dst_ip = codes "1.2.3.4";
  src_port = 5000;
  dst_port = 443;
  protocol = codes "TCP";
}

-- Two packets of the flow count as four.
counted_twice :
    counted
      (process_packets sample_scapy dpi_engine capture).1.analyzer.connection_tracker
      (some key)
    ≡ 4
unfolding create_five_tuple create_from parse protocol_name get
counted_twice =
    (process_packets_counts sample_scapy dpi_engine capture
        (empty-IsValid (rule_manager none none none))).1
      key

process_packets_counts_example :
    ((r : Processing Sample) × ((process_packets sample_scapy dpi_engine capture).0 ≡ ok r)
      × (r.parsed_packets ≡ parse_all sample_scapy capture)
      × (length r.decisions ≡ total (λ p. one_if (has_key p)) (parse_all sample_scapy capture)))
    × ((k : FiveTuple)
        → counted
            (process_packets sample_scapy dpi_engine capture).1.analyzer.connection_tracker
            (some k)
          ≡ counted dpi_engine.analyzer.connection_tracker (some k)
            + total (λ p. one_if (create_five_tuple p == some k)) (parse_all sample_scapy capture)
            + total (λ p. one_if (recounted k p)) (parse_all sample_scapy capture))
process_packets_counts_example =
    process_packets_counts sample_scapy dpi_engine capture
      (empty-IsValid (rule_manager none none none))
