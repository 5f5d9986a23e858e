-- ===== src/Main/Failures.antt =====
-- How `main` fails: on an empty capture, and in what it says of a sink that did nothing.
use dpi_engine_python.Analyzer.Loop.{
  analyze_all, analyze, finish_analysis, summarise, find_top, count_flows, report_flows,
}
use dpi_engine_python.Emitter.{NetworkEvent}
use dpi_engine_python.Main.{Arguments, MainCall, print, read_pcap, kafka_call, Surroundings}
use dpi_engine_python.Main.Apps.{blocked_apps}
use dpi_engine_python.Main.Lines.{application_lines, protocol_share}
use dpi_engine_python.Main.Phases.{skips, kafka_line, kafka_unless, kafka_phase}
use dpi_engine_python.Main.Run.{
  load, protocol_lines, print_statistics, report_on, analyze_packets, main_live, main,
}
use dpi_engine_python.Packet.{Scapy}
use dpi_engine_python.Prelude.{
  ◌≡◌, refl, Bool, true, false, Option, List, [], ◌∷◌, ◌++◌, all, length, append_assoc,
}
use dpi_engine_python.Prelude.Result.{Error, ok, err}
use dpi_engine_python.Sinks.Kafka.{
  import_kafka, connect, print_no_broker, connect_and_send, publish,
}
use dpi_engine_python.Text.{Str, codes}
use dpi_engine_python.Types.{AppType}

module _ {P : Type 0} where
  abbrev pub is_print : MainCall P → Bool
  is_print (print printed) = true
  is_print (read_pcap path) = true
  is_print _ = false

  -- Where no broker is reached, KafkaSink sends nothing and returns False, and `main` prints that all
  -- events were published.
  pub kafka_phase-claims :
      (around : Surroundings P) (event : NetworkEvent) (events : List NetworkEvent) (e : Error)
      (log : List (MainCall P))
      → skips around.skip_external_sinks ≡ false
      → ((l : List (MainCall P)) → around.world l (kafka_call import_kafka) ≡ ok tt)
      → ((l : List (MainCall P)) (servers : Str)
          → around.world l (kafka_call (connect servers)) ≡ err e)
      → kafka_phase around (event ∷ events) log ≡ record {
        log =
            log
            ++ kafka_call import_kafka
              ∷ kafka_call (connect (codes "localhost:9092"))
              ∷ kafka_call print_no_broker
              ∷ print (kafka_line around (length (event ∷ events)))
              ∷ [];
        result = ok tt;
      }
  unfolding kafka_phase kafka_unless publish connect_and_send
  kafka_phase-claims around event events e log open_sinks imported refused =
      rw (open_sinks, imported _, refused _ _, append_assoc log _ (print _ ∷ [])) refl

-- On a capture without packets `main` raises ZeroDivisionError when it prints the protocols, before it
-- writes a report, a capture or an event and before the second pipeline: all that it did was to read
-- the file and to print.
pub main-empty :
    (s : Scapy) (around : Surroundings s.Packet) (args : Arguments) (apps : Option (List AppType))
    → args.live ≡ false
    → around.in_file args.input ≡ []
    → ((l : List (MainCall s.Packet)) → around.world l (read_pcap args.input) ≡ ok tt)
    → blocked_apps args.block_app ≡ ok apps
    → ((main s around args []).result ≡ err Error.zero_division)
      × (all is_print (main s around args []).log ≡ true)
unfolding main main_live load analyze_packets report_on print_statistics protocol_lines analyze
    analyze_all finish_analysis summarise find_top count_flows report_flows application_lines
    protocol_share
main-empty s around args apps offline empty readable chosen =
    rw (offline, readable _, empty, chosen) (refl, refl)
