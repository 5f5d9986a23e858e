-- ===== src/Main/Tests.antt =====
-- Instances of the theorems on main.py, and runs.
use dpi_engine_python.Airflow.{run_dpi}
use dpi_engine_python.Dict.{get}
use dpi_engine_python.Engine.Results.{parse_all}
use dpi_engine_python.Io.{World}
use dpi_engine_python.Main.{
  Arguments, default_arguments, MainCall, print, write_pcap, run_v2, kafka_call, Surroundings,
}
use dpi_engine_python.Main.Apps.{upper_code, app_with, app_of, app_named, apps_named, blocked_apps}
use dpi_engine_python.Main.Completes.{answering_but, EndsAs, main-run_v2}
use dpi_engine_python.Main.Consistent.{analyzed, analyzed-IsConsistent, analyzed-adds_up}
use dpi_engine_python.Main.Verdict.{is_blocked_in, v1_packets-verdict}
use dpi_engine_python.Main.Portless.{portless-kept}
use dpi_engine_python.Rules.{rule_manager}
use dpi_engine_python.Tracker.{or_zero}
use dpi_engine_python.Packet.{parse}
use dpi_engine_python.Prelude.{not, keep, inl, inr}
use dpi_engine_python.Prelude.Eq.{contains}
use dpi_engine_python.Types.{unknown, app_eq}
use dpi_engine_python.Main.Failures.{is_print, kafka_phase-claims, main-empty}
use dpi_engine_python.Main.Keeps.{is_external}
use dpi_engine_python.Main.Phases.{skips, events_of, v1_packets, kafka_line, kafka_phase}
use dpi_engine_python.Main.Run.{main}
use dpi_engine_python.Main.Skips.{variable, main-skips}
use dpi_engine_python.Packet.Samples.{Sample, sample_scapy, hello_packet, arp_packet}
use dpi_engine_python.Pipeline.{Report}
use dpi_engine_python.Prelude.{
  ◌≡◌, refl, true, false, Option, none, some, List, [], ◌∷◌, In, All, ℕ, ◌+◌, all, any,
}
use dpi_engine_python.Prelude.Eq.{option_eq, list_eq, nat_eq}
use dpi_engine_python.Prelude.Result.{Error, Result, ok, err}
use dpi_engine_python.Sinks.Kafka.{import_kafka, connect, print_no_broker}
use dpi_engine_python.Sinks.{IsConsistent}
use dpi_engine_python.Spark.{app_summary}
use dpi_engine_python.Spark.Summary.{named_cell}
use dpi_engine_python.Spark.Samples.{simple_spark}
use dpi_engine_python.Sinks.Samples.{an_event, other_event}
use dpi_engine_python.Text.{Str, codes, strip, is_space}
use dpi_engine_python.Types.{AppType, app_name}

abbrev no_report : Report
no_report = record {
  total_packets = 0;
  forwarded = 0;
  dropped = 0;
  skipped = 0;
  applications = [];
  workers = [];
  errors = [];
  total_flows = 0;
}

-- Every call answers, and the capture file has these packets.
abbrev around : List Sample → Option Str → Surroundings Sample
around packets setting = record {
  world = λ log event. ok tt;
  ifaces = [];
  path_exists = λ path. true;
  captured = λ store. [];
  in_file = λ path. packets;
  temp_path = codes "/tmp/dpi_live_0.pcap";
  skip_external_sinks = setting;
  has_dag = true;
  v2_report = no_report;
}

abbrev args : Arguments
args = record default_arguments { block_app = some (codes " github" ∷ []) }

chosen : blocked_apps args.block_app ≡ ok (some (AppType.github ∷ []))
unfolding blocked_apps apps_named app_named app_of app_with app_name upper_code strip is_space
chosen = refl

no_unknown :
    contains unknown (rule_manager none (some (AppType.github ∷ [])) none).blocked_apps ≡ false
no_unknown = refl

-- The second pipeline raises.
abbrev v2 : List (MainCall Sample) → Result (Unit {0})
v2 log = err Error.other

abbrev before_v2 : Surroundings Sample
before_v2 = record (around (hello_packet ∷ arp_packet ∷ []) none) { world = answering_but v2 }

main-run_v2_example :
    (let m = rule_manager args.block_ip (some (AppType.github ∷ [])) args.block_domain in
      let packets = hello_packet ∷ arp_packet ∷ [] in
      let passed =
        keep
          (λ packet.
            not (is_blocked_in m (parse_all sample_scapy packets) (parse sample_scapy packet)))
          packets in
      EndsAs v2
        (write_pcap args.v1_output passed)
        (run_v2 args.input args.output args.workers)
        (main sample_scapy before_v2 args []))
main-run_v2_example =
    main-run_v2 sample_scapy before_v2 v2 refl args (some (AppType.github ∷ [])) refl (cc) chosen
      no_unknown (cc)

main-empty_example :
    ((main sample_scapy (around [] none) args []).result ≡ err Error.zero_division)
    × (all is_print (main sample_scapy (around [] none) args []).log ≡ true)
main-empty_example =
    main-empty sample_scapy (around [] none) args (some (AppType.github ∷ [])) refl refl (λ l. refl)
      chosen

setting : some (codes "1") ≡ variable run_dpi.command (codes "DPI_SKIP_EXTERNAL_SINKS")
unfolding variable get
setting = refl

main-skips_example :
    any is_external (main sample_scapy (around (hello_packet ∷ []) (some (codes "1"))) args []).log
    ≡ false
main-skips_example =
    main-skips sample_scapy (around (hello_packet ∷ []) (some (codes "1"))) args setting

abbrev refusing : World (MainCall Sample)
refusing log (kafka_call (connect servers)) = err Error.other
refusing log event = ok tt

open_sinks : skips none ≡ false
unfolding skips
open_sinks = refl

abbrev without_broker : Surroundings Sample
without_broker = record (around [] none) { world = refusing }

kafka_phase-claims_example : kafka_phase without_broker (an_event ∷ other_event ∷ []) [] ≡ record {
  log =
      kafka_call import_kafka
      ∷ kafka_call (connect (codes "localhost:9092"))
      ∷ kafka_call print_no_broker
      ∷ print (kafka_line without_broker 2)
      ∷ [];
  result = ok tt;
}
kafka_phase-claims_example =
    kafka_phase-claims without_broker an_event (other_event ∷ []) Error.other [] open_sinks
      (λ l. refl) (λ l servers. refl)

analyzed-IsConsistent_example : All IsConsistent (
    events_of
      (analyzed sample_scapy
        (some (codes "10.0.0.1" ∷ []))
        none
        none
        (arp_packet ∷ hello_packet ∷ []))
      (parse_all sample_scapy (arp_packet ∷ hello_packet ∷ [])))
analyzed-IsConsistent_example =
    analyzed-IsConsistent sample_scapy (some (codes "10.0.0.1" ∷ [])) none none
      (arp_packet ∷ hello_packet ∷ [])

analyzed-adds_up_example :
    (let rows =
        events_of
          (analyzed sample_scapy none
            (some (AppType.github ∷ []))
            none
            (arp_packet ∷ hello_packet ∷ []))
          (parse_all sample_scapy (arp_packet ∷ hello_packet ∷ [])) in
      (total blocked forwarded : ℕ) × (named_cell simple_spark app_summary
          (codes "total_packets")
          rows
          (codes "GITHUB")
        ≡ some total)
      × (named_cell simple_spark app_summary (codes "blocked_packets") rows (codes "GITHUB")
          ≡ some blocked)
      × (named_cell simple_spark app_summary (codes "forwarded_packets") rows (codes "GITHUB")
          ≡ some forwarded)
      × (total ≡ blocked + forwarded))
analyzed-adds_up_example =
    analyzed-adds_up simple_spark sample_scapy none (some (AppType.github ∷ [])) none
      (arp_packet ∷ hello_packet ∷ []) (codes "GITHUB")

v1_packets-verdict_example :
    v1_packets sample_scapy
      (analyzed sample_scapy none
        (some (AppType.github ∷ []))
        none
        (arp_packet ∷ hello_packet ∷ []))
      (arp_packet ∷ hello_packet ∷ [])
    ≡ keep
        (λ packet. not (
          is_blocked_in
            (rule_manager none (some (AppType.github ∷ [])) none)
            (parse_all sample_scapy (arp_packet ∷ hello_packet ∷ []))
            (parse sample_scapy packet)))
        (arp_packet ∷ hello_packet ∷ [])
v1_packets-verdict_example =
    v1_packets-verdict sample_scapy none (some (AppType.github ∷ [])) none
      (arp_packet ∷ hello_packet ∷ []) no_unknown

-- ICMP from an address that is blocked.
abbrev ping : Sample
ping = record {
  ip_layer = some (record { src = codes "10.0.0.1"; dst = codes "1.2.3.4"; proto = 1 });
  tcp_layer = none;
}

portless_ping : or_zero (parse sample_scapy ping).dst_port ≡ 0
unfolding parse
portless_ping = refl

portless-kept_example : In ping (
    v1_packets sample_scapy
      (analyzed sample_scapy (some (codes "10.0.0.1" ∷ [])) none none (hello_packet ∷ ping ∷ []))
      (hello_packet ∷ ping ∷ []))
portless-kept_example =
    portless-kept sample_scapy (some (codes "10.0.0.1" ∷ [])) none none (hello_packet ∷ ping ∷ [])
      ping (inr (inl refl)) portless_ping

-- An application that is not known.
unknown_name : app_named (codes "skype") ≡ err Error.value_error
unfolding app_named app_of app_with app_name upper_code strip is_space
unknown_name = refl
