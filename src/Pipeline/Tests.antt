-- ===== src/Pipeline/Tests.antt =====
-- Runs of src/v2/pipeline.py, and instances of its theorems.
use dpi_engine_python.Balancer.{
  FlowKey, str_lt, endpoints_lt, endpoints_min, canonical, decimal, str_of, crc_bit, crc_byte,
  crc_from, crc32, joined, flow_text, flow_balancer, get_worker,
}
use dpi_engine_python.Bytes.{index, u16}
use dpi_engine_python.Dict.{get, put}
use dpi_engine_python.Packet.{protocol_name, parse}
use dpi_engine_python.Packet.Samples.{Sample, sample_scapy, hello_packet, arp_packet}
use dpi_engine_python.Pipeline.{flow_key, PacketPool, packet_pool, dispatch, build_report}
use dpi_engine_python.Pipeline.Accounting.{report_accounts}
use dpi_engine_python.Pipeline.Equivalence.{results-sequential}
use dpi_engine_python.Pool.{
  worker_pool, start_all, submit, pushed, is_drained, get_results, Event, starts, submits, works,
  happen, happen_all,
}
use dpi_engine_python.Pool.Outcome.{submissions}
use dpi_engine_python.Prelude.{◌+◌, ◌≡◌, refl, true, none, some, List, [], ◌∷◌, length}
use dpi_engine_python.Prelude.Result.{ok}
use dpi_engine_python.Processor.{
  dpi_processor, names_in, conclude, name_and_decide, resume, process_parsed, process,
}
use dpi_engine_python.Processor.Flows.{results_of}
use dpi_engine_python.Queue.{push, take_first, done_with, pop, task_done}
use dpi_engine_python.Rules.{
  normalize, first_app, classify_domain, is_ip_blocked, is_app_blocked, blocks, is_domain_blocked,
}
use dpi_engine_python.Sni.{
  server_name, walk, read_extensions, read_compression, read_ciphers, read_session, read_handshake,
  extract,
}
use dpi_engine_python.Text.{codes, encode_code, decode, lower_code, is_space, strip}
use dpi_engine_python.Tracker.{
  check_rules, apply_blocking_rules, update_flow, flow_or_new, get_or_create_flow,
  create_five_tuple, create_from,
}
use dpi_engine_python.Types.{FiveTuple}
use dpi_engine_python.Worker.{new_worker, start, handled, popped, finished, work_at, work}
use dpi_engine_python.Worker.Log.{blank, handle_all}

abbrev key : FiveTuple
key = record {
  src_ip = codes "10.0.0.1";
  dst_ip = codes "1.2.3.4";
  src_port = 5000;
  dst_port = 443;
  protocol = codes "TCP";
}

abbrev flow : FlowKey
flow = record {
  src_ip = codes "10.0.0.1";
  dst_ip = codes "1.2.3.4";
  src_port = 5000;
  dst_port = 443;
  protocol = codes "TCP";
}

abbrev pool : PacketPool sample_scapy
pool = record { worker_count = 2; workers = λ i. new_worker i (dpi_processor none none none) }

made : packet_pool sample_scapy 2 none none none ≡ ok pool
unfolding worker_pool flow_balancer
made = refl

abbrev capture : List Sample
capture = hello_packet ∷ arp_packet ∷ []

abbrev events : List (Event Sample)
events =
    starts
    ∷ submits flow hello_packet
    ∷ works 0
    ∷ works 1
    ∷ works 0
    ∷ works 1
    ∷ works 0
    ∷ works 1
    ∷ works 0
    ∷ works 1
    ∷ []

dispatched : submissions events ≡ (dispatch sample_scapy capture).0
unfolding dispatch flow_key parse protocol_name
dispatched = refl

drained : is_drained (happen_all (process sample_scapy) pool events) ≡ true
unfolding is_drained happen_all happen start_all submit pushed push take_first done_with pop
    task_done start handled popped finished work_at work get_worker flow_text joined canonical
    endpoints_min endpoints_lt str_lt str_of decimal crc32 crc_from crc_byte crc_bit encode_code
    process process_parsed resume name_and_decide conclude names_in get_or_create_flow update_flow
    flow_or_new apply_blocking_rules check_rules get put create_five_tuple create_from parse
    protocol_name is_ip_blocked is_app_blocked is_domain_blocked blocks extract index read_handshake
    read_session read_ciphers read_compression u16 read_extensions walk server_name decode
    classify_domain first_app normalize is_space lower_code strip
drained = refl

results-sequential_example :
    results_of sample_scapy (some key) (get_results (happen_all (process sample_scapy) pool events))
    ≡ results_of sample_scapy
        (some key)
        (handle_all (process sample_scapy) (blank (dpi_processor none none none)) capture).results
results-sequential_example =
    results-sequential sample_scapy none none none key 2 pool events capture made dispatched drained

report_accounts_example :
    ((build_report sample_scapy
          (happen_all (process sample_scapy) pool events)
          (dispatch sample_scapy capture).1).total_packets
        + (build_report sample_scapy
            (happen_all (process sample_scapy) pool events)
            (dispatch sample_scapy capture).1).skipped
      ≡ length capture)
    × ((build_report sample_scapy
            (happen_all (process sample_scapy) pool events)
            (dispatch sample_scapy capture).1).forwarded
          + (build_report sample_scapy
              (happen_all (process sample_scapy) pool events)
              (dispatch sample_scapy capture).1).dropped
        ≡ (build_report sample_scapy
            (happen_all (process sample_scapy) pool events)
            (dispatch sample_scapy capture).1).total_packets)
    × ((build_report sample_scapy
          (happen_all (process sample_scapy) pool events)
          (dispatch sample_scapy capture).1).errors
        ≡ [])
report_accounts_example =
    report_accounts sample_scapy none none none 2 pool events capture made dispatched drained
