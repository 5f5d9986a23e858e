-- ===== src/Pipeline.antt =====
-- src/v2/pipeline.py: packets from the reader to the workers, and the report on their results. The
-- files that it reads and writes are the list of packets it is given and the list it forwards.
pub mod Equivalence
pub mod Accounting
mod Tests
use dpi_engine_python.Balancer.{FlowKey}
use dpi_engine_python.Dict.{Dict, get, put}
use dpi_engine_python.Packet.{Scapy, ParsedPacket, parse}
use dpi_engine_python.Pool.{
  WorkerPool, worker_pool, is_drained, get_worker_stats, get_error_stats, get_results, Event,
}
use dpi_engine_python.Prelude.{
  ℕ, zero, suc, ◌+◌, Bool, true, false, ◌&&◌, Option, none, some, List, [], ◌∷◌, ◌++◌, length, map,
  keep, if◌then◌else◌,
}
use dpi_engine_python.Prelude.Eq.{◌==◌, nat_eq, list_eq, option_eq}
use dpi_engine_python.Prelude.Result.{Result}
use dpi_engine_python.Processor.{Decision, forward, drop, DpiProcessor, dpi_processor, Processed}
use dpi_engine_python.Text.{Str, codes, truthy}
use dpi_engine_python.Tracker.{or_zero, get_flow_count}
use dpi_engine_python.Types.{AppType, app_name, FiveTuple, five_tuple_eq}
use dpi_engine_python.Worker.{DpiWorker}

abbrev pub or_text : Str → Option Str → Str
or_text default none = default
or_text default (some text) = text

-- The key that balances a packet; none for the packets that `run` skips.
unfoldable pub flow_key : ParsedPacket → Option FlowKey
flow_key p =
    if truthy p.src_ip && truthy p.dst_ip
    then some (record {
      src_ip = or_text [] p.src_ip;
      dst_ip = or_text [] p.dst_ip;
      src_port = or_zero p.src_port;
      dst_port = or_zero p.dst_port;
      protocol = or_text (codes "UNKNOWN") p.protocol;
    })
    else none

-- `Counter(words)`
unfoldable pub count_all : Dict Str ℕ → List Str → Dict Str ℕ
count_all counts [] = counts
count_all counts (word ∷ words) = count_all (put counts word (or_zero (get counts word) + 1)) words

abbrev pub decided : {P : Type 0} → Decision → Processed P → Bool
decided forward r = elim r.decision [ forward ↦ true | drop ↦ false ]
decided drop r = elim r.decision [ forward ↦ false | drop ↦ true ]

pub record Report : Type 0 where
  pub total_packets : ℕ
  pub forwarded : ℕ
  pub dropped : ℕ
  pub skipped : ℕ
  pub applications : Dict Str ℕ
  pub workers : List (ℕ × ℕ)
  pub errors : List (ℕ × ℕ)
  pub total_flows : ℕ

module _ (s : Scapy) where
  abbrev pub PacketPool : Type 0
  PacketPool = WorkerPool s.Packet (Processed s.Packet) DpiProcessor

  -- One processor for each worker, all with the same rules.
  abbrev pub packet_pool :
      ℕ → Option (List Str) → Option (List AppType) → Option (List Str) → Result PacketPool
  packet_pool worker_count ips apps domains =
      worker_pool worker_count (λ _. dpi_processor ips apps domains)

  abbrev pub dispatch_one :
      s.Packet → Option FlowKey → List (FlowKey × s.Packet) × ℕ → List (FlowKey × s.Packet) × ℕ
  dispatch_one packet none (calls, skipped) = (calls, skipped + 1)
  dispatch_one packet (some flow) (calls, skipped) = ((flow, packet) ∷ calls, skipped)

  -- The calls of `submit` that `run` makes, in order, and the number of packets it skips.
  unfoldable pub dispatch : List s.Packet → List (FlowKey × s.Packet) × ℕ
  dispatch [] = ([], 0)
  dispatch (packet ∷ packets) = dispatch_one packet (flow_key (parse s packet)) (dispatch packets)

  unfoldable pub forwarded_packets : List (Processed s.Packet) → List s.Packet
  forwarded_packets results = map (λ r. r.raw_packet) (keep (decided forward) results)

  -- `result["flow"].app_type.value`, read in the table that holds the flow.
  abbrev application_of : DpiProcessor → Processed s.Packet → Str
  application_of p r = elim (get p.tracker.flows r.flow) [
    | none ↦ app_name AppType.unknown
    | some flow ↦ app_name flow.app_type
  ]

  abbrev pub applications_below :
      ℕ → (ℕ → DpiWorker s.Packet (Processed s.Packet) DpiProcessor) → List Str
  applications_below zero workers = []
  applications_below (suc n) workers =
      applications_below n workers ++ map (application_of (workers n).state) (workers n).results

  abbrev pub flows_below : ℕ → (ℕ → DpiWorker s.Packet (Processed s.Packet) DpiProcessor) → ℕ
  flows_below zero workers = 0
  flows_below (suc n) workers = flows_below n workers + get_flow_count (workers n).state.tracker

  -- The report on a drained pool.
  unfoldable pub build_report : PacketPool → ℕ → Report
  build_report pool skipped =
      let results = get_results pool in
      record {
        total_packets = length results;
        forwarded = length (keep (decided forward) results);
        dropped = length (keep (decided drop) results);
        skipped = skipped;
        applications = count_all [] (applications_below pool.worker_count pool.workers);
        workers = get_worker_stats pool;
        errors = get_error_stats pool;
        total_flows = flows_below pool.worker_count pool.workers;
      }

  -- What `run` reads, writes and returns once the pool is drained; none while it waits.
  unfoldable pub finish :
      PacketPool → ℕ → Option (Report × List (Processed s.Packet) × List s.Packet)
  finish pool skipped =
      if is_drained pool
      then some (build_report pool skipped, get_results pool, forwarded_packets (get_results pool))
      else none
