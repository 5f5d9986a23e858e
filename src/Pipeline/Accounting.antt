-- ===== src/Pipeline/Accounting.antt =====
-- The report of src/v2/pipeline.py and the packets of the capture.
use dpi_engine_python.Balancer.{FlowKey, get_worker}
use dpi_engine_python.Packet.{Scapy, IpLayer, map_option, protocol_name, parse}
use dpi_engine_python.Pipeline.{
  flow_key, PacketPool, packet_pool, dispatch_one, dispatch, build_report, decided,
}
use dpi_engine_python.Pool.{
  is_drained, errors_below, get_error_stats, results_below, get_results, happen_all, Event,
}
use dpi_engine_python.Pool.History.{happen_all-count}
use dpi_engine_python.Pool.Outcome.{
  submissions, assigned, outcome, drained_outcome, assigned_below, assigned_all, worker_pool_pos,
}
use dpi_engine_python.Prelude.{
  ℕ, zero, suc, ◌+◌, ◌<◌, ◌≡◌, refl, ap, ◌∙◌, inl, inr, true, ◌&&◌, Option, none, some, List, [],
  ◌∷◌, arith, All, keep, Bool-cases, length, length-append,
}
use dpi_engine_python.Prelude.Eq.{◌==◌, nat_eq, option_eq}
use dpi_engine_python.Prelude.Result.{ok}
use dpi_engine_python.Processor.{forward, drop, DpiProcessor, dpi_processor, Processed, process}
use dpi_engine_python.Processor.Flows.{key_of}
use dpi_engine_python.Processor.Raising.{
  IsKeyed, dpi_processor-IsKeyed, process_parsed_decides, process_parsed-IsKeyed,
}
use dpi_engine_python.Text.{Str, truthy}
use dpi_engine_python.Tracker.{create_five_tuple, create_from}
use dpi_engine_python.Types.{AppType, FiveTuple, five_tuple_eq}
use dpi_engine_python.Worker.{DpiWorker}
use dpi_engine_python.Worker.Log.{Log, blank, log_of, enter, handle_all}

protocol_name-truthy : (n : ℕ) → truthy (some (protocol_name n)) ≡ true
unfolding protocol_name
protocol_name-truthy n = ground arith

create_from-some :
    (src dst protocol : Str) (sport dport : ℕ)
    → truthy (some src) && truthy (some dst) ≡ true
    → truthy (some protocol) ≡ true
    → (k : FiveTuple) × (create_from (some src) (some dst) (some protocol) sport dport ≡ some k)
unfolding create_from
create_from-some [] dst protocol sport dport h t = absurd cc
create_from-some (a ∷ src) [] protocol sport dport h t = absurd cc
create_from-some (a ∷ src) (b ∷ dst) [] sport dport h t = absurd cc
create_from-some (a ∷ src) (b ∷ dst) (c ∷ protocol) sport dport h t = (_, refl)

ip-some :
    (ip : Option IpLayer) (sport dport : ℕ)
    → truthy (map_option (λ i. i.src) ip) && truthy (map_option (λ i. i.dst) ip) ≡ true
    → (k : FiveTuple) × (create_from
          (map_option (λ i. i.src) ip)
          (map_option (λ i. i.dst) ip)
          (map_option (λ i. protocol_name i.proto) ip)
          sport
          dport
        ≡ some k)
ip-some none sport dport h = absurd cc
ip-some (some ip) sport dport h =
    create_from-some ip.src ip.dst (protocol_name ip.proto) sport dport h
      (protocol_name-truthy ip.proto)

module _ (s : Scapy) where
  -- The packet has a five-tuple.
  abbrev Keyed : s.Packet → Type 0
  Keyed packet = (k : FiveTuple) × (key_of s packet ≡ some k)

  -- The protocol of an IP packet has a name, so that addresses are enough for a five-tuple.
  flow_key-Keyed :
      (packet : s.Packet) (flow : FlowKey) → flow_key (parse s packet) ≡ some flow → Keyed packet
  unfolding flow_key parse create_five_tuple
  flow_key-Keyed packet flow h =
      let p = parse s packet in
      elim (Bool-cases (truthy p.src_ip && truthy p.dst_ip)) [
        | inl both ↦ ip-some (s.ip packet) _ _ both
        | inr missing ↦
            let never : ◌≡◌ {A = Option FlowKey} none (some flow) = rw missing at h in absurd cc
      ]

  dispatch_one-Keyed :
      (packet : s.Packet) (key : Option FlowKey) (rest : List (FlowKey × s.Packet) × ℕ)
      → flow_key (parse s packet) ≡ key
      → All (λ c. Keyed c.1) rest.0
      → All (λ c. Keyed c.1) (dispatch_one s packet key rest).0
  dispatch_one-Keyed packet none rest h all = all
  dispatch_one-Keyed packet (some flow) rest h all = (flow_key-Keyed packet flow h, all)

  dispatch-Keyed : (packets : List s.Packet) → All (λ c. Keyed c.1) (dispatch s packets).0
  unfolding dispatch
  dispatch-Keyed [] = tt
  dispatch-Keyed (packet ∷ packets) = dispatch_one-Keyed packet _ _ refl (dispatch-Keyed packets)

  dispatch_one-length :
      (packet : s.Packet) (key : Option FlowKey) (rest : List (FlowKey × s.Packet) × ℕ)
      → length (dispatch_one s packet key rest).0 + (dispatch_one s packet key rest).1
        ≡ suc (length rest.0 + rest.1)
  dispatch_one-length packet none rest = omega arith
  dispatch_one-length packet (some flow) rest = omega arith

  dispatch-length :
      (packets : List s.Packet)
      → length (dispatch s packets).0 + (dispatch s packets).1 ≡ length packets
  unfolding dispatch
  dispatch-length [] = refl
  dispatch-length (packet ∷ packets) =
      dispatch_one-length packet _ (dispatch s packets) ∙ ap suc (dispatch-length packets)

  assigned-Keyed :
      (n i : ℕ) (items : List (FlowKey × s.Packet))
      → All (λ c. Keyed c.1) items
      → All Keyed (assigned n i items)
  assigned-Keyed n i [] all = tt
  assigned-Keyed n i ((flow, packet) ∷ items) all = elim (Bool-cases (get_worker n flow == i)) [
    | inl here ↦ rw here (all.0, assigned-Keyed n i items all.1)
    | inr other ↦ rw other (assigned-Keyed n i items all.1)
  ]

  process_ok :
      (p : DpiProcessor) (packet : s.Packet)
      → IsKeyed p
      → Keyed packet
      → ((r : Processed s.Packet) × ((process s p packet).0 ≡ ok r))
        × IsKeyed (process s p packet).1
  unfolding process
  process_ok p packet v (k, h) =
      let (r, e, _, _, _) = process_parsed_decides p (parse s packet) packet v k h in
      ((r, e), process_parsed-IsKeyed p (parse s packet) packet v)

  -- Packets that have a five-tuple do not raise: each leaves a result.
  quiet :
      (packets : List s.Packet) (log : Log (Processed s.Packet) DpiProcessor)
      → IsKeyed log.state
      → All Keyed packets
      → ((handle_all (process s) log packets).errors ≡ log.errors)
        × (length (handle_all (process s) log packets).results
            ≡ length log.results + length packets)
  unfolding handle_all
  quiet [] log v all = (refl, omega arith)
  quiet (packet ∷ packets) log v (k, all) =
      let ((r, e), kept) = process_ok log.state packet v k in
      let (errors, results) =
        quiet packets (enter (ok r) (process s log.state packet).1 log) kept all in
      rw (e, handle_all) (errors, omega (arith, results, length-append log.results (r ∷ [])))

  each_decided :
      (results : List (Processed s.Packet))
      → length (keep (decided forward) results) + length (keep (decided drop) results)
        ≡ length results
  each_decided [] = refl
  each_decided (r ∷ results) = ground (arith, each_decided results)

  no_errors :
      (n : ℕ) (workers : ℕ → DpiWorker s.Packet (Processed s.Packet) DpiProcessor)
      → ((i : ℕ) → i < n → (workers i).error_count ≡ 0)
      → errors_below n workers ≡ []
  no_errors zero workers h = refl
  no_errors (suc n) workers h =
      let last = h n (omega arith) in
      rw (no_errors n workers (λ i lt. h i (omega arith)), last) refl

module _ (s : Scapy) (ips : Option (List Str)) (apps : Option (List AppType))
    (domains : Option (List Str)) where
  abbrev fresh : ℕ → DpiProcessor
  fresh _ = dpi_processor ips apps domains

  results_below-length :
      (count n : ℕ) (workers : ℕ → DpiWorker s.Packet (Processed s.Packet) DpiProcessor)
      (items : List (FlowKey × s.Packet))
      → ((i : ℕ) → i < n → length (workers i).results ≡ length (assigned count i items))
      → length (results_below n workers) ≡ assigned_below count n items
  results_below-length count zero workers items h = refl
  results_below-length count (suc n) workers items h =
      let last = h n (omega arith) in
      let before = results_below-length count n workers items (λ i lt. h i (omega arith)) in
      omega (arith, length-append (results_below n workers) (workers n).results, before, last)

  module _ (n : ℕ) (pool : PacketPool s) (events : List (Event s.Packet)) (packets : List s.Packet)
      (made : packet_pool s n ips apps domains ≡ ok pool)
      (calls : submissions events ≡ (dispatch s packets).0)
      (drained : is_drained (happen_all (process s) pool events) ≡ true) where
    abbrev last : PacketPool s
    last = happen_all (process s) pool events

    worker_quiet :
        (i : ℕ)
        → i < n
        → ((last.workers i).error_count ≡ 0)
          × (length (last.workers i).results ≡ length (assigned n i (dispatch s packets).0))
    worker_quiet i lt =
        let mine = assigned n i (dispatch s packets).0 in
        let settled : log_of (last.workers i)
            ≡ outcome (process s) fresh n i (dispatch s packets).0 =
          rw (← calls) (drained_outcome (process s) fresh n i pool events made drained lt) in
        let (errors, results) =
          quiet s mine (blank (fresh i)) (dpi_processor-IsKeyed ips apps domains)
            (assigned-Keyed s n i _ (dispatch-Keyed s packets)) in
        (
          ap (λ (l : Log (Processed s.Packet) DpiProcessor). l.errors) settled ∙ errors,
          ap (λ (l : Log (Processed s.Packet) DpiProcessor). length l.results) settled
              ∙ results
              ∙ omega arith,
        )

    -- When the workers have drained the packets that `run` submits, every packet of the capture has
    -- one result or is counted as skipped, every result is forwarded or dropped, and no worker has an
    -- error.
    pub report_accounts :
        ((build_report s last (dispatch s packets).1).total_packets
            + (build_report s last (dispatch s packets).1).skipped
          ≡ length packets)
        × ((build_report s last (dispatch s packets).1).forwarded
              + (build_report s last (dispatch s packets).1).dropped
            ≡ (build_report s last (dispatch s packets).1).total_packets)
        × ((build_report s last (dispatch s packets).1).errors ≡ [])
    unfolding build_report get_results get_error_stats
    report_accounts =
        let count = happen_all-count (process s) fresh n 0 pool events made in
        let items = (dispatch s packets).0 in
        let total = results_below-length n n last.workers items (λ i lt. (worker_quiet i lt).1) in
        let all = assigned_all n items (worker_pool_pos (process s) fresh n pool made) in
        rw count (
          omega (arith, total, all, dispatch-length s packets),
          each_decided s (results_below n last.workers),
          no_errors s n last.workers (λ i lt. (worker_quiet i lt).0),
        )
