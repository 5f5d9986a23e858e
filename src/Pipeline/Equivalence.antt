-- ===== src/Pipeline/Equivalence.antt =====
-- The workers of src/v2/pipeline.py beside one processor that is given all the packets.
use dpi_engine_python.Balancer.{FlowKey, get_worker}
use dpi_engine_python.Balancer.Direction.{get_worker-lt_pos}
use dpi_engine_python.Dict.{get}
use dpi_engine_python.Packet.{Scapy, ParsedPacket, parse}
use dpi_engine_python.Pipeline.{flow_key, PacketPool, packet_pool, dispatch_one, dispatch}
use dpi_engine_python.Pool.{is_drained, get_results, happen_all, Event}
use dpi_engine_python.Pool.Outcome.{
  submissions, assigned, outcome, expected, get_results_drained, worker_pool_pos,
}
use dpi_engine_python.Prelude.{
  ℕ, zero, suc, ◌≡◌, refl, ◌∙◌, inl, inr, Bool, true, false, Option, none, some, List, [], ◌∷◌,
  ◌++◌, arith, Bool-cases, if◌then◌else◌, append-nil, ltb, lt→ltb,
}
use dpi_engine_python.Prelude.Eq.{◌==◌, nat_eq, option_eq, option_beq_iff}
use dpi_engine_python.Prelude.Result.{ok}
use dpi_engine_python.Processor.{DpiProcessor, dpi_processor, Processed, process}
use dpi_engine_python.Processor.Flows.{
  keep-append, key_of, packets_of, results_of, flow_results, results_of-handle_all,
}
use dpi_engine_python.Text.{Str}
use dpi_engine_python.Tracker.{create_five_tuple, create_from}
use dpi_engine_python.Types.{AppType, FiveTuple, five_tuple_eq}
use dpi_engine_python.Worker.Log.{blank, handle_all}

-- The balancer's key for the packets of a five-tuple.
abbrev pub balance_key : FiveTuple → FlowKey
balance_key k = record {
  src_ip = k.src_ip;
  dst_ip = k.dst_ip;
  src_port = k.src_port;
  dst_port = k.dst_port;
  protocol = k.protocol;
}

-- A packet that has a five-tuple is not skipped, and the five-tuple gives its key.
flow_key-five_tuple :
    (p : ParsedPacket) (k : FiveTuple)
    → create_five_tuple p ≡ some k
    → flow_key p ≡ some (balance_key k)
unfolding flow_key create_five_tuple create_from
flow_key-five_tuple p k h = ground arith

module _ (s : Scapy) (k : FiveTuple) where
  abbrev own : List s.Packet → List s.Packet
  own packets = packets_of s (some k) packets

  abbrev only_if : Bool → List s.Packet → List s.Packet
  only_if b packets = if b then packets else []

  only_if-nil : (b : Bool) → [] ≡ only_if b []
  only_if-nil b = ground arith

  -- What the key of a packet sends to worker `i`.
  abbrev sent_here : ℕ → ℕ → s.Packet → Option FlowKey → List s.Packet
  sent_here n i packet none = []
  sent_here n i packet (some flow) = only_if (get_worker n flow == i) (packet ∷ [])

  assigned-dispatch_one :
      (n i : ℕ) (packet : s.Packet) (key : Option FlowKey) (rest : List (FlowKey × s.Packet) × ℕ)
      → own (assigned n i (dispatch_one s packet key rest).0)
        ≡ own (sent_here n i packet key) ++ own (assigned n i rest.0)
  assigned-dispatch_one n i packet none rest = refl
  assigned-dispatch_one n i packet (some flow) rest = elim (Bool-cases (get_worker n flow == i)) [
    | inl here ↦ rw here (keep-append (λ p. key_of s p == some k) (packet ∷ []) _)
    | inr other ↦ rw other refl
  ]

  own-foreign :
      (n i : ℕ) (packet : s.Packet) (key : Option FlowKey)
      → (key_of s packet == some k) ≡ false
      → own (sent_here n i packet key) ≡ []
  own-foreign n i packet none foreign = refl
  own-foreign n i packet (some flow) foreign = elim (Bool-cases (get_worker n flow == i)) [
    | inl here ↦ rw (here, foreign) refl
    | inr other ↦ rw other refl
  ]

  own-same :
      (n i : ℕ) (packet : s.Packet) (packets : List s.Packet)
      → (key_of s packet == some k) ≡ true
      → own (sent_here n i packet (some (balance_key k)))
          ++ only_if (get_worker n (balance_key k) == i) packets
        ≡ only_if (get_worker n (balance_key k) == i) (packet ∷ packets)
  own-same n i packet packets same = elim (Bool-cases (get_worker n (balance_key k) == i)) [
    | inl here ↦ rw (here, same) refl
    | inr other ↦ rw other refl
  ]

  -- The packets of a flow all go to the worker of its key, and to no other.
  assigned-own :
      (n i : ℕ) (packets : List s.Packet)
      → own (assigned n i (dispatch s packets).0)
        ≡ only_if (get_worker n (balance_key k) == i) (own packets)
  unfolding dispatch
  assigned-own n i [] = only_if-nil (get_worker n (balance_key k) == i)
  assigned-own n i (packet ∷ packets) =
      let later = assigned-own n i packets in
      let key = flow_key (parse s packet) in
      let step = assigned-dispatch_one n i packet key (dispatch s packets) in
      elim (Bool-cases (key_of s packet == some k)) [
        | inl same ↦
            let at_k = (option_beq_iff (key_of s packet) (some k)).0 same in
            let keyed = flow_key-five_tuple (parse s packet) k at_k in
            step ∙ rw (keyed, later) (own-same n i packet (own packets) same ∙ rw same refl)
        | inr foreign ↦ step ∙ rw (own-foreign n i packet key foreign, foreign) later
      ]

module _ (s : Scapy) (ips : Option (List Str)) (apps : Option (List AppType))
    (domains : Option (List Str)) where
  abbrev alone : DpiProcessor
  alone = dpi_processor ips apps domains

  abbrev sequential : Option FiveTuple → List s.Packet → List (Processed s.Packet)
  sequential key packets = results_of s key (handle_all (process s) (blank alone) packets).results

  flow_results-only_if :
      (k : FiveTuple) (b : Bool) (packets : List s.Packet)
      → flow_results s alone.tracker.rules none (only_if s k b packets)
        ≡ (if b then flow_results s alone.tracker.rules none packets else [])
  unfolding flow_results
  flow_results-only_if k true packets = refl
  flow_results-only_if k false packets = refl

  outcome-own :
      (k : FiveTuple) (n i : ℕ) (packets : List s.Packet)
      → results_of s (some k) (outcome (process s) (λ _. alone) n i (dispatch s packets).0).results
        ≡ (if get_worker n (balance_key k) == i then sequential (some k) packets else [])
  unfolding get
  outcome-own k n i packets =
      let here =
        results_of-handle_all s (some k) (assigned n i (dispatch s packets).0) (blank alone) in
      let there = results_of-handle_all s (some k) packets (blank alone) in
      here
      ∙ rw (assigned-own s k n i packets, there)
          (flow_results-only_if k (get_worker n (balance_key k) == i) (own s k packets))

  expected-own :
      (k : FiveTuple) (count n : ℕ) (packets : List s.Packet)
      → results_of s (some k) (expected (process s) (λ _. alone) count n (dispatch s packets).0)
        ≡ (if ltb (get_worker count (balance_key k)) n then sequential (some k) packets else [])
  expected-own k count zero packets = ground arith
  expected-own k count (suc n) packets =
      let items = (dispatch s packets).0 in
      let before = expected-own k count n packets in
      let last = outcome-own k count n packets in
      keep-append (λ r. r.flow == some k) (expected (process s) (λ _. alone) count n items) _
      ∙ rw (before, last)
          (in_one (get_worker count (balance_key k)) n (sequential (some k) packets))
    where
      in_one :
          (w n : ℕ) (rest : List (Processed s.Packet))
          → (if ltb w n then rest else []) ++ (if w == n then rest else [])
            ≡ (if ltb w (suc n) then rest else [])
      in_one w n rest = ground (arith, append-nil rest)

  -- When `n` workers have drained the packets that `run` submits, the results of a flow are those
  -- of one processor that is given all the packets in turn: the same names and decisions in the
  -- same order, for every number of workers and every interleaving of the threads.
  pub results-sequential :
      (k : FiveTuple) (n : ℕ) (pool : PacketPool s) (events : List (Event s.Packet))
      (packets : List s.Packet)
      → packet_pool s n ips apps domains ≡ ok pool
      → submissions events ≡ (dispatch s packets).0
      → is_drained (happen_all (process s) pool events) ≡ true
      → results_of s (some k) (get_results (happen_all (process s) pool events))
        ≡ results_of s (some k) (handle_all (process s) (blank alone) packets).results
  results-sequential k n pool events packets made calls drained =
      let got = get_results_drained (process s) (λ _. alone) n pool events made drained in
      let inside = lt→ltb (get_worker n (balance_key k)) n (
        get_worker-lt_pos n (balance_key k)
          (worker_pool_pos (process s) (λ _. alone) n pool made)) in
      rw (got, calls) (expected-own k n n packets ∙ rw inside refl)
