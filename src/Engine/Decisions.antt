-- ===== src/Engine/Decisions.antt =====
-- The decisions of src/dpi_engine.py, told by the flow table alone.
use dpi_engine_python.Analyzer.Counts.{sni_in, touched_at}
use dpi_engine_python.Analyzer.Loop.{analyze}
use dpi_engine_python.Dict.{Dict, get, get-put}
use dpi_engine_python.Engine.{
  DpiEngine, Gathered, Turn, Processing, decide, with_sni, with_key, handle, gather, nothing_yet,
  with_statistics, analyze_gathered, process_packets,
}
use dpi_engine_python.Packet.{Scapy, ParsedPacket, parse}
use dpi_engine_python.Prelude.{
  ℕ, ◌≡◌, refl, sym, ◌∙◌, Option, none, some, List, [], ◌∷◌, ◌++◌, arith, map, append_assoc,
  append-nil, if◌then◌else◌,
}
use dpi_engine_python.Prelude.Eq.{option_eq, beq_refl}
use dpi_engine_python.Prelude.Result.{Result, ok, err}
use dpi_engine_python.Processor.{Decision, forward, drop, payload_of}
use dpi_engine_python.Sni
use dpi_engine_python.Sni.Total.{extract_total}
use dpi_engine_python.Text.{Str}
use dpi_engine_python.Tracker.{ConnectionTracker, create_five_tuple, get_or_create_flow}
use dpi_engine_python.Tracker.Blocking.{IsValid, get_or_create_flow-IsValid, get_or_create_flow_ok}
use dpi_engine_python.Types.{FiveTuple, five_tuple_eq, Flow}

-- What the table says of a five-tuple: its flow is blocked or it is not.
abbrev pub decision_in : Option Flow → Decision
decision_in none = forward
decision_in (some flow) = if flow.blocked then drop else forward

-- A packet without a five-tuple has no decision.
abbrev pub decisions_at : ConnectionTracker → Option FiveTuple → List Decision
decisions_at t none = []
decisions_at t (some key) = decision_in (get t.flows (some key)) ∷ []

-- The table after the packet.
abbrev pub seen_by : ConnectionTracker → ParsedPacket → ConnectionTracker
seen_by t p = touched_at t (create_five_tuple p) (sni_in (Sni.extract (payload_of p)))

-- One decision for each packet with a five-tuple, in order: that of its flow once it is seen.
abbrev pub decisions_from : ConnectionTracker → List ParsedPacket → List Decision
decisions_from t [] = []
decisions_from t (p ∷ packets) =
    decisions_at (seen_by t p) (create_five_tuple p) ++ decisions_from (seen_by t p) packets

returned-get :
    (t : ConnectionTracker) (key : FiveTuple) (sni : Option Str) (flow : Flow)
    → (get_or_create_flow t (some key) sni).0 ≡ ok flow
    → get (get_or_create_flow t (some key) sni).1.flows (some key) ≡ some flow
unfolding get_or_create_flow
returned-get t key sni flow e = get-put t.flows (some key) (some key) _ ∙ rw (beq_refl key, e) refl

record IsDecided {P : Type 0} (p : ParsedPacket) (key : Option FiveTuple) (g : Gathered P)
    (turn : Turn P) : Type 0 where
  goes_on : turn.0 ≡ none
  tracker : turn.1.tracker ≡ touched_at g.tracker key (sni_in (Sni.extract (payload_of p)))
  decisions :
      turn.1.decisions
      ≡ g.decisions
        ++ decisions_at (touched_at g.tracker key (sni_in (Sni.extract (payload_of p)))) key
  valid : IsValid turn.1.tracker

with_key-IsDecided :
    {P : Type 0} (packet : P) (p : ParsedPacket) (key : Option FiveTuple) (g : Gathered P)
    → IsValid g.tracker
    → IsDecided p key g (with_key packet p key g)
unfolding with_key with_sni decide
with_key-IsDecided packet p none g v = record {
  goes_on = refl;
  tracker = refl;
  decisions = sym (append-nil g.decisions);
  valid = v;
}
with_key-IsDecided packet p (some key) g v =
    let (sni, found) = extract_total (payload_of p) in
    let (flow, e) = get_or_create_flow_ok g.tracker key sni v in
    let there = returned-get g.tracker key sni flow e in
    rw (found, e)
      (record {
        goes_on = refl;
        tracker = rw found refl;
        decisions = rw (found, there) refl;
        valid = get_or_create_flow-IsValid g.tracker (some key) sni v;
      })

with_statistics-decisions :
    {P : Type 0} (g : Gathered P) (statistics : Result (Dict Str ℕ)) (r : Processing P)
    → with_statistics g statistics ≡ ok r
    → r.decisions ≡ g.decisions
unfolding with_statistics
with_statistics-decisions g (err e) r h = absurd cc
with_statistics-decisions g (ok statistics) r h = ground (arith, h)

module _ (s : Scapy) where
  gather-decisions :
      (packets : List s.Packet) (g : Gathered s.Packet)
      → IsValid g.tracker
      → ((gather s packets g).0 ≡ none)
        × ((gather s packets g).1.decisions
            ≡ g.decisions ++ decisions_from g.tracker (map (parse s) packets))
  unfolding gather handle
  gather-decisions [] g v = (refl, sym (append-nil g.decisions))
  gather-decisions (packet ∷ packets) g v =
      let p = parse s packet in
      let noted : Gathered s.Packet = record g { parsed_packets = g.parsed_packets ++ p ∷ [] } in
      let one = with_key-IsDecided packet p (create_five_tuple p) noted v in
      let next = (with_key packet p (create_five_tuple p) noted).1 in
      let (goes_on, rest) = gather-decisions packets next one.valid in
      rw one.goes_on (
        goes_on,
        rest
            ∙ rw (one.tracker, one.decisions)
                (append_assoc g.decisions (decisions_at (seen_by g.tracker p) (create_five_tuple p))
                  _),
      )

  -- The decisions that the engine returns on a valid table are those of the flows of the packets with a
  -- five-tuple, in order, each as the flow stands once the packet is seen.
  pub process_packets-decisions :
      (engine : DpiEngine) (packets : List s.Packet) (r : Processing s.Packet)
      → IsValid engine.analyzer.connection_tracker
      → (process_packets s engine packets).0 ≡ ok r
      → r.decisions ≡ decisions_from engine.analyzer.connection_tracker (map (parse s) packets)
  unfolding process_packets analyze_gathered
  process_packets-decisions engine packets r v h =
      let start = nothing_yet s engine in
      let (goes_on, decided) = gather-decisions packets start v in
      let gathered = (gather s packets start).1 in
      let statistics =
        (analyze gathered.parsed_packets
          (record engine.analyzer { connection_tracker = gathered.tracker })).0 in
      let answered : with_statistics gathered statistics ≡ ok r = rw goes_on at h in
      with_statistics-decisions gathered statistics r answered ∙ decided
