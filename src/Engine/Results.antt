-- ===== src/Engine/Results.antt =====
-- The results of src/dpi_engine.py, and how often each packet is counted.
use dpi_engine_python.Analyzer.{PacketAnalyzer}
use dpi_engine_python.Analyzer.Counts.{touched, touched_at}
use dpi_engine_python.Analyzer.Loop.{analyze}
use dpi_engine_python.Analyzer.Totals.{one_if, total, after_all-total, analyze-core}
use dpi_engine_python.Analyzer.Untouched.{Core, core}
use dpi_engine_python.Engine.{
  DpiEngine, Gathered, Turn, Processing, decide, with_sni, with_key, handle, gather, nothing_yet,
  with_statistics, analyze_gathered, process_packets,
}
use dpi_engine_python.Packet.{Scapy, ParsedPacket, parse}
use dpi_engine_python.Prelude.{
  ◌+◌, ◌≡◌, refl, sym, ap, ◌∙◌, inl, inr, Bool, true, false, not, ◌&&◌, Option, none, some, List,
  [], ◌∷◌, ◌++◌, arith, map, length, length-append, append_assoc, append-nil, Bool-cases,
  if◌then◌else◌,
}
use dpi_engine_python.Prelude.Eq.{◌==◌, nat_eq, option_eq}
use dpi_engine_python.Prelude.Result.{ok}
use dpi_engine_python.Processor.{payload_of}
use dpi_engine_python.Sni.Total.{extract_total}
use dpi_engine_python.Text.{Str}
use dpi_engine_python.Tracker.{ConnectionTracker, create_five_tuple, or_zero}
use dpi_engine_python.Tracker.Blocking.{IsValid, get_or_create_flow-IsValid, get_or_create_flow_ok}
use dpi_engine_python.Tracker.Runs.{counted, counted-call}
use dpi_engine_python.Types.{FiveTuple, five_tuple_eq}

-- The packet has a five-tuple.
abbrev is_some : Option FiveTuple → Bool
is_some none = false
is_some (some key) = true

abbrev pub has_key : ParsedPacket → Bool
has_key p = is_some (create_five_tuple p)

if-one_if : (b : Bool) → (if b then 1 else 0) ≡ one_if b
if-one_if true = refl
if-one_if false = refl

-- What the body of the loop does on a valid table: it goes on, with one decision more for a packet that
-- has a five-tuple, and with the flow of that five-tuple counted.
record Handled {P : Type 0} (parsed : ParsedPacket) (key : Option FiveTuple) (g : Gathered P)
    (turn : Turn P) : Type 0 where
  goes_on : turn.0 ≡ none
  parsed_packets : turn.1.parsed_packets ≡ g.parsed_packets
  decisions : length turn.1.decisions ≡ length g.decisions + one_if (is_some key)
  valid : IsValid turn.1.tracker
  counts :
      (k : FiveTuple)
      → counted turn.1.tracker (some k) ≡ counted g.tracker (some k) + one_if (key == some k)

with_key-Handled :
    {P : Type 0} (packet : P) (parsed : ParsedPacket) (key : Option FiveTuple) (g : Gathered P)
    → IsValid g.tracker
    → Handled parsed key g (with_key packet parsed key g)
unfolding with_key with_sni decide
with_key-Handled packet parsed none g v = record {
  goes_on = refl;
  parsed_packets = refl;
  decisions = omega arith;
  valid = v;
  counts = λ k. omega arith;
}
with_key-Handled packet parsed (some key) g v =
    let (sni, found) = extract_total (payload_of parsed) in
    let (flow, e) = get_or_create_flow_ok g.tracker key sni v in
    rw (found, e)
      (record {
        goes_on = refl;
        parsed_packets = refl;
        decisions = length-append g.decisions _;
        valid = get_or_create_flow-IsValid g.tracker (some key) sni v;
        counts = λ k.
            counted-call g.tracker (some key) (some k) sni
            ∙ ap (λ n. counted g.tracker (some k) + n) (if-one_if _);
      })

-- The analyzer counts the flow of a packet with a destination port.
abbrev pub recounted : FiveTuple → ParsedPacket → Bool
recounted k p = not (or_zero p.dst_port == 0) && create_five_tuple p == some k

counted-touched :
    (k : FiveTuple) (p : ParsedPacket) (t : ConnectionTracker)
    → counted (touched p t) (some k) ≡ counted t (some k) + one_if (recounted k p)
counted-touched k p t = elim (Bool-cases (or_zero p.dst_port == 0)) [
  | inl zero ↦ rw zero (omega arith)
  | inr other ↦ rw other (at_key (create_five_tuple p) _)
]
  where
    at_key :
        (key : Option FiveTuple) (sni : Option Str)
        → counted (touched_at t key sni) (some k) ≡ counted t (some k) + one_if (key == some k)
    at_key none sni = omega arith
    at_key (some key) sni =
        counted-call t (some key) (some k) sni ∙ ap (λ n. counted t (some k) + n) (if-one_if _)

module _ (s : Scapy) where
  abbrev pub parse_all : List s.Packet → List ParsedPacket
  parse_all packets = map (parse s) packets

  -- What the whole loop does on a valid table.
  record GatheredAll (packets : List s.Packet) (g : Gathered s.Packet) (turn : Turn s.Packet)
      : Type 0 where
    all_goes_on : turn.0 ≡ none
    all_parsed : turn.1.parsed_packets ≡ g.parsed_packets ++ parse_all packets
    all_decisions :
        length turn.1.decisions
        ≡ length g.decisions + total (λ p. one_if (has_key p)) (parse_all packets)
    all_valid : IsValid turn.1.tracker
    all_counts :
        (k : FiveTuple)
        → counted turn.1.tracker (some k)
          ≡ counted g.tracker (some k)
            + total (λ p. one_if (create_five_tuple p == some k)) (parse_all packets)

  gather-GatheredAll :
      (packets : List s.Packet) (g : Gathered s.Packet)
      → IsValid g.tracker
      → GatheredAll packets g (gather s packets g)
  unfolding gather handle
  gather-GatheredAll [] g v = record {
    all_goes_on = refl;
    all_parsed = sym (append-nil g.parsed_packets);
    all_decisions = omega arith;
    all_valid = v;
    all_counts = λ k. omega arith;
  }
  gather-GatheredAll (packet ∷ packets) g v =
      let p = parse s packet in
      let noted : Gathered s.Packet = record g { parsed_packets = g.parsed_packets ++ p ∷ [] } in
      let one = with_key-Handled packet p (create_five_tuple p) noted v in
      let next = (with_key packet p (create_five_tuple p) noted).1 in
      let rest = gather-GatheredAll packets next one.valid in
      rw one.goes_on (record {
        all_goes_on = rest.all_goes_on;
        all_parsed =
            rest.all_parsed
            ∙ ap (λ ps. ps ++ parse_all packets) one.parsed_packets
            ∙ append_assoc g.parsed_packets (p ∷ []) (parse_all packets);
        all_decisions = omega (arith, rest.all_decisions, one.decisions);
        all_valid = rest.all_valid;
        all_counts = λ k. omega (arith, rest.all_counts k, one.counts k);
      })

  -- On a valid table the engine answers: it returns every packet as parsed and one decision for each
  -- packet with a five-tuple. The count of a flow rises by one for each of its packets, and by one
  -- more for each that has a destination port other than 0, which the analyzer counts again.
  pub process_packets_counts :
      (engine : DpiEngine) (packets : List s.Packet)
      → IsValid engine.analyzer.connection_tracker
      → ((r : Processing s.Packet) × ((process_packets s engine packets).0 ≡ ok r)
          × (r.parsed_packets ≡ parse_all packets)
          × (length r.decisions ≡ total (λ p. one_if (has_key p)) (parse_all packets)))
        × ((k : FiveTuple)
            → counted (process_packets s engine packets).1.analyzer.connection_tracker (some k)
              ≡ counted engine.analyzer.connection_tracker (some k)
                + total (λ p. one_if (create_five_tuple p == some k)) (parse_all packets)
                + total (λ p. one_if (recounted k p)) (parse_all packets))
  unfolding process_packets analyze_gathered with_statistics
  process_packets_counts engine packets v =
      let all = gather-GatheredAll packets (nothing_yet s engine) v in
      let gathered = (gather s packets (nothing_yet s engine)).1 in
      let before : PacketAnalyzer = record engine.analyzer {
        connection_tracker = gathered.tracker;
      } in
      let (returned, after) = analyze-core gathered.parsed_packets before all.all_valid in
      let parsed : gathered.parsed_packets ≡ parse_all packets = all.all_parsed in
      let r : Processing s.Packet = record {
        parsed_packets = gathered.parsed_packets;
        protocol_statistics = (analyze gathered.parsed_packets before).1.protocol_count;
        decisions = gathered.decisions;
        forwarded_packets = gathered.forwarded_packets;
      } in
      rw (all.all_goes_on, returned)
        (
          (r, refl, parsed, all.all_decisions ∙ omega arith),
          λ k.
              let analyzed =
                after_all-total (λ c. counted c.connection_tracker (some k))
                  (λ p. one_if (recounted k p)) (λ p c. counted-touched k p c.connection_tracker)
                  gathered.parsed_packets (core before) in
              ap (λ (c : Core). counted c.connection_tracker (some k)) after
              ∙ analyzed
              ∙ rw (parsed, all.all_counts k) refl,
        )
