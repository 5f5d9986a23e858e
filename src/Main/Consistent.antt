-- ===== src/Main/Consistent.antt =====
-- The events that `main` makes beside the flows, and beside the summary of the Spark job.
use dpi_engine_python.Analyzer.{packet_analyzer}
use dpi_engine_python.Analyzer.Keys.{IsFull, IsTable, analyze-IsTable}
use dpi_engine_python.Analyzer.Loop.{analyze}
use dpi_engine_python.Dict.{get}
use dpi_engine_python.Emitter.{build_event, emit_all, lookup_key, lookup_flow}
use dpi_engine_python.Emitter.Lookup.{lookup_flow-get, lookup_flow-eq}
use dpi_engine_python.Engine.Results.{parse_all}
use dpi_engine_python.Main.Phases.{decision_of, decisions_of, events_of}
use dpi_engine_python.Packet.{Scapy, ParsedPacket}
use dpi_engine_python.Pipeline.{or_text}
use dpi_engine_python.Prelude.{
  ℕ, ◌+◌, ◌≡◌, ◌≢◌, refl, sym, ap, ◌∙◌, inl, inr, Bool, true, false, Option, none, some, List, [],
  ◌∷◌, All, Option-cases, if◌then◌else◌,
}
use dpi_engine_python.Prelude.Eq.{option_eq}
use dpi_engine_python.Processor.{forward, drop}
use dpi_engine_python.Rules.{rule_manager}
use dpi_engine_python.Sinks.{is_drop, IsConsistent}
use dpi_engine_python.Spark.{Spark, app_summary}
use dpi_engine_python.Spark.Summary.{named_cell, app_summary_adds_up}
use dpi_engine_python.Text.{Str, codes}
use dpi_engine_python.Tracker.{
  ConnectionTracker, connection_tracker, create_from, create_five_tuple, get_flow,
  is_packet_blocked, or_zero,
}
use dpi_engine_python.Tracker.Runs.{empty-IsValid}
use dpi_engine_python.Types.{AppType, FiveTuple, five_tuple_eq, Flow}

blocked-eq :
    (p : ParsedPacket) (flow : Option Flow) (blocked : Bool)
    → elim flow [ none ↦ false | some f ↦ f.blocked ] ≡ blocked
    → (build_event p (if blocked then drop else forward) flow).blocked
      ≡ is_drop (build_event p (if blocked then drop else forward) flow).decision
unfolding build_event
blocked-eq p flow true h = h
blocked-eq p flow false h = h

unfoldable pub blocked_of : Option Flow → Bool
blocked_of flow = elim flow [ none ↦ false | some f ↦ f.blocked ]

pub is_packet_blocked-eq :
    (t : ConnectionTracker) (p : ParsedPacket) (key : Option FiveTuple)
    → create_five_tuple p ≡ key
    → is_packet_blocked t p ≡ blocked_of (get t.flows key)
unfolding is_packet_blocked get_flow blocked_of create_five_tuple
is_packet_blocked-eq t p key h = ap (λ k. blocked_of (get t.flows k)) h

-- A packet without a five-tuple has no full key.
not_full :
    (src dst protocol : Option Str) (sport dport : ℕ)
    → create_from src dst protocol sport dport ≡ none
    → ¬ ((or_text [] src ≢ []) × (or_text [] dst ≢ []) × (or_text [] protocol ≢ []))
unfolding create_from
not_full none dst protocol sport dport h (src_set, dst_set, named) = src_set refl
not_full (some []) dst protocol sport dport h (src_set, dst_set, named) = src_set refl
not_full (some (a ∷ src)) none protocol sport dport h (src_set, dst_set, named) = dst_set refl
not_full (some (a ∷ src)) (some []) protocol sport dport h (src_set, dst_set, named) = dst_set refl
not_full (some (a ∷ src)) (some (b ∷ dst)) none sport dport h (src_set, dst_set, named) = named refl
not_full (some (a ∷ src)) (some (b ∷ dst)) (some []) sport dport h (src_set, dst_set, named) =
    named refl
not_full (some (a ∷ src)) (some (b ∷ dst)) (some (c ∷ protocol)) sport dport h full = absurd cc

no_key-IsFull : (p : ParsedPacket) → create_five_tuple p ≡ none → ¬ IsFull (lookup_key p)
unfolding create_five_tuple
no_key-IsFull p h full =
    not_full p.src_ip p.dst_ip p.protocol (or_zero p.src_port) (or_zero p.dst_port) h
      (full.src, full.dst, full.named)

-- The emitter finds the flow whose blocking decides.
lookup_flow-blocked :
    (t : ConnectionTracker) (p : ParsedPacket)
    → IsTable t
    → blocked_of (lookup_flow t p) ≡ is_packet_blocked t p
lookup_flow-blocked t p h = elim (Option-cases (create_five_tuple p)) [
  | inr (key, keyed) ↦
      ap blocked_of (lookup_flow-eq t p key h.valid keyed)
      ∙ sym (is_packet_blocked-eq t p (some key) keyed)
  | inl no_key ↦
      let missing : get t.flows (some (lookup_key p)) ≡ none = elim (h.full (some (lookup_key p))) [
        | inl missing ↦ missing
        | inr full ↦ absurd (no_key-IsFull p no_key full)
      ] in
      let nothing : get t.flows none ≡ none = elim (h.full none) [
        | inl nothing ↦ nothing
        | inr never ↦ absurd never
      ] in
      ap blocked_of (lookup_flow-get t p h.valid ∙ missing)
      ∙ sym (is_packet_blocked-eq t p none no_key ∙ ap blocked_of nothing)
]

events_of-IsConsistent :
    (t : ConnectionTracker) (packets : List ParsedPacket)
    → IsTable t
    → All IsConsistent (events_of t packets)
unfolding events_of decisions_of emit_all decision_of blocked_of
events_of-IsConsistent t [] h = tt
events_of-IsConsistent t (p ∷ packets) h = (
  blocked-eq p (lookup_flow t p) (is_packet_blocked t p) (lookup_flow-blocked t p h),
  events_of-IsConsistent t packets h,
)

-- The table that the analysis of a capture leaves, which `main` starts with no flow.
abbrev pub analyzed :
    (s : Scapy)
    → Option (List Str)
    → Option (List AppType)
    → Option (List Str)
    → List s.Packet
    → ConnectionTracker
analyzed s ips apps domains packets =
    let a = analyze (parse_all s packets) (packet_analyzer (connection_tracker ips apps domains)) in
    a.1.connection_tracker

pub analyzed-IsTable :
    (s : Scapy) (ips : Option (List Str)) (apps : Option (List AppType))
    (domains : Option (List Str)) (packets : List s.Packet)
    → IsTable (analyzed s ips apps domains packets)
analyzed-IsTable s ips apps domains packets =
    analyze-IsTable (parse_all s packets) (packet_analyzer (connection_tracker ips apps domains))
      (record {
        valid = empty-IsValid (rule_manager ips apps domains);
        full = λ k. unfold get in inl refl;
      })

-- Each event that `main` makes after the analysis says that its flow is blocked exactly where it says
-- DROP, for every packet, with a five-tuple or without.
pub analyzed-IsConsistent :
    (s : Scapy) (ips : Option (List Str)) (apps : Option (List AppType))
    (domains : Option (List Str)) (packets : List s.Packet)
    → All IsConsistent (events_of (analyzed s ips apps domains packets) (parse_all s packets))
analyzed-IsConsistent s ips apps domains packets =
    events_of-IsConsistent (analyzed s ips apps domains packets) (parse_all s packets)
      (analyzed-IsTable s ips apps domains packets)

-- In the Spark summary of the events that `main` makes, the packets of an application are those that
-- were blocked and those that were forwarded.
pub analyzed-adds_up :
    (spark : Spark) (s : Scapy) (ips : Option (List Str)) (apps : Option (List AppType))
    (domains : Option (List Str)) (packets : List s.Packet) (value : Str)
    → (let rows = events_of (analyzed s ips apps domains packets) (parse_all s packets) in
        (total blocked forwarded : ℕ) × (named_cell spark app_summary
            (codes "total_packets")
            rows
            value
          ≡ some total)
        × (named_cell spark app_summary (codes "blocked_packets") rows value ≡ some blocked)
        × (named_cell spark app_summary (codes "forwarded_packets") rows value ≡ some forwarded)
        × (total ≡ blocked + forwarded))
analyzed-adds_up spark s ips apps domains packets value =
    app_summary_adds_up spark
      (events_of (analyzed s ips apps domains packets) (parse_all s packets)) value
      (analyzed-IsConsistent s ips apps domains packets)
