-- ===== src/Engine.antt =====
-- src/dpi_engine.py: the first engine, one packet after the other, then the analyzer on all.
pub mod Results
pub mod Decisions
mod Tests
use dpi_engine_python.Analyzer.{PacketAnalyzer, packet_analyzer}
use dpi_engine_python.Analyzer.Loop.{analyze}
use dpi_engine_python.Dict.{Dict}
use dpi_engine_python.Packet.{Scapy, ParsedPacket, parse}
use dpi_engine_python.Prelude.{ℕ, Option, none, some, List, [], ◌∷◌, ◌++◌}
use dpi_engine_python.Prelude.Result.{Error, Result, ok, err}
use dpi_engine_python.Processor.{Decision, forward, drop, decide_for, payload_of}
use dpi_engine_python.Sni
use dpi_engine_python.Text.{Str}
use dpi_engine_python.Tracker.{
  ConnectionTracker, connection_tracker, get_or_create_flow, create_five_tuple,
}
use dpi_engine_python.Types.{FiveTuple, Flow}

-- The engine and its analyzer share one tracker: it is the analyzer's.
pub record DpiEngine : Type 0 where
  pub analyzer : PacketAnalyzer

abbrev pub dpi_engine : DpiEngine
dpi_engine = record { analyzer = packet_analyzer (connection_tracker none none none) }

-- What the loop over the packets builds.
pub record Gathered (P : Type 0) : Type 0 where
  pub tracker : ConnectionTracker
  pub parsed_packets : List ParsedPacket
  pub decisions : List Decision
  pub forwarded_packets : List P

-- What the loop goes on with: an exception leaves it.
abbrev pub Turn : Type 0 → Type 0
Turn P = Option Error × Gathered P

module _ {P : Type 0} where
  abbrev pub forwarded_if : Decision → P → List P → List P
  forwarded_if forward packet packets = packets ++ packet ∷ []
  forwarded_if drop packet packets = packets

  -- From the flow on.
  unfoldable pub decide : P → Result Flow → Gathered P → Turn P
  decide packet (err e) g = (some e, g)
  decide packet (ok flow) g =
      let decision = decide_for flow in
      (
        none,
        record g {
          decisions = g.decisions ++ decision ∷ [];
          forwarded_packets = forwarded_if decision packet g.forwarded_packets;
        },
      )

  -- From the SNI on.
  unfoldable pub with_sni : P → FiveTuple → Result (Option Str) → Gathered P → Turn P
  with_sni packet five_tuple (err e) g = (some e, g)
  with_sni packet five_tuple (ok sni) g =
      let (flow, tracker) = get_or_create_flow g.tracker (some five_tuple) sni in
      decide packet flow (record g { tracker = tracker })

  -- From the five-tuple on.
  unfoldable pub with_key : P → ParsedPacket → Option FiveTuple → Gathered P → Turn P
  with_key packet parsed none g = (none, g)
  with_key packet parsed (some five_tuple) g =
      with_sni packet five_tuple (Sni.extract (payload_of parsed)) g

  -- The body of the loop.
  unfoldable pub handle : P → ParsedPacket → Gathered P → Turn P
  handle packet parsed g =
      with_key packet parsed (create_five_tuple parsed)
        (record g { parsed_packets = g.parsed_packets ++ parsed ∷ [] })

  abbrev pub proceed : Option Error → Gathered P → Turn P → Turn P
  proceed none next rest = rest
  proceed (some e) next rest = (some e, next)

-- What `process_packets` returns.
pub record Processing (P : Type 0) : Type 0 where
  pub parsed_packets : List ParsedPacket
  pub protocol_statistics : Dict Str ℕ
  pub decisions : List Decision
  pub forwarded_packets : List P

module _ {P : Type 0} where
  unfoldable pub with_statistics : Gathered P → Result (Dict Str ℕ) → Result (Processing P)
  with_statistics g (err e) = err e
  with_statistics g (ok statistics) = ok (record {
    parsed_packets = g.parsed_packets;
    protocol_statistics = statistics;
    decisions = g.decisions;
    forwarded_packets = g.forwarded_packets;
  })

  -- The analyzer runs after the loop, on the tracker that the loop left.
  unfoldable pub analyze_gathered : DpiEngine → Turn P → Result (Processing P) × DpiEngine
  analyze_gathered engine (some e, g) =
      (err e, record { analyzer = record engine.analyzer { connection_tracker = g.tracker } })
  analyze_gathered engine (none, g) =
      let before = record engine.analyzer { connection_tracker = g.tracker } in
      let (statistics, analyzer) = analyze g.parsed_packets before in
      (with_statistics g statistics, record { analyzer = analyzer })

module _ (s : Scapy) where
  unfoldable pub gather : List s.Packet → Gathered s.Packet → Turn s.Packet
  gather [] g = (none, g)
  gather (packet ∷ packets) g =
      let (raised, next) = handle packet (parse s packet) g in
      proceed raised next (gather packets next)

  abbrev pub nothing_yet : DpiEngine → Gathered s.Packet
  nothing_yet engine = record {
    tracker = engine.analyzer.connection_tracker;
    parsed_packets = [];
    decisions = [];
    forwarded_packets = [];
  }

  unfoldable pub process_packets :
      DpiEngine → List s.Packet → Result (Processing s.Packet) × DpiEngine
  process_packets engine packets = analyze_gathered engine (gather packets (nothing_yet engine))
