-- ===== src/Main/Events.antt =====
-- The events and the first filtered capture that `main` makes of the same packets.
use dpi_engine_python.Emitter.{build_event, emit_all}
use dpi_engine_python.Engine.Results.{parse_all}
use dpi_engine_python.Main.Phases.{decision_of, decisions_of, events_of, v1_packets}
use dpi_engine_python.Packet.{Scapy, parse}
use dpi_engine_python.Prelude.{
  suc, ◌≡◌, refl, ap, inl, inr, not, List, [], ◌∷◌, keep, length, Bool-cases,
}
use dpi_engine_python.Prelude.Eq.{option_eq}
use dpi_engine_python.Sinks.{is_drop}
use dpi_engine_python.Tracker.{ConnectionTracker, is_packet_blocked}
use dpi_engine_python.Types.{five_tuple_eq}

-- One event for each packet, and as many that say FORWARD as there are packets in the filtered
-- capture.
pub length-events_of :
    (s : Scapy) (t : ConnectionTracker) (packets : List s.Packet)
    → (length (events_of t (parse_all s packets)) ≡ length packets)
      × (length (keep (λ e. not (is_drop e.decision)) (events_of t (parse_all s packets)))
          ≡ length (v1_packets s t packets))
unfolding events_of decisions_of v1_packets emit_all decision_of build_event
length-events_of s t [] = (refl, refl)
length-events_of s t (packet ∷ packets) =
    let (events, kept) = length-events_of s t packets in
    (
      ap suc events,
      elim (Bool-cases (is_packet_blocked t (parse s packet))) [
        | inl blocked ↦ rw blocked kept
        | inr open_packet ↦ rw open_packet (ap suc kept)
      ],
    )
