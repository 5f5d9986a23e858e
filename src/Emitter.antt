-- ===== src/Emitter.antt =====
-- src/data_engineering/emitter.py and events.py: events from the packets and decisions of the engine.
pub mod Lookup
mod Tests
use dpi_engine_python.Dict.{Dict, get, put, values}
use dpi_engine_python.Packet.{ParsedPacket}
use dpi_engine_python.Pipeline.{or_text}
use dpi_engine_python.Prelude.{ℕ, Bool, false, Option, none, some, List, [], ◌∷◌}
use dpi_engine_python.Prelude.Eq.{option_eq}
use dpi_engine_python.Processor.{Decision}
use dpi_engine_python.Text.{Str, codes}
use dpi_engine_python.Tracker.{ConnectionTracker, or_zero}
use dpi_engine_python.Types.{app_name, FiveTuple, five_tuple_eq, Flow}

-- The HTTP fields, which the emitter sets to None, keep their place.
pub record NetworkEvent : Type 0 where
  pub src_ip : Str
  pub dst_ip : Str
  pub src_port : ℕ
  pub dst_port : ℕ
  pub protocol : Str
  pub packet_length : ℕ
  pub sni : Option Str
  pub http_host : Option Str
  pub http_method : Option Str
  pub http_path : Option Str
  pub user_agent : Option Str
  pub application : Str
  pub decision : Decision
  pub blocked : Bool
  pub flow_packet_count : ℕ

-- `{flow.five_tuple: flow for flow in flows}`, into `found`.
unfoldable pub index_flows : List Flow → Dict (Option FiveTuple) Flow → Dict (Option FiveTuple) Flow
index_flows [] found = found
index_flows (flow ∷ flows) found = index_flows flows (put found flow.five_tuple flow)

abbrev pub flow_by_key : ConnectionTracker → Dict (Option FiveTuple) Flow
flow_by_key t = index_flows (values t.flows) []

-- The key that `_lookup_flow` builds; a missing field has the default of its type.
abbrev pub lookup_key : ParsedPacket → FiveTuple
lookup_key p = record {
  src_ip = or_text [] p.src_ip;
  dst_ip = or_text [] p.dst_ip;
  src_port = or_zero p.src_port;
  dst_port = or_zero p.dst_port;
  protocol = or_text [] p.protocol;
}

unfoldable pub lookup_flow : ConnectionTracker → ParsedPacket → Option Flow
lookup_flow t p = get (flow_by_key t) (some (lookup_key p))

unfoldable pub build_event : ParsedPacket → Decision → Option Flow → NetworkEvent
build_event p decision flow = record {
  src_ip = or_text [] p.src_ip;
  dst_ip = or_text [] p.dst_ip;
  src_port = or_zero p.src_port;
  dst_port = or_zero p.dst_port;
  protocol = or_text [] p.protocol;
  packet_length = or_zero p.packet_length;
  sni = elim flow [ none ↦ none | some f ↦ f.sni ];
  http_host = none;
  http_method = none;
  http_path = none;
  user_agent = none;
  application = elim flow [ none ↦ codes "UNKNOWN" | some f ↦ app_name f.app_type ];
  decision = decision;
  blocked = elim flow [ none ↦ false | some f ↦ f.blocked ];
  flow_packet_count = elim flow [ none ↦ 0 | some f ↦ f.packet_count ];
}

-- The loop over `zip(parsed_packets, decisions)`, which ends with the shorter list.
unfoldable pub emit_all : ConnectionTracker → List ParsedPacket → List Decision → List NetworkEvent
emit_all t (p ∷ packets) (decision ∷ decisions) =
    build_event p decision (lookup_flow t p) ∷ emit_all t packets decisions
emit_all t _ _ = []
