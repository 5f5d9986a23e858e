-- ===== src/Tracker.antt =====
-- src/connection_tracker.py: the table of flows and the blocking of a flow. A flow object lives in
-- the table under its five-tuple, so a change of the object is a change of the entry.
pub mod Blocking
pub mod Runs
mod Tests
use dpi_engine_python.Prelude.{
  ℕ, ◌+◌, Bool, true, false, ◌&&◌, ◌||◌, Option, none, some, List, [], ◌∷◌, length, if◌then◌else◌,
}
use dpi_engine_python.Prelude.Eq.{option_eq}
use dpi_engine_python.Prelude.Result.{Result, ok, err, attribute_error}
use dpi_engine_python.Dict.{Dict, get, put}
use dpi_engine_python.Packet.{ParsedPacket}
use dpi_engine_python.Rules.{
  RuleManager, rule_manager, classify_domain, is_ip_blocked, is_app_blocked, is_domain_blocked,
}
use dpi_engine_python.Text.{Str, truthy}
use dpi_engine_python.Types.{AppType, FiveTuple, five_tuple_eq, Flow, new_flow}

pub record ConnectionTracker : Type 0 where
  pub flows : Dict (Option FiveTuple) Flow
  pub rules : RuleManager

abbrev pub connection_tracker :
    Option (List Str) → Option (List AppType) → Option (List Str) → ConnectionTracker
connection_tracker ips apps domains = record { flows = []; rules = rule_manager ips apps domains }

abbrev pub is_none {ℓ} : {A : Type ℓ} → Option A → Bool
is_none none = true
is_none (some _) = false

-- The three tests of `apply_blocking_rules`. `flow.five_tuple.src_ip` raises where there is no
-- five-tuple.
unfoldable pub check_rules : RuleManager → Option FiveTuple → Flow → Result Flow
check_rules m none flow = err attribute_error
check_rules m (some key) flow =
    if is_ip_blocked m (some key.src_ip)
    then ok (record flow { blocked = true })
    else if is_app_blocked m (some flow.app_type)
    then ok (record flow { blocked = true })
    else if is_domain_blocked m flow.sni
    then ok (record flow { blocked = true })
    else ok flow

unfoldable pub apply_blocking_rules : RuleManager → Flow → Result Flow
unfolding check_rules
apply_blocking_rules m flow = if flow.blocked then ok flow else check_rules m flow.five_tuple flow

-- What `get_or_create_flow` writes into the flow before it applies the rules.
unfoldable pub update_flow : RuleManager → Option Str → Flow → Flow
update_flow m sni flow =
    let counted = record flow { packet_count = flow.packet_count + 1 } in
    let named = if truthy sni && is_none flow.sni then record counted { sni = sni } else counted in
    if truthy named.sni then record named { app_type = classify_domain m named.sni } else named

-- The flow in the table, or the new one.
unfoldable pub flow_or_new : ConnectionTracker → Option FiveTuple → Option Str → Flow
flow_or_new t key sni = elim (get t.flows key) [ none ↦ new_flow key sni | some flow ↦ flow ]

-- What is in the table afterwards, also where the rules raised.
abbrev pub left_behind : Flow → Result Flow → Flow
left_behind flow (ok blocked) = blocked
left_behind flow (err _) = flow

unfoldable pub get_or_create_flow :
    ConnectionTracker → Option FiveTuple → Option Str → Result Flow × ConnectionTracker
get_or_create_flow t key sni =
    let flow = update_flow t.rules sni (flow_or_new t key sni) in
    let result = apply_blocking_rules t.rules flow in
    (result, record t { flows = put t.flows key (left_behind flow result) })

abbrev five_tuple_of : Str → Str → ℕ → ℕ → Str → FiveTuple
five_tuple_of src dst sport dport protocol = record {
  src_ip = src;
  dst_ip = dst;
  src_port = sport;
  dst_port = dport;
  protocol = protocol;
}

abbrev pub or_zero : Option ℕ → ℕ
or_zero none = 0
or_zero (some n) = n

unfoldable pub create_from : Option Str → Option Str → Option Str → ℕ → ℕ → Option FiveTuple
create_from (some (a ∷ src)) (some (b ∷ dst)) (some (c ∷ protocol)) sport dport =
    some (five_tuple_of (a ∷ src) (b ∷ dst) sport dport (c ∷ protocol))
create_from _ _ _ _ _ = none

unfoldable pub create_five_tuple : ParsedPacket → Option FiveTuple
unfolding create_from
create_five_tuple p =
    create_from p.src_ip p.dst_ip p.protocol (or_zero p.src_port) (or_zero p.dst_port)

unfoldable pub get_flow : ConnectionTracker → Option FiveTuple → Option Flow
get_flow t key = get t.flows key

unfoldable pub is_packet_blocked : ConnectionTracker → ParsedPacket → Bool
unfolding get_flow create_five_tuple
is_packet_blocked t p = elim (get_flow t (create_five_tuple p)) [
  | none ↦ false
  | some flow ↦ flow.blocked
]

unfoldable pub get_flow_count : ConnectionTracker → ℕ
get_flow_count t = length t.flows
