-- ===== src/Tracker/Blocking.antt =====
-- What one call of `get_or_create_flow` leaves in the table, and the invariant of the flows.
use dpi_engine_python.Prelude.{
  ◌≡◌, refl, inl, inr, Bool, true, false, ◌||◌, Option, none, some, [], ◌∷◌, arith, Bool-cases,
  Option-cases, if◌then◌else◌, subst,
}
use dpi_engine_python.Prelude.Eq.{◌==◌, option_eq, option_beq_iff, contains}
use dpi_engine_python.Dict.{get, get-put, IsDict, put-IsDict}
use dpi_engine_python.Prelude.Result.{ok}
use dpi_engine_python.Rules.{
  RuleManager, classify_domain, is_ip_blocked, is_app_blocked, is_domain_blocked,
}
use dpi_engine_python.Text.{Str}
use dpi_engine_python.Types.{unknown, app_eq, FiveTuple, five_tuple_eq, Flow, new_flow}
use dpi_engine_python.Tracker.{
  ConnectionTracker, apply_blocking_rules, update_flow, flow_or_new, left_behind,
  get_or_create_flow,
}

-- The flow after a packet of it: updated, then blocked if the rules say so.
unfoldable pub after_packet : RuleManager → Option Str → Flow → Flow
after_packet m sni flow =
    let updated = update_flow m sni flow in left_behind updated (apply_blocking_rules m updated)

-- A call reads and writes the flow of its five-tuple, and no other.
pub get-get_or_create_flow :
    (t : ConnectionTracker) (key : Option FiveTuple) (sni : Option Str) (k : Option FiveTuple)
    → get (get_or_create_flow t key sni).1.flows k ≡ (
        if key == k then some (after_packet t.rules sni (flow_or_new t key sni)) else get t.flows k)
unfolding get_or_create_flow after_packet
get-get_or_create_flow t key sni k = get-put t.flows key k _

pub rules-get_or_create_flow :
    (t : ConnectionTracker) (key : Option FiveTuple) (sni : Option Str)
    → (get_or_create_flow t key sni).1.rules ≡ t.rules
unfolding get_or_create_flow
rules-get_or_create_flow t key sni = refl

-- What the rules say of a flow as it stands: of its source address, application and name.
abbrev pub verdict : RuleManager → FiveTuple → Flow → Bool
verdict m key flow =
    is_ip_blocked m (some key.src_ip)
    || is_app_blocked m (some flow.app_type)
    || is_domain_blocked m flow.sni

-- A flow stands under its own five-tuple with the application of its name, and is blocked if the
-- rules say so; the converse holds if the rules do not block UNKNOWN.
pub record IsSettled (m : RuleManager) (key : Option FiveTuple) (flow : Flow) : Type 0 where
  pub keyed : flow.five_tuple ≡ key
  pub classified : flow.app_type ≡ classify_domain m flow.sni
  pub enforced : (k : FiveTuple) → key ≡ some k → verdict m k flow ≡ true → flow.blocked ≡ true
  pub justified :
      (k : FiveTuple)
      → key ≡ some k
      → contains unknown m.blocked_apps ≡ false
      → flow.blocked ≡ true
      → verdict m k flow ≡ true

-- The same without the demand that the flow is blocked already.
record IsNamed (m : RuleManager) (key : Option FiveTuple) (flow : Flow) : Type 0 where
  keyed : flow.five_tuple ≡ key
  classified : flow.app_type ≡ classify_domain m flow.sni
  justified :
      (k : FiveTuple)
      → key ≡ some k
      → contains unknown m.blocked_apps ≡ false
      → flow.blocked ≡ true
      → verdict m k flow ≡ true

new_flow-IsNamed :
    (m : RuleManager) (key : Option FiveTuple) (sni : Option Str)
    → IsNamed m key (update_flow m sni (new_flow key sni))
unfolding update_flow classify_domain
new_flow-IsNamed m key none = record { keyed = refl; classified = refl; justified = λ k e h b. cc }
new_flow-IsNamed m key (some []) = record {
  keyed = refl;
  classified = refl;
  justified = λ k e h b. cc;
}
new_flow-IsNamed m key (some (c ∷ cs)) = record {
  keyed = refl;
  classified = refl;
  justified = λ k e h b. cc;
}

update_flow-justified :
    (m : RuleManager) (key : FiveTuple) (sni : Option Str) (flow : Flow)
    → flow.app_type ≡ classify_domain m flow.sni
    → contains unknown m.blocked_apps ≡ false
    → verdict m key flow ≡ true
    → verdict m key (update_flow m sni flow) ≡ true
unfolding update_flow classify_domain is_app_blocked is_domain_blocked
update_flow-justified m key sni flow c h v = ground arith

update_flow-IsNamed :
    (m : RuleManager) (key : Option FiveTuple) (sni : Option Str) (flow : Flow)
    → IsSettled m key flow
    → IsNamed m key (update_flow m sni flow)
update_flow-IsNamed m key sni flow s = record {
  keyed = unfold update_flow in ground (arith, s.keyed);
  classified = unfold update_flow classify_domain in ground (arith, s.classified);
  justified = λ k e h b.
      update_flow-justified m k sni flow s.classified h
        (s.justified k e h (unfold update_flow in ground arith));
}

apply-IsSettled :
    (m : RuleManager) (key : Option FiveTuple) (flow : Flow)
    → IsNamed m key flow
    → IsSettled m key (left_behind flow (apply_blocking_rules m flow))
unfolding apply_blocking_rules
apply-IsSettled m key flow s = record {
  keyed = ground (arith, s.keyed);
  classified = ground (arith, s.classified);
  enforced = λ k e v. ground (arith, s.keyed);
  justified = λ k e h b. ground (arith, s.keyed, s.justified k e h);
}

after_packet-IsSettled :
    (m : RuleManager) (key : Option FiveTuple) (sni : Option Str) (flow : Flow)
    → IsNamed m key (update_flow m sni flow)
    → IsSettled m key (after_packet m sni flow)
unfolding after_packet
after_packet-IsSettled m key sni flow s = apply-IsSettled m key (update_flow m sni flow) s

-- No five-tuple stands twice in the table, and all flows in it are settled.
pub record IsValid (t : ConnectionTracker) : Type 0 where
  pub distinct : IsDict t.flows
  pub settled :
      (key : Option FiveTuple) (flow : Flow)
      → get t.flows key ≡ some flow
      → IsSettled t.rules key flow

pub flow_or_new_found :
    (t : ConnectionTracker) (key : Option FiveTuple) (sni : Option Str) {flow : Flow}
    → get t.flows key ≡ some flow
    → flow_or_new t key sni ≡ flow
unfolding flow_or_new
flow_or_new_found t key sni h = ground arith

pub flow_or_new_absent :
    (t : ConnectionTracker) (key : Option FiveTuple) (sni : Option Str)
    → get t.flows key ≡ none
    → flow_or_new t key sni ≡ new_flow key sni
unfolding flow_or_new
flow_or_new_absent t key sni h = ground arith

flow_or_new-IsNamed :
    (t : ConnectionTracker) (key : Option FiveTuple) (sni : Option Str)
    → IsValid t
    → IsNamed t.rules key (update_flow t.rules sni (flow_or_new t key sni))
flow_or_new-IsNamed t key sni v = elim (Option-cases (get t.flows key)) [
  | inl absent ↦ rw (flow_or_new_absent t key sni absent) (new_flow-IsNamed t.rules key sni)
  | inr (flow, found) ↦
      rw (flow_or_new_found t key sni found)
        (update_flow-IsNamed t.rules key sni flow (v.settled key flow found))
]

IsSettled-after :
    (t : ConnectionTracker) (key : Option FiveTuple) (sni : Option Str) (k : Option FiveTuple)
    (flow : Flow)
    → IsValid t
    → (if key == k then some (after_packet t.rules sni (flow_or_new t key sni)) else get t.flows k)
      ≡ some flow
    → IsSettled t.rules k flow
IsSettled-after t key sni k flow v e = elim (Bool-cases (key == k)) [
  | inl same ↦
      let here = after_packet-IsSettled t.rules key sni _ (flow_or_new-IsNamed t key sni v) in
      let (kk, ff) : (key ≡ k) × (after_packet t.rules sni (flow_or_new t key sni) ≡ flow) =
        ((option_beq_iff key k).0 same, ground arith) in
      subst (λ x. IsSettled t.rules x flow) kk (subst (IsSettled t.rules key) ff here)
  | inr other ↦ v.settled k flow (rw other at e)
]

-- Every call keeps a valid table valid, also one that raises: no five-tuple stands twice, each flow
-- stands under its own and is classified by its name, and it is blocked if the rules say so and,
-- unless they block UNKNOWN, only then.
pub get_or_create_flow-IsValid :
    (t : ConnectionTracker) (key : Option FiveTuple) (sni : Option Str)
    → IsValid t
    → IsValid (get_or_create_flow t key sni).1
get_or_create_flow-IsValid t key sni v = record {
  distinct = unfold get_or_create_flow in put-IsDict t.flows key _ v.distinct;
  settled = λ k flow e.
      rw (rules-get_or_create_flow t key sni)
        (IsSettled-after t key sni k flow v (rw (get-get_or_create_flow t key sni k) at e));
}

-- The rules raise only on a flow that has no five-tuple and is not blocked.
pub apply_blocking_rules_ok :
    (m : RuleManager) (flow : Flow) (key : FiveTuple)
    → flow.five_tuple ≡ some key
    → (after : Flow) × (apply_blocking_rules m flow ≡ ok after)
      × (after.five_tuple ≡ some key)
      × (after.blocked ≡ (
          flow.blocked
          || (is_ip_blocked m (some key.src_ip)
              || (is_app_blocked m (some flow.app_type) || is_domain_blocked m flow.sni))))
unfolding apply_blocking_rules
apply_blocking_rules_ok m flow key h = (
  record flow {
    blocked =
        flow.blocked
        || (is_ip_blocked m (some key.src_ip)
            || (is_app_blocked m (some flow.app_type) || is_domain_blocked m flow.sni));
  },
  ground arith,
  h,
  refl,
)

-- On a valid table a call with a five-tuple does not raise.
pub get_or_create_flow_ok :
    (t : ConnectionTracker) (key : FiveTuple) (sni : Option Str)
    → IsValid t
    → (flow : Flow) × ((get_or_create_flow t (some key) sni).0 ≡ ok flow)
unfolding get_or_create_flow
get_or_create_flow_ok t key sni v =
    let updated = update_flow t.rules sni (flow_or_new t (some key) sni) in
    let keyed = (flow_or_new-IsNamed t (some key) sni v).keyed in
    let (after, e, _, _) = apply_blocking_rules_ok t.rules updated key keyed in (after, e)
