-- ===== src/Tracker/Runs.antt =====
-- Any sequence of calls of `get_or_create_flow`, on the flows of any packets.
use dpi_engine_python.Prelude.{
  ℕ, ◌+◌, ◌≡◌, refl, ap, ◌∙◌, inl, inr, true, false, Option, none, some, List, [], ◌∷◌, arith,
  Bool-cases, if◌then◌else◌,
}
use dpi_engine_python.Prelude.Eq.{◌==◌, option_eq, option_beq_iff, contains}
use dpi_engine_python.Dict.{get}
use dpi_engine_python.Rules.{RuleManager}
use dpi_engine_python.Text.{Str}
use dpi_engine_python.Types.{unknown, app_eq, FiveTuple, five_tuple_eq, Flow}
use dpi_engine_python.Tracker.{
  ConnectionTracker, apply_blocking_rules, update_flow, flow_or_new, get_or_create_flow,
}
use dpi_engine_python.Tracker.Blocking.{
  after_packet, flow_or_new_found, get-get_or_create_flow, rules-get_or_create_flow, verdict,
  IsValid, get_or_create_flow-IsValid,
}

-- One call: the five-tuple and the SNI of a packet.
abbrev pub Call : Type 0
Call = Option FiveTuple × Option Str

unfoldable pub run : ConnectionTracker → List Call → ConnectionTracker
run t [] = t
run t ((key, sni) ∷ calls) = run (get_or_create_flow t key sni).1 calls

pub rules-run : (t : ConnectionTracker) (calls : List Call) → (run t calls).rules ≡ t.rules
unfolding run
rules-run t [] = refl
rules-run t ((key, sni) ∷ calls) =
    rules-run (get_or_create_flow t key sni).1 calls ∙ rules-get_or_create_flow t key sni

pub run-IsValid : (t : ConnectionTracker) (calls : List Call) → IsValid t → IsValid (run t calls)
unfolding run
run-IsValid t [] v = v
run-IsValid t ((key, sni) ∷ calls) v =
    run-IsValid (get_or_create_flow t key sni).1 calls (get_or_create_flow-IsValid t key sni v)

pub empty-IsValid : (m : RuleManager) → IsValid (record { flows = []; rules = m })
empty-IsValid m = record { distinct = tt; settled = λ key flow e. unfold get in cc }

-- From an empty table, after any packets, a flow with addresses is blocked exactly when the rules
-- say so of its source, application and name, provided that UNKNOWN itself is not blocked.
pub run_blocked_exactly :
    (m : RuleManager) (calls : List Call) (key : FiveTuple) (flow : Flow)
    → contains unknown m.blocked_apps ≡ false
    → get (run (record { flows = []; rules = m }) calls).flows (some key) ≡ some flow
    → flow.blocked ≡ verdict m key flow
run_blocked_exactly m calls key flow open_app found =
    let start : ConnectionTracker = record { flows = []; rules = m } in
    let s =
      rw (rules-run start calls) at
        ((run-IsValid start calls (empty-IsValid m)).settled (some key) flow found) in
    ground (arith, s.enforced key refl, s.justified key refl open_app)

-- A property of one flow that a packet of it keeps is kept by every sequence of calls.
module _ (m : RuleManager) (P : Flow → Type 0)
    (step : (sni : Option Str) (flow : Flow) → P flow → P (after_packet m sni flow)) where
  abbrev Holds : ConnectionTracker → Option FiveTuple → Type 0
  Holds t k = (flow : Flow) × (get t.flows k ≡ some flow) × P flow

  Holds-call :
      (t : ConnectionTracker) (key k : Option FiveTuple) (sni : Option Str)
      → t.rules ≡ m
      → Holds t k
      → Holds (get_or_create_flow t key sni).1 k
  Holds-call t key k sni r (flow, found, p) = elim (Bool-cases (key == k)) [
    | inr other ↦ (flow, rw (get-get_or_create_flow t key sni k, other) found, p)
    | inl same ↦
        let e = (option_beq_iff key k).0 same in
        (
          after_packet m sni flow,
          rw (get-get_or_create_flow t key sni k, same)
              (rw (flow_or_new_found t key sni (rw (← e) at found), r) refl),
          step sni flow p,
        )
  ]

  pub Holds-run :
      (t : ConnectionTracker) (calls : List Call) (k : Option FiveTuple)
      → t.rules ≡ m
      → Holds t k
      → Holds (run t calls) k
  unfolding run
  Holds-run t [] k r h = h
  Holds-run t ((key, sni) ∷ calls) k r h =
      Holds-run (get_or_create_flow t key sni).1 calls k (rules-get_or_create_flow t key sni ∙ r)
        (Holds-call t key k sni r h)

after_packet-blocked :
    (m : RuleManager) (sni : Option Str) (flow : Flow)
    → flow.blocked ≡ true
    → (after_packet m sni flow).blocked ≡ true
unfolding after_packet update_flow apply_blocking_rules
after_packet-blocked m sni flow h = ground arith

-- A blocking decision is never undone: once a flow is blocked, it is blocked after any packets.
pub run_stays_blocked :
    (t : ConnectionTracker) (calls : List Call) (key : Option FiveTuple) (flow : Flow)
    → get t.flows key ≡ some flow
    → flow.blocked ≡ true
    → (later : Flow) × (get (run t calls).flows key ≡ some later) × (later.blocked ≡ true)
run_stays_blocked t calls key flow found h =
    Holds-run t.rules (λ f. f.blocked ≡ true) (after_packet-blocked t.rules) t calls key refl
      (flow, found, h)

after_packet-sni :
    (m : RuleManager) (s : Str) (sni : Option Str) (flow : Flow)
    → flow.sni ≡ some s
    → (after_packet m sni flow).sni ≡ some s
unfolding after_packet update_flow apply_blocking_rules
after_packet-sni m s sni flow h = ground arith

-- The first name of a flow is its name for good, whatever SNI comes later.
pub run_keeps_sni :
    (t : ConnectionTracker) (calls : List Call) (key : Option FiveTuple) (flow : Flow) (s : Str)
    → get t.flows key ≡ some flow
    → flow.sni ≡ some s
    → (later : Flow) × (get (run t calls).flows key ≡ some later) × (later.sni ≡ some s)
run_keeps_sni t calls key flow s found h =
    Holds-run t.rules (λ f. f.sni ≡ some s) (after_packet-sni t.rules s) t calls key refl
      (flow, found, h)

abbrev packets_of : Option Flow → ℕ
packets_of none = 0
packets_of (some flow) = flow.packet_count

-- The packets counted for a five-tuple; none if it has no flow.
abbrev pub counted : ConnectionTracker → Option FiveTuple → ℕ
counted t key = packets_of (get t.flows key)

abbrev pub occurrences : Option FiveTuple → List Call → ℕ
occurrences key [] = 0
occurrences key (call ∷ calls) = (if call.0 == key then 1 else 0) + occurrences key calls

after_packet-packet_count :
    (m : RuleManager) (sni : Option Str) (flow : Flow)
    → (after_packet m sni flow).packet_count ≡ flow.packet_count + 1
unfolding after_packet update_flow apply_blocking_rules
after_packet-packet_count m sni flow = ground arith

packets-flow_or_new :
    (t : ConnectionTracker) (key : Option FiveTuple) (sni : Option Str)
    → (flow_or_new t key sni).packet_count ≡ counted t key
unfolding flow_or_new
packets-flow_or_new t key sni = ground arith

pub counted-call :
    (t : ConnectionTracker) (key k : Option FiveTuple) (sni : Option Str)
    → counted (get_or_create_flow t key sni).1 k ≡ counted t k + (if key == k then 1 else 0)
counted-call t key k sni = elim (Bool-cases (key == k)) [
  | inr other ↦ rw (get-get_or_create_flow t key sni k, other) (omega arith)
  | inl same ↦
      let e = (option_beq_iff key k).0 same in
      let grows = after_packet-packet_count t.rules sni (flow_or_new t key sni) in
      rw (get-get_or_create_flow t key sni k, same)
        (grows ∙ ap (λ n. n + 1) (rw e (packets-flow_or_new t k sni)))
]

-- The count of a flow rises by the number of calls with its five-tuple, and by no other call.
pub counted-run :
    (t : ConnectionTracker) (calls : List Call) (key : Option FiveTuple)
    → counted (run t calls) key ≡ counted t key + occurrences key calls
unfolding run
counted-run t [] key = omega arith
counted-run t ((k, sni) ∷ calls) key =
    omega (arith, counted-run (get_or_create_flow t k sni).1 calls key, counted-call t k key sni)
