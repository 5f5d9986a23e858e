-- ===== src/Processor/Raising.antt =====
-- The invariant of the processor's table; results for packets that have a five-tuple, and the
-- exception for those that have none.
use dpi_engine_python.Dict.{get}
use dpi_engine_python.Http
use dpi_engine_python.Sni
use dpi_engine_python.Packet.{ParsedPacket}
use dpi_engine_python.Prelude.{
  ◌≡◌, refl, ◌∙◌, inl, inr, false, ◌||◌, Option, none, some, List, arith, Bool-cases, Option-cases,
  if◌then◌else◌,
}
use dpi_engine_python.Prelude.Eq.{◌==◌, option_eq, option_beq_iff}
use dpi_engine_python.Prelude.Result.{ok, err, attribute_error}
use dpi_engine_python.Rules.{RuleManager}
use dpi_engine_python.Text.{Str, truthy}
use dpi_engine_python.Types.{AppType, FiveTuple, five_tuple_eq, Flow}
use dpi_engine_python.Tracker.{apply_blocking_rules, update_flow, create_five_tuple}
use dpi_engine_python.Processor.{
  forward, drop, DpiProcessor, dpi_processor, Processed, payload_of, process_parsed,
}
use dpi_engine_python.Processor.Effect.{
  or_new, rules_effect, effect, process_parsed-result, get-process_parsed,
}
use dpi_engine_python.Processor.Decisions.{names_in-eq, name_verdict, standing, effect-Judged}

-- Every flow of the table has the five-tuple that it stands under, and the flow of packets without
-- one, if there is one, is not blocked.
pub record IsKeyed (p : DpiProcessor) : Type 0 where
  pub keyed : (k : Option FiveTuple) (f : Flow) → get p.tracker.flows k ≡ some f → f.five_tuple ≡ k
  pub open_none : (f : Flow) → get p.tracker.flows none ≡ some f → f.blocked ≡ false

pub dpi_processor-IsKeyed :
    (ips : Option (List Str)) (apps : Option (List AppType)) (domains : Option (List Str))
    → IsKeyed (dpi_processor ips apps domains)
unfolding get
dpi_processor-IsKeyed ips apps domains = record {
  keyed = λ k f e. absurd cc;
  open_none = λ f e. absurd cc;
}

or_new-keyed :
    (p : DpiProcessor) (key : Option FiveTuple)
    → IsKeyed p
    → (or_new key (get p.tracker.flows key)).five_tuple ≡ key
or_new-keyed p key v = elim (Option-cases (get p.tracker.flows key)) [
  | inl e ↦ rw e
  | inr (f, e) ↦ rw e (v.keyed key f e)
]

or_new-open :
    (p : DpiProcessor) → IsKeyed p → (or_new none (get p.tracker.flows none)).blocked ≡ false
or_new-open p v = elim (Option-cases (get p.tracker.flows none)) [
  | inl e ↦ rw e
  | inr (f, e) ↦ rw e (v.open_none f e)
]

module _ (m : RuleManager) (flow : Flow) where
  update_flow-five_tuple : (update_flow m none flow).five_tuple ≡ flow.five_tuple
  unfolding update_flow
  update_flow-five_tuple = ground arith

  update_flow-blocked : (update_flow m none flow).blocked ≡ flow.blocked
  unfolding update_flow
  update_flow-blocked = ground arith

  -- Without a five-tuple the rules raise at `flow.five_tuple.src_ip`.
  apply_blocking_rules_raises :
      flow.five_tuple ≡ none
      → flow.blocked ≡ false
      → apply_blocking_rules m flow ≡ err attribute_error
  unfolding apply_blocking_rules
  apply_blocking_rules_raises k b = ground arith

module _ {P : Type 0} (m : RuleManager) (parsed : ParsedPacket) (raw : P) where
  effect_unkeyed :
      (found : Option Flow)
      → create_five_tuple parsed ≡ none
      → (or_new none found).five_tuple ≡ none
      → (or_new none found).blocked ≡ false
      → effect m parsed raw found ≡ (err attribute_error, update_flow m none (or_new none found))
  unfolding effect rules_effect
  effect_unkeyed found key k b =
      let flow = or_new none found in
      let raises =
        apply_blocking_rules_raises m (update_flow m none flow) (update_flow-five_tuple m flow ∙ k)
          (update_flow-blocked m flow ∙ b) in
      rw (key, raises)

module _ {P : Type 0} (p : DpiProcessor) (parsed : ParsedPacket) (raw : P) (v : IsKeyed p) where
  effect_keyed :
      (key : Option FiveTuple)
      → create_five_tuple parsed ≡ key
      → ((effect p.tracker.rules parsed raw (get p.tracker.flows key)).1.five_tuple ≡ key)
        × (key ≡ none
            → (effect p.tracker.rules parsed raw (get p.tracker.flows key)).1.blocked ≡ false)
  effect_keyed (some key) h =
      let found = get p.tracker.flows (some key) in
      let keyed : (or_new (create_five_tuple parsed) found).five_tuple ≡ some key =
        rw h (or_new-keyed p (some key) v) in
      ((effect-Judged p.tracker.rules parsed raw key found keyed).stays_keyed, λ e. cc)
  effect_keyed none h =
      let flow = or_new none (get p.tracker.flows none) in
      let e =
        effect_unkeyed p.tracker.rules parsed raw (get p.tracker.flows none) h
          (or_new-keyed p none v) (or_new-open p v) in
      (
        rw e (update_flow-five_tuple p.tracker.rules flow ∙ or_new-keyed p none v),
        λ _. rw e (update_flow-blocked p.tracker.rules flow ∙ or_new-open p v),
      )

  pub process_parsed_decides :
      (key : FiveTuple)
      → create_five_tuple parsed ≡ some key
      → (r : Processed P) × ((process_parsed p parsed raw).0 ≡ ok r)
        × (Sni.extract (payload_of parsed) ≡ ok r.sni)
        × (r.http_host ≡ (if truthy r.sni then none else Http.extract (payload_of parsed)))
        × (r.decision ≡ (
            if standing p.tracker.rules key (
                update_flow p.tracker.rules none
                  (or_new (some key) (get p.tracker.flows (some key))))
              || name_verdict p.tracker.rules r.sni r.http_host
            then drop
            else forward))
  process_parsed_decides key h =
      let m = p.tracker.rules in
      let found = get p.tracker.flows (some key) in
      let keyed : (or_new (create_five_tuple parsed) found).five_tuple ≡ some key =
        rw h (or_new-keyed p (some key) v) in
      let j = effect-Judged m parsed raw key found keyed in
      let returned = process_parsed-result p parsed raw ∙ rw h j.returned in
      let (sni, host) = names_in-eq (payload_of parsed) j.result.sni j.result.http_host j.names in
      (j.result, returned, sni, host, j.decided ∙ rw (j.blocked, h))

  -- In a table where each flow stands under its own five-tuple and the flow without one is open, a
  -- packet without a five-tuple raises AttributeError, and leaves the flow without a five-tuple counted
  -- once more.
  pub process_parsed_raises :
      create_five_tuple parsed ≡ none
      → ((process_parsed p parsed raw).0 ≡ err attribute_error)
        × (get (process_parsed p parsed raw).1.tracker.flows none
            ≡ some (update_flow p.tracker.rules none (or_new none (get p.tracker.flows none))))
  process_parsed_raises h =
      let found = get p.tracker.flows none in
      let e =
        effect_unkeyed p.tracker.rules parsed raw found h (or_new-keyed p none v)
          (or_new-open p v) in
      (
        process_parsed-result p parsed raw ∙ rw h (rw e),
        get-process_parsed p parsed raw none ∙ rw h (rw e),
      )

  keyed_after :
      (k : Option FiveTuple) (f : Flow)
      → get (process_parsed p parsed raw).1.tracker.flows k ≡ some f
      → (f.five_tuple ≡ k) × (k ≡ none → f.blocked ≡ false)
  keyed_after k f e =
      let here = create_five_tuple parsed in
      let found = rw (get-process_parsed p parsed raw k) at e in
      elim (Bool-cases (here == k)) [
        | inr other ↦
            let old : get p.tracker.flows k ≡ some f = rw other at found in
            (v.keyed k f old, λ none_key. v.open_none f (rw none_key at old))
        | inl same ↦
            let left : some (effect p.tracker.rules parsed raw (get p.tracker.flows here)).1
                ≡ some f =
              rw same at found in
            let (a, b) = effect_keyed here refl in
            let at_k = (option_beq_iff here k).0 same in (ground arith, λ none_key. ground arith)
      ]

  -- Where each flow stands under its own five-tuple and the flow without one is open, this holds
  -- after every packet, also one that raises.
  pub process_parsed-IsKeyed : IsKeyed (process_parsed p parsed raw).1
  process_parsed-IsKeyed = record {
    keyed = λ k f e. (keyed_after k f e).0;
    open_none = λ f e. (keyed_after none f e).1 refl;
  }
