-- ===== src/Processor/Effect.antt =====
-- The effect of a packet in src/v2/dpi_processor.py on the flow of its five-tuple.
use dpi_engine_python.Dict.{get, put, get-put, get-put_self, get-put_ne}
use dpi_engine_python.Packet.{ParsedPacket}
use dpi_engine_python.Prelude.{
  ◌≡◌, refl, ◌∙◌, inl, inr, Option, none, some, arith, Bool-cases, if◌then◌else◌,
}
use dpi_engine_python.Prelude.Eq.{◌==◌, option_eq, option_beq_iff}
use dpi_engine_python.Prelude.Result.{Result, ok, err}
use dpi_engine_python.Rules.{RuleManager}
use dpi_engine_python.Text.{Str, truthy}
use dpi_engine_python.Types.{FiveTuple, five_tuple_eq, Flow, new_flow}
use dpi_engine_python.Tracker.{
  apply_blocking_rules, update_flow, flow_or_new, get_or_create_flow, create_five_tuple,
  left_behind,
}
use dpi_engine_python.Processor.{
  decide_for, DpiProcessor, Processed, payload_of, names_in, domain_of, named_flow, conclude,
  name_and_decide, resume, process_parsed,
}

-- The flow as it stands, or the new one.
abbrev pub or_new : Option FiveTuple → Option Flow → Flow
or_new key none = new_flow key none
or_new key (some flow) = flow

module _ {P : Type 0} (m : RuleManager) (parsed : ParsedPacket) (raw : P) where
  abbrev key_here : Option FiveTuple
  key_here = create_five_tuple parsed

  unfoldable pub conclude_effect :
      Option Str → Option Str → Flow → Result Flow → Result (Processed P) × Flow
  conclude_effect sni http_host named (err e) = (err e, named)
  conclude_effect sni http_host named (ok flow) = (
    ok (record {
      packet = parsed;
      raw_packet = raw;
      flow = key_here;
      sni = sni;
      http_host = http_host;
      decision = decide_for flow;
    }),
    flow,
  )

  -- The second half of `process`, on the flow alone.
  unfoldable pub name_effect : Flow → Result (Option Str × Option Str) → Result (Processed P) × Flow
  name_effect flow (err e) = (err e, flow)
  name_effect flow (ok (sni, http_host)) =
      let domain = domain_of sni http_host in
      let named = if truthy domain then named_flow m domain flow else flow in
      let result = if truthy domain then apply_blocking_rules m named else ok named in
      conclude_effect sni http_host named result

  unfoldable pub rules_effect : Flow → Result Flow → Result (Processed P) × Flow
  rules_effect updated (err e) = (err e, updated)
  rules_effect updated (ok flow) = name_effect flow (names_in (payload_of parsed))

  -- The result of the packet, and the flow that it leaves, from the flow that it finds.
  unfoldable pub effect : Option Flow → Result (Processed P) × Flow
  effect found =
      let updated = update_flow m none (or_new key_here found) in
      rules_effect updated (apply_blocking_rules m updated)

-- The outcome `o` of code on processor `p` is that of `e` on the flow of `key`: the same result, the
-- flow stands in the table, and no other flow nor the rules are touched.
record Agrees {P : Type 0} (key : Option FiveTuple) (p : DpiProcessor)
    (o : Result (Processed P) × DpiProcessor) (e : Result (Processed P) × Flow) : Type 0 where
  result : o.0 ≡ e.0
  rules : o.1.tracker.rules ≡ p.tracker.rules
  flows :
      (k : Option FiveTuple)
      → get o.1.tracker.flows k ≡ (if key == k then some e.1 else get p.tracker.flows k)

module _ {P : Type 0} (parsed : ParsedPacket) (raw : P) where
  abbrev here : Option FiveTuple
  here = create_five_tuple parsed

  conclude-Agrees :
      (p : DpiProcessor) (sni http_host : Option Str) (named : Flow) (r : Result Flow)
      → Agrees here p
          (conclude parsed raw here p sni http_host named r)
          (conclude_effect p.tracker.rules parsed raw sni http_host named r)
  unfolding conclude conclude_effect
  conclude-Agrees p sni http_host named (err e) = record {
    result = refl;
    rules = refl;
    flows = λ k. get-put p.tracker.flows here k named;
  }
  conclude-Agrees p sni http_host named (ok flow) = record {
    result = refl;
    rules = refl;
    flows = λ k. get-put p.tracker.flows here k flow;
  }

  put_nothing :
      (p : DpiProcessor) (flow : Flow)
      → get p.tracker.flows here ≡ some flow
      → (k : Option FiveTuple)
      → get p.tracker.flows k ≡ (if here == k then some flow else get p.tracker.flows k)
  put_nothing p flow found k = elim (Bool-cases (here == k)) [
    | inr other ↦ rw other
    | inl same ↦ rw same (rw (← (option_beq_iff here k).0 same) found)
  ]

  name_and_decide-Agrees :
      (p : DpiProcessor) (flow : Flow) (names : Result (Option Str × Option Str))
      → get p.tracker.flows here ≡ some flow
      → Agrees here p
          (name_and_decide parsed raw here p flow names)
          (name_effect p.tracker.rules parsed raw flow names)
  unfolding name_and_decide name_effect
  name_and_decide-Agrees p flow (err e) found = record {
    result = refl;
    rules = refl;
    flows = put_nothing p flow found;
  }
  name_and_decide-Agrees p flow (ok (sni, http_host)) found = conclude-Agrees p sni http_host _ _

  resume-Agrees :
      (p : DpiProcessor) (updated : Flow) (r : Result Flow)
      → get p.tracker.flows here ≡ some (left_behind updated r)
      → Agrees here p
          (resume parsed raw here p r)
          (rules_effect p.tracker.rules parsed raw updated r)
  unfolding resume rules_effect
  resume-Agrees p updated (err e) found = record {
    result = refl;
    rules = refl;
    flows = put_nothing p updated found;
  }
  resume-Agrees p updated (ok flow) found = name_and_decide-Agrees p flow _ found

module _ {P : Type 0} (p : DpiProcessor) (parsed : ParsedPacket) (raw : P) where
  abbrev effect_here : Result (Processed P) × Flow
  effect_here = effect p.tracker.rules parsed raw (get p.tracker.flows (create_five_tuple parsed))

  flow_or_new-or_new :
      flow_or_new p.tracker (create_five_tuple parsed) none
      ≡ or_new (create_five_tuple parsed) (get p.tracker.flows (create_five_tuple parsed))
  unfolding flow_or_new
  flow_or_new-or_new = ground arith

  process_parsed-Agrees :
      Agrees (create_five_tuple parsed) p (process_parsed p parsed raw) effect_here
  unfolding process_parsed effect get_or_create_flow
  process_parsed-Agrees =
      let key = create_five_tuple parsed in
      let m = p.tracker.rules in
      let updated = update_flow m none (flow_or_new p.tracker key none) in
      let r = apply_blocking_rules m updated in
      let p1 : DpiProcessor = record p {
        tracker = record p.tracker { flows = put p.tracker.flows key (left_behind updated r) };
      } in
      let base = resume-Agrees parsed raw p1 updated r (get-put_self p.tracker.flows key _) in
      rw (← flow_or_new-or_new) (record {
        result = base.result;
        rules = base.rules;
        flows = λ k. base.flows k ∙ elim (Bool-cases (key == k)) [
          | inl same ↦ rw same
          | inr other ↦ rw other (get-put_ne p.tracker.flows key k _ other)
        ];
      })

  pub process_parsed-result : (process_parsed p parsed raw).0 ≡ effect_here.0
  process_parsed-result = process_parsed-Agrees.result

  pub process_parsed-rules : (process_parsed p parsed raw).1.tracker.rules ≡ p.tracker.rules
  process_parsed-rules = process_parsed-Agrees.rules

  pub get-process_parsed :
      (k : Option FiveTuple)
      → get (process_parsed p parsed raw).1.tracker.flows k
        ≡ (if create_five_tuple parsed == k then some effect_here.1 else get p.tracker.flows k)
  get-process_parsed k = process_parsed-Agrees.flows k
