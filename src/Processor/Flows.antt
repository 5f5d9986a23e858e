-- ===== src/Processor/Flows.antt =====
-- The results of the packets of one flow, apart from all others.
use dpi_engine_python.Dict.{get}
use dpi_engine_python.Packet.{Scapy, ParsedPacket, parse}
use dpi_engine_python.Prelude.{
  ◌≡◌, refl, sym, ap, ◌∙◌, inl, inr, Bool, true, false, Option, some, List, [], ◌∷◌, ◌++◌, arith,
  keep, Bool-cases, if◌then◌else◌, append_assoc, append-nil,
}
use dpi_engine_python.Prelude.Eq.{◌==◌, option_eq, option_beq_iff}
use dpi_engine_python.Prelude.Result.{Result, ok, err}
use dpi_engine_python.Rules.{RuleManager}
use dpi_engine_python.Text.{Str}
use dpi_engine_python.Types.{FiveTuple, five_tuple_eq, Flow}
use dpi_engine_python.Tracker.{create_five_tuple}
use dpi_engine_python.Processor.{DpiProcessor, Processed, process}
use dpi_engine_python.Processor.Effect.{
  conclude_effect, name_effect, rules_effect, effect, process_parsed-result, process_parsed-rules,
  get-process_parsed,
}
use dpi_engine_python.Worker.Log.{Log, enter, handle_all}

pub keep-append {ℓ} :
    {A : Type ℓ} (p : A → Bool) (xs ys : List A) → keep p (xs ++ ys) ≡ keep p xs ++ keep p ys
keep-append p [] ys = refl
keep-append p (x ∷ xs) ys = ground (arith, keep-append p xs ys)

module _ {P : Type 0} (m : RuleManager) (parsed : ParsedPacket) (raw : P) where
  conclude_effect-flow :
      (sni http_host : Option Str) (named : Flow) (r : Result Flow) {result : Processed P}
      → (conclude_effect m parsed raw sni http_host named r).0 ≡ ok result
      → result.flow ≡ create_five_tuple parsed
  unfolding conclude_effect
  conclude_effect-flow sni http_host named (ok flow) h = ground arith
  conclude_effect-flow sni http_host named (err e) h = cc

  name_effect-flow :
      (flow : Flow) (names : Result (Option Str × Option Str)) {result : Processed P}
      → (name_effect m parsed raw flow names).0 ≡ ok result
      → result.flow ≡ create_five_tuple parsed
  unfolding name_effect
  name_effect-flow flow (ok (sni, http_host)) h = conclude_effect-flow sni http_host _ _ h
  name_effect-flow flow (err e) h = cc

  rules_effect-flow :
      (updated : Flow) (r : Result Flow) {result : Processed P}
      → (rules_effect m parsed raw updated r).0 ≡ ok result
      → result.flow ≡ create_five_tuple parsed
  unfolding rules_effect
  rules_effect-flow updated (ok flow) h = name_effect-flow flow _ h
  rules_effect-flow updated (err e) h = cc

  effect-flow :
      (found : Option Flow) {result : Processed P}
      → (effect m parsed raw found).0 ≡ ok result
      → result.flow ≡ create_five_tuple parsed
  unfolding effect
  effect-flow found h = rules_effect-flow _ _ h

module _ (s : Scapy) where
  abbrev pub key_of : s.Packet → Option FiveTuple
  key_of packet = create_five_tuple (parse s packet)

  abbrev pub packets_of : Option FiveTuple → List s.Packet → List s.Packet
  packets_of k = keep (λ packet. key_of packet == k)

  abbrev pub results_of : Option FiveTuple → List (Processed s.Packet) → List (Processed s.Packet)
  results_of k = keep (λ r. r.flow == k)

  abbrev pub with_result :
      Result (Processed s.Packet) → List (Processed s.Packet) → List (Processed s.Packet)
  with_result (ok r) rest = r ∷ rest
  with_result (err e) rest = rest

  -- The results of the packets of one flow, from the flow as the first of them finds it.
  unfoldable pub flow_results :
      RuleManager → Option Flow → List s.Packet → List (Processed s.Packet)
  flow_results m found [] = []
  flow_results m found (packet ∷ packets) =
      let (r, flow) = effect m (parse s packet) packet found in
      with_result r (flow_results m (some flow) packets)

  abbrev Follows : Option FiveTuple → Log (Processed s.Packet) DpiProcessor → List s.Packet → Type 0
  Follows k log packets =
      results_of k (handle_all (process s) log packets).results
      ≡ results_of k log.results
        ++ flow_results log.state.tracker.rules (get log.state.tracker.flows k)
            (packets_of k packets)

  results_of-enter :
      (k : Option FiveTuple) (r : Result (Processed s.Packet)) (state : DpiProcessor)
      (log : Log (Processed s.Packet) DpiProcessor)
      → results_of k (enter r state log).results
        ≡ results_of k log.results ++ results_of k (with_result r [])
  results_of-enter k (ok r) state log = keep-append (λ x. x.flow == k) log.results (r ∷ [])
  results_of-enter k (err e) state log = sym (append-nil (results_of k log.results))

  enter-state :
      (r : Result (Processed s.Packet)) (state : DpiProcessor)
      (log : Log (Processed s.Packet) DpiProcessor)
      → (enter r state log).state ≡ state
  enter-state (ok r) state log = refl
  enter-state (err e) state log = refl

  no_results :
      (k : Option FiveTuple) (packet : s.Packet) (r : Result (Processed s.Packet))
      → ((result : Processed s.Packet) → r ≡ ok result → result.flow ≡ key_of packet)
      → (key_of packet == k) ≡ false
      → results_of k (with_result r []) ≡ []
  no_results k packet (ok r) h other = rw (h _ refl, other)
  no_results k packet (err e) h other = refl

  one_result :
      (k : Option FiveTuple) (packet : s.Packet) (r : Result (Processed s.Packet))
      (rest : List (Processed s.Packet))
      → ((result : Processed s.Packet) → r ≡ ok result → result.flow ≡ key_of packet)
      → (key_of packet == k) ≡ true
      → results_of k (with_result r []) ++ rest ≡ with_result r rest
  one_result k packet (ok r) rest h same = rw (h _ refl, same)
  one_result k packet (err e) rest h same = refl

  process-result :
      (p : DpiProcessor) (packet : s.Packet)
      → (process s p packet).0
        ≡ (effect p.tracker.rules (parse s packet) packet (get p.tracker.flows (key_of packet))).0
  unfolding process
  process-result p packet = process_parsed-result p (parse s packet) packet

  process-rules :
      (p : DpiProcessor) (packet : s.Packet)
      → (process s p packet).1.tracker.rules ≡ p.tracker.rules
  unfolding process
  process-rules p packet = process_parsed-rules p (parse s packet) packet

  get-process :
      (p : DpiProcessor) (packet : s.Packet) (k : Option FiveTuple)
      → get (process s p packet).1.tracker.flows k ≡ (
          if key_of packet == k
          then some
              (effect p.tracker.rules
                (parse s packet)
                packet
                (get p.tracker.flows (key_of packet))).1
          else get p.tracker.flows k)
  unfolding process
  get-process p packet k = get-process_parsed p (parse s packet) packet k

  process-flow :
      (p : DpiProcessor) (packet : s.Packet) (result : Processed s.Packet)
      → (process s p packet).0 ≡ ok result
      → result.flow ≡ key_of packet
  process-flow p packet result h =
      effect-flow p.tracker.rules (parse s packet) packet (get p.tracker.flows (key_of packet))
        (sym (process-result p packet) ∙ h)

  -- The results of a flow that a processor returns are those of its packets alone, whatever other
  -- packets come between.
  pub results_of-handle_all :
      (k : Option FiveTuple) (packets : List s.Packet) (log : Log (Processed s.Packet) DpiProcessor)
      → Follows k log packets
  unfolding handle_all flow_results
  results_of-handle_all k [] log = sym (append-nil (results_of k log.results))
  results_of-handle_all k (packet ∷ packets) log =
      let p = log.state in
      let (r, state) = process s p packet in
      let later = results_of-handle_all k packets (enter r state log) in
      let first = results_of-enter k r state log in
      let whose = process-flow p packet in
      let rules = process-rules p packet in
      let flow_after = get-process p packet k in
      let at_state = enter-state r state log in
      elim (Bool-cases (key_of packet == k)) [
        | inr other ↦
            let none_here = no_results k packet r whose other in
            rw other (
              later
              ∙ rw (at_state, rules, first, none_here, flow_after, other) (rw append-nil refl))
        | inl same ↦
            let at_k = (option_beq_iff (key_of packet) k).0 same in
            let m = p.tracker.rules in
            let outcome = effect m (parse s packet) packet (get p.tracker.flows k) in
            let eq1 : r ≡ outcome.0 = process-result p packet ∙ rw at_k refl in
            let eq2 : get state.tracker.flows k ≡ some outcome.1 =
              flow_after ∙ rw same (rw at_k refl) in
            let rest = flow_results m (some outcome.1) (packets_of k packets) in
            let one : results_of k (with_result r []) ++ rest ≡ with_result outcome.0 rest =
              one_result k packet r rest whose same ∙ ap (λ x. with_result x rest) eq1 in
            rw same (
              later
              ∙ rw (at_state, rules, first, eq2)
                  (append_assoc (results_of k log.results) _ rest
                    ∙ ap (λ x. results_of k log.results ++ x) one))
      ]
