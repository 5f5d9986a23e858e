-- ===== src/Processor/Decisions.antt =====
-- Which packets the processor drops, and when it raises.
use dpi_engine_python.Http
use dpi_engine_python.Packet.{ParsedPacket}
use dpi_engine_python.Prelude.{
  ℕ, ◌≡◌, refl, ap, ◌∙◌, inl, inr, Bool, true, ◌&&◌, ◌||◌, Option, none, some, List, arith,
  Bool-cases, if◌then◌else◌,
}
use dpi_engine_python.Prelude.Eq.{option_eq}
use dpi_engine_python.Prelude.Result.{Result, ok}
use dpi_engine_python.Rules.{
  RuleManager, classify_domain, is_ip_blocked, is_app_blocked, is_domain_blocked,
}
use dpi_engine_python.Sni
use dpi_engine_python.Sni.Total.{extract_total}
use dpi_engine_python.Text.{Str, truthy}
use dpi_engine_python.Tracker.Blocking.{apply_blocking_rules_ok}
use dpi_engine_python.Types.{FiveTuple, five_tuple_eq, Flow}
use dpi_engine_python.Tracker.{update_flow, create_five_tuple}
use dpi_engine_python.Processor.{decide_for, Processed, payload_of, names_in, domain_of, named_flow}
use dpi_engine_python.Processor.Effect.{or_new, conclude_effect, name_effect, rules_effect, effect}

-- The extractors answer on every payload.
pub names_in_total : (payload : List ℕ) → (n : Option Str × Option Str) × (names_in payload ≡ ok n)
unfolding names_in
names_in_total payload =
    let (sni, e) = extract_total payload in
    ((sni, if truthy sni then none else Http.extract payload), rw e)

-- The names in a payload are the SNI, and the Host header where there is no SNI.
pub names_in-eq :
    (payload : List ℕ) (sni http_host : Option Str)
    → names_in payload ≡ ok (sni, http_host)
    → (Sni.extract payload ≡ ok sni)
      × (http_host ≡ (if truthy sni then none else Http.extract payload))
unfolding names_in
names_in-eq payload sni http_host h =
    let (found, e) = extract_total payload in
    let same : ◌≡◌ {A = Result (Option Str × Option Str)}
        (ok (found, if truthy found then none else Http.extract payload)) (ok (sni, http_host)) =
      rw e at h in
    let named : found ≡ sni = cc in (e ∙ ap ok named, rw (← named) (cc))

-- What the names in a packet say of it: whether the application or the domain is blocked.
abbrev pub name_verdict : RuleManager → Option Str → Option Str → Bool
name_verdict m sni http_host =
    let domain = domain_of sni http_host in
    truthy domain
    && (is_app_blocked m (some (classify_domain m domain)) || is_domain_blocked m domain)

-- What stands against a flow before the names of the packet are read.
abbrev pub standing : RuleManager → FiveTuple → Flow → Bool
standing m key flow =
    flow.blocked
    || (is_ip_blocked m (some key.src_ip)
        || (is_app_blocked m (some flow.app_type) || is_domain_blocked m flow.sni))

module _ {P : Type 0} (m : RuleManager) (parsed : ParsedPacket) (raw : P) (key : FiveTuple) where
  -- A result on a flow with this five-tuple, which was `before` blocked by more than the names.
  pub record Judged (before : Bool) (o : Result (Processed P) × Flow) : Type 0 where
    pub result : Processed P
    pub returned : o.0 ≡ ok result
    pub stays_keyed : o.1.five_tuple ≡ some key
    pub decided : result.decision ≡ decide_for o.1
    pub blocked : o.1.blocked ≡ (before || name_verdict m result.sni result.http_host)
    pub names : names_in (payload_of parsed) ≡ ok (result.sni, result.http_host)

  -- `flow` has been through the rules already, so its source address is not looked at in vain.
  name_effect-Judged :
      (flow : Flow) (sni http_host : Option Str)
      → flow.five_tuple ≡ some key
      → (is_ip_blocked m (some key.src_ip) ≡ true → flow.blocked ≡ true)
      → names_in (payload_of parsed) ≡ ok (sni, http_host)
      → Judged flow.blocked (name_effect m parsed raw flow (ok (sni, http_host)))
  unfolding name_effect conclude_effect
  name_effect-Judged flow sni http_host h ip read =
      elim (Bool-cases (truthy (domain_of sni http_host))) [
        | inr nameless ↦ rw nameless (record {
          result = _;
          returned = refl;
          stays_keyed = h;
          decided = refl;
          blocked = rw nameless (ground arith);
          names = read;
        })
        | inl named ↦
            let domain = domain_of sni http_host in
            let (after, e, k, b) = apply_blocking_rules_ok m (named_flow m domain flow) key h in
            rw (named, e)
              (record {
                result = _;
                returned = refl;
                stays_keyed = k;
                decided = refl;
                blocked = rw named (ground (arith, b));
                names = read;
              })
      ]

  update_flow-keyed : (flow : Flow) → (update_flow m none flow).five_tuple ≡ flow.five_tuple
  unfolding update_flow
  update_flow-keyed flow = ground arith

  pub effect-Judged :
      (found : Option Flow)
      → (or_new (create_five_tuple parsed) found).five_tuple ≡ some key
      → Judged
          (standing m key (update_flow m none (or_new (create_five_tuple parsed) found)))
          (effect m parsed raw found)
  unfolding effect rules_effect
  effect-Judged found h =
      let updated = update_flow m none (or_new (create_five_tuple parsed) found) in
      let (after, e, k, b) = apply_blocking_rules_ok m updated key (update_flow-keyed _ ∙ h) in
      let ((sni, http_host), n) = names_in_total (payload_of parsed) in
      rw (e, n) (rw (← b) (name_effect-Judged after sni http_host k (λ ip. ground arith) n))
