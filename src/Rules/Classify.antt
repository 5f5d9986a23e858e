-- ===== src/Rules/Classify.antt =====
-- What `classify_domain` answers: the application of the one rule that the domain lies under.
use dpi_engine_python.Prelude.{
  ◌≡◌, ◌≢◌, refl, sym, ap, inl, inr, Bool, true, false, not, ◌&&◌, Option, none, some, List, [],
  ◌∷◌, arith, Bool-cases, In, all,
}
use dpi_engine_python.Text.{Str, lower, lower_code, lower_idem, is_space, strip}
use dpi_engine_python.Types.{AppType, unknown}
use dpi_engine_python.Rules.{
  RuleManager, default_domain_rules, normalize, is_under, first_app, classify_domain,
}
use dpi_engine_python.Rules.Domains.{
  IsUnder, is_under_iff, IsUnder-linear, is_clean, normalize-IsUnder, normalize_of_clean,
}

-- Neither of two rules covers the other.
abbrev apart : Str → Str × AppType → Bool
apart r e =
    let s = normalize e.0 in not (is_under s (normalize r)) && not (is_under (normalize r) s)

-- No rule of the table covers another.
abbrev pub separate : List (Str × AppType) → Bool
separate [] = true
separate ((r, a) ∷ rules) = all (apart r) rules && separate rules

apart_at :
    (r : Str) (rules : List (Str × AppType)) (x : Str × AppType)
    → all (apart r) rules ≡ true
    → In x rules
    → apart r x ≡ true
apart_at r [] x h found = absurd found
apart_at r (e ∷ rules) x h (inl same) = rw (sym same) (ground arith)
apart_at r (e ∷ rules) x h (inr later) = apart_at r rules x (ground arith) later

apart-IsUnder :
    (d r s : Str) (b : AppType)
    → apart r (s, b) ≡ true
    → IsUnder d (normalize s)
    → is_under d (normalize r) ≡ false
apart-IsUnder d r s b h under = elim (Bool-cases (is_under d (normalize r))) [
  | inr off ↦ off
  | inl on ↦ absurd (elim (IsUnder-linear ((is_under_iff d (normalize r)).0 on) under) [
    | inl u ↦ ground (arith, (is_under_iff (normalize s) (normalize r)).1 u)
    | inr u ↦ ground (arith, (is_under_iff (normalize r) (normalize s)).1 u)
  ])
]

-- In a table with no rule under another, any rule that covers the domain decides.
first_app_complete :
    (d : Str) (rules : List (Str × AppType)) (r : Str) (a : AppType)
    → separate rules ≡ true
    → In (r, a) rules
    → IsUnder d (normalize r)
    → first_app d rules ≡ a
unfolding first_app
first_app_complete d [] r a sep found under = absurd found
first_app_complete d ((s, b) ∷ rules) r a sep (inl same) under =
    let hit = (is_under_iff d (normalize r)).1 under in ground arith
first_app_complete d ((s, b) ∷ rules) r a sep (inr later) under =
    let off = apart-IsUnder d s r a (apart_at s rules (r, a) (ground arith) later) under in
    rw off (first_app_complete d rules r a (ground arith) later under)

first_app_sound :
    (d : Str) (rules : List (Str × AppType)) (a : AppType)
    → first_app d rules ≡ a
    → a ≢ unknown
    → (r : Str) × In (r, a) rules × IsUnder d (normalize r)
unfolding first_app
first_app_sound d [] a e ne = absurd (ne (sym e))
first_app_sound d ((s, b) ∷ rules) a e ne = elim (Bool-cases (is_under d (normalize s))) [
  | inl on ↦
      let same : b ≡ a = ground arith in
      (s, inl (ap (λ x. (s, x)) same), (is_under_iff d (normalize s)).0 on)
  | inr off ↦
      let (r, found, under) = first_app_sound d rules a (rw off at e) ne in (r, inr found, under)
]

module _ (m : RuleManager) where
  -- An application other than UNKNOWN is that of a rule which the normalised domain lies under.
  pub classify_domain_sound :
      (domain : Option Str) (app : AppType)
      → classify_domain m domain ≡ app
      → app ≢ unknown
      → (d r : Str) × (domain ≡ some d)
        × In (r, app) m.domain_rules
        × IsUnder (normalize d) (normalize r)
  unfolding classify_domain
  classify_domain_sound (some (c ∷ cs)) app e ne =
      let (r, found, under) = first_app_sound (normalize (c ∷ cs)) m.domain_rules app e ne in
      (c ∷ cs, r, refl, found, under)
  classify_domain_sound none app e ne = absurd (ne (sym e))
  classify_domain_sound (some []) app e ne = absurd (ne (sym e))

  -- Letter case does not matter to classification.
  pub classify_domain-lower :
      (d : Str) → classify_domain m (some (lower d)) ≡ classify_domain m (some d)
  unfolding classify_domain normalize
  classify_domain-lower [] = refl
  classify_domain-lower (c ∷ cs) = rw (lower_idem (c ∷ cs))

default_separate : separate default_domain_rules ≡ true
unfolding normalize strip lower_code is_space
default_separate = refl

-- Each rule of the built-in table is written as normalisation leaves it.
default_clean : all (λ e. is_clean e.0) default_domain_rules ≡ true
unfolding lower_code is_space
default_clean = refl

clean_at :
    (rules : List (Str × AppType)) (x : Str × AppType)
    → all (λ e. is_clean e.0) rules ≡ true
    → In x rules
    → is_clean x.0 ≡ true
clean_at [] x h found = absurd found
clean_at (e ∷ rules) x h (inl same) = rw (sym same) (ground arith)
clean_at (e ∷ rules) x h (inr later) = clean_at rules x (ground arith) later

-- With the built-in table, a domain, not empty, that is a rule's domain or any subdomain of it gets
-- that rule's application, wherever the rule stands in the table.
pub classify_domain-default :
    (m : RuleManager) (domain rule : Str) (app : AppType)
    → m.domain_rules ≡ default_domain_rules
    → In (rule, app) default_domain_rules
    → IsUnder domain rule
    → domain ≢ []
    → classify_domain m (some domain) ≡ app
unfolding classify_domain
classify_domain-default m [] rule app table found under ne = absurd (ne refl)
classify_domain-default m (c ∷ cs) rule app table found under ne =
    let clean = clean_at default_domain_rules (rule, app) default_clean found in
    let below = normalize-IsUnder (c ∷ cs) rule clean under in
    rw table (
      first_app_complete (normalize (c ∷ cs)) default_domain_rules rule app default_separate found
        (rw (normalize_of_clean rule clean) below))
