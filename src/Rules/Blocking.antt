-- ===== src/Rules/Blocking.antt =====
-- What the three blocking tests answer.
use dpi_engine_python.Prelude.{
  ◌≡◌, ◌≢◌, refl, ◌↔◌, inl, inr, Bool, true, some, List, [], ◌∷◌, arith, Bool-cases, In, any,
  or-eq-true, if◌then◌else◌,
}
use dpi_engine_python.Prelude.Eq.{nat_eq, list_eq, contains, contains_iff}
use dpi_engine_python.Text.{Str, lower, lower_idem, split_at}
use dpi_engine_python.Text.Labels.{IsPiece, In-split_at}
use dpi_engine_python.Rules.{RuleManager, normalize, blocks, is_domain_blocked}
use dpi_engine_python.Rules.Domains.{IsUnder, is_under_iff}

-- A rule with a dot covers a domain and its subdomains; a rule without one is a label of it.
abbrev pub Covers : Str → Str → Type 0
Covers domain rule = if contains b'.' rule then IsUnder domain rule else IsPiece b'.' rule domain

blocks_iff : (domain rule : Str) → (blocks domain rule ≡ true) ↔ Covers domain (normalize rule)
unfolding blocks
blocks_iff domain rule = elim (Bool-cases (contains b'.' (normalize rule))) [
  | inl dotted ↦ rw dotted (is_under_iff domain (normalize rule))
  | inr plain ↦ rw plain (
      let (to, from) = In-split_at b'.' (normalize rule) domain plain in
      let (here, back) = contains_iff (normalize rule) (split_at b'.' domain) in
      (λ h. to (here h), λ h. back (from h)))
]

any_sound :
    {A : Type 0} (p : A → Bool) (xs : List A) → any p xs ≡ true → (x : A) × In x xs × (p x ≡ true)
any_sound p [] h = absurd (cc)
any_sound p (x ∷ xs) h = elim (or-eq-true (p x) (any p xs) h) [
  | inl now ↦ (x, inl refl, now)
  | inr later ↦ let (y, found, hit) = any_sound p xs later in (y, inr found, hit)
]

any_complete :
    {A : Type 0} (p : A → Bool) (xs : List A) (x : A) → In x xs → p x ≡ true → any p xs ≡ true
any_complete p [] x found h = absurd found
any_complete p (y ∷ xs) x (inl same) h = ground arith
any_complete p (y ∷ xs) x (inr later) h = ground (arith, any_complete p xs x later h)

module _ (m : RuleManager) where
  -- A domain that is not empty is blocked exactly when some blocked domain covers it, both
  -- normalised; so the order in which the set is walked through does not matter.
  pub is_domain_blocked_iff :
      (d : Str)
      → d ≢ []
      → (is_domain_blocked m (some d) ≡ true)
        ↔ ((rule : Str) × In rule m.blocked_domains × Covers (normalize d) (normalize rule))
  unfolding is_domain_blocked
  is_domain_blocked_iff [] ne = absurd (ne refl)
  is_domain_blocked_iff (c ∷ cs) ne =
      let d = normalize (c ∷ cs) in
      (
        λ h.
            let (rule, found, hit) = any_sound (blocks d) m.blocked_domains h in
            (rule, found, (blocks_iff d rule).0 hit),
        λ (rule, found, covers).
            any_complete (blocks d) m.blocked_domains rule found ((blocks_iff d rule).1 covers),
      )

  -- Letter case does not matter to the blocking of a domain.
  pub is_domain_blocked-lower :
      (d : Str) → is_domain_blocked m (some (lower d)) ≡ is_domain_blocked m (some d)
  unfolding is_domain_blocked normalize
  is_domain_blocked-lower [] = refl
  is_domain_blocked-lower (c ∷ cs) = rw (lower_idem (c ∷ cs))
