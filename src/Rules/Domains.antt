-- ===== src/Rules/Domains.antt =====
-- When one domain lies under another, and what normalisation keeps.
use mathlib.Core.List.{map-append}
use dpi_engine_python.Prelude.{
  ℕ, ◌≡◌, ◌≢◌, refl, sym, ap, ◌∙◌, ◌↔◌, ◌⊎◌, inl, inr, Bool, true, not, ◌&&◌, [], ◌∷◌, ◌++◌, arith,
  or-eq-true,
}
use dpi_engine_python.Prelude.Eq.{◌==◌, nat_eq, list_eq, list_beq_iff}
use dpi_engine_python.Text.{
  Str, lower, lower_code, is_space, is_dot, strip, lstrip, rstrip, ends_with, IsSuffix,
  ends_with_iff, IsSuffix-linear, lstrip-append, rstrip-append,
}
use dpi_engine_python.Rules.{normalize, is_under}

-- `domain` is `rule` or a subdomain of it: dotted in front, one ends with the other.
abbrev pub IsUnder : Str → Str → Type 0
IsUnder domain rule = IsSuffix (b'.' ∷ rule) (b'.' ∷ domain)

pub is_under_iff : (domain rule : Str) → (is_under domain rule ≡ true) ↔ IsUnder domain rule
is_under_iff domain rule = (to, from)
  where
    to : is_under domain rule ≡ true → IsUnder domain rule
    to h = elim (or-eq-true (domain == rule) _ h) [
      | inl e ↦ ([], ap (◌∷◌ b'.') ((list_beq_iff domain rule).0 e))
      | inr e ↦ let (p, f) = (ends_with_iff domain (b'.' ∷ rule)).0 e in (b'.' ∷ p, ap (◌∷◌ b'.') f)
    ]

    from : IsUnder domain rule → is_under domain rule ≡ true
    from ([], e) = ground (arith, list_beq_iff domain rule)
    from (c ∷ p, e) =
        let ends : ends_with domain (b'.' ∷ rule) ≡ true =
          (ends_with_iff domain (b'.' ∷ rule)).1 (p, cc) in
        ground (arith, ends)

-- A domain under two rules puts one of the rules under the other.
pub IsUnder-linear :
    {domain r s : Str} → IsUnder domain r → IsUnder domain s → IsUnder s r ⊎ IsUnder r s
IsUnder-linear {r = r} {s = s} (p, e) (q, f) = IsSuffix-linear p q (b'.' ∷ r) (b'.' ∷ s) (sym e ∙ f)

-- A rule that normalisation does not change, nor any of its steps.
abbrev pub is_clean : Str → Bool
is_clean r =
    lower r == r
    && lstrip is_space r == r
    && rstrip is_space r == r
    && rstrip is_dot r == r
    && not (r == [])

record IsClean (r : Str) : Type 0 where
  lowered : lower r ≡ r
  left : lstrip is_space r ≡ r
  right : rstrip is_space r ≡ r
  undotted : rstrip is_dot r ≡ r
  filled : r ≢ []

is_clean-IsClean : (r : Str) → is_clean r ≡ true → IsClean r
is_clean-IsClean r h = record {
  lowered = ground (arith, list_beq_iff (lower r) r);
  left = ground (arith, list_beq_iff (lstrip is_space r) r);
  right = ground (arith, list_beq_iff (rstrip is_space r) r);
  undotted = ground (arith, list_beq_iff (rstrip is_dot r) r);
  filled = λ e. ground (arith, list_beq_iff r []);
}

rstrip_dotted :
    (p : ℕ → Bool) (xs rule : Str)
    → rstrip p rule ≡ rule
    → rule ≢ []
    → rstrip p (xs ++ b'.' ∷ rule) ≡ xs ++ b'.' ∷ rule
rstrip_dotted p xs rule e ne =
    let inner : rstrip p (b'.' ∷ rule) ≡ b'.' ∷ rule =
      rstrip-append p (b'.' ∷ []) rule (λ z. ne (sym e ∙ z)) ∙ ap (◌∷◌ b'.') e in
    rstrip-append p xs (b'.' ∷ rule) (λ z. cc) ∙ ap (◌++◌ xs) inner

normalize_clean : (rule : Str) → IsClean rule → normalize rule ≡ rule
unfolding normalize strip
normalize_clean rule c = rw (c.lowered, c.left, c.right) c.undotted

normalize_dotted :
    (p rule : Str)
    → IsClean rule
    → normalize (p ++ b'.' ∷ rule) ≡ lstrip is_space (lower p) ++ b'.' ∷ rule
unfolding normalize strip lower_code is_space
normalize_dotted p rule c =
    let kept = lstrip is_space (lower p) in
    rw (map-append, c.lowered, lstrip-append is_space (lower p) b'.' rule refl)
      (rw (rstrip_dotted is_space kept rule c.right c.filled)
        (rstrip_dotted is_dot kept rule c.undotted c.filled))

-- `normalize` works in front of a clean rule only.
pub normalize-IsUnder :
    (domain rule : Str)
    → is_clean rule ≡ true
    → IsUnder domain rule
    → IsUnder (normalize domain) rule
normalize-IsUnder domain rule clean ([], e) =
    let same : domain ≡ rule = cc in
    ([], rw (same, normalize_clean rule (is_clean-IsClean rule clean)))
normalize-IsUnder domain rule clean (c ∷ p, e) =
    let split : domain ≡ p ++ b'.' ∷ rule = cc in
    (
      b'.' ∷ lstrip is_space (lower p),
      rw (split, normalize_dotted p rule (is_clean-IsClean rule clean)),
    )

pub normalize_of_clean : (rule : Str) → is_clean rule ≡ true → normalize rule ≡ rule
normalize_of_clean rule clean = normalize_clean rule (is_clean-IsClean rule clean)
