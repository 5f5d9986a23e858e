-- ===== src/Text/Suffix.antt =====
-- `str.startswith` and `str.endswith`, and what their answers mean.
use dpi_engine_python.Prelude.{
  ◌≡◌, refl, sym, ap, ◌↔◌, ◌⊎◌, inl, inr, Bool, true, false, ◌&&◌, ◌||◌, [], ◌∷◌, ◌++◌, arith,
  append_assoc, or-eq-true,
}
use dpi_engine_python.Prelude.Eq.{◌==◌, nat_eq, list_eq, list_beq_iff}
use dpi_engine_python.Text.Trim.{Str}

abbrev pub starts_with : Str → Str → Bool
starts_with s [] = true
starts_with [] (x ∷ t) = false
starts_with (c ∷ s) (x ∷ t) = c == x && starts_with s t

abbrev pub ends_with : Str → Str → Bool
ends_with [] t = [] == t
ends_with (c ∷ s) t = (c ∷ s) == t || ends_with s t

-- `t` is the end of `s`.
abbrev pub IsSuffix : Str → Str → Type 0
IsSuffix t s = (p : Str) × (s ≡ p ++ t)

IsSuffix-ends_with : (p t : Str) → ends_with (p ++ t) t ≡ true
IsSuffix-ends_with [] [] = refl
IsSuffix-ends_with [] (x ∷ t) = ground (arith, list_beq_iff (x ∷ t) (x ∷ t))
IsSuffix-ends_with (c ∷ p) t = ground (arith, IsSuffix-ends_with p t)

ends_with-IsSuffix : (s t : Str) → ends_with s t ≡ true → IsSuffix t s
ends_with-IsSuffix [] t h = ([], (list_beq_iff [] t).0 h)
ends_with-IsSuffix (c ∷ s) t h = elim (or-eq-true ((c ∷ s) == t) _ h) [
  | inl e ↦ ([], (list_beq_iff (c ∷ s) t).0 e)
  | inr r ↦ let (p, e) = ends_with-IsSuffix s t r in (c ∷ p, ap (◌∷◌ c) e)
]

pub ends_with_iff : (s t : Str) → (ends_with s t ≡ true) ↔ IsSuffix t s
ends_with_iff s t = (ends_with-IsSuffix s t, λ (p, e). rw e (IsSuffix-ends_with p t))

-- Of two ends of one text, one is an end of the other.
pub IsSuffix-linear : (p q a b : Str) → p ++ a ≡ q ++ b → IsSuffix a b ⊎ IsSuffix b a
IsSuffix-linear [] q a b e = inr (q, e)
IsSuffix-linear (x ∷ p) [] a b e = inl (x ∷ p, sym e)
IsSuffix-linear (x ∷ p) (y ∷ q) a b e = IsSuffix-linear p q a b (cc)

pub IsSuffix-trans : {a b c : Str} → IsSuffix a b → IsSuffix b c → IsSuffix a c
IsSuffix-trans {a} (p, e) (q, f) = (q ++ p, rw (f, e) (sym (append_assoc q p a)))

pub starts_with-append : (t r : Str) → starts_with (t ++ r) t ≡ true
starts_with-append [] r = refl
starts_with-append (x ∷ t) r = ground (arith, starts_with-append t r)

-- `s.startswith(t)` says that `t` stands in front.
pub starts_with-eq : (s t : Str) → starts_with s t ≡ true → (r : Str) × (s ≡ t ++ r)
starts_with-eq s [] h = (s, refl)
starts_with-eq [] (x ∷ t) h = absurd (cc)
starts_with-eq (c ∷ s) (x ∷ t) h =
    let (r, e) = starts_with-eq s t (ground arith) in (r, ground arith)
