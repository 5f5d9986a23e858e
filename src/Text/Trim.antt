-- ===== src/Text/Trim.antt =====
-- `str.lower`, `str.strip`, `str.rstrip`: the definitions and what they do to a suffix.
use Prim.Native.Char.{code}
use dpi_engine_python.Prelude.{
  ℕ, ◌+◌, String, ◌≡◌, ◌≢◌, refl, Bool, false, ◌&&◌, ◌||◌, List, [], ◌∷◌, ◌++◌, map, arith, leb,
  if◌then◌else◌, Bool-cases, ◌⊎◌, inl, inr,
}
use dpi_engine_python.Prelude.Eq.{◌==◌, nat_eq}

abbrev pub Str : Type 0
Str = List ℕ

-- The code points of a literal.
abbrev pub codes : String → Str
codes String.[] = []
codes (String.◌∷◌ c s) = code c ∷ codes s

unfoldable pub lower_code : ℕ → ℕ
lower_code c = if leb b'A' c && leb c b'Z' then c + 32 else c

abbrev pub lower : Str → Str
lower = map lower_code

-- What `str.strip()` removes: `str.isspace` over the whole of Unicode.
unfoldable pub is_space : ℕ → Bool
is_space c =
    (leb 0x9 c && leb c 0xd)
    || (leb 0x1c c && leb c 0x20)
    || c == 0x85
    || c == 0xa0
    || c == 0x1680
    || (leb 0x2000 c && leb c 0x200a)
    || c == 0x2028
    || c == 0x2029
    || c == 0x202f
    || c == 0x205f
    || c == 0x3000

abbrev pub is_dot : ℕ → Bool
is_dot c = c == b'.'

-- The last character, put in front of what is left behind it.
abbrev trim_cons : (ℕ → Bool) → ℕ → Str → Str
trim_cons p c [] = if p c then [] else c ∷ []
trim_cons p c (x ∷ xs) = c ∷ x ∷ xs

abbrev pub rstrip : (ℕ → Bool) → Str → Str
rstrip p [] = []
rstrip p (c ∷ cs) = trim_cons p c (rstrip p cs)

abbrev pub lstrip : (ℕ → Bool) → Str → Str
lstrip p [] = []
lstrip p (c ∷ cs) = if p c then lstrip p cs else c ∷ cs

unfoldable pub strip : Str → Str
strip s = rstrip is_space (lstrip is_space s)

pub lower_code_idem : (c : ℕ) → lower_code (lower_code c) ≡ lower_code c
unfolding lower_code
lower_code_idem c = ground arith

pub lower_idem : (s : Str) → lower (lower s) ≡ lower s
lower_idem [] = refl
lower_idem (c ∷ cs) = rw (lower_code_idem c, lower_idem cs)

module _ (p : ℕ → Bool) where
  -- A kept character protects all that stands before it from `rstrip`.
  pub rstrip-append : (xs ys : Str) → rstrip p ys ≢ [] → rstrip p (xs ++ ys) ≡ xs ++ rstrip p ys
  rstrip-append [] ys h = refl
  rstrip-append (x ∷ []) ys h = ground arith
  rstrip-append (x ∷ y ∷ xs) ys h = rw (rstrip-append (y ∷ xs) ys h)

  -- A kept character protects all that stands behind it from `lstrip`.
  pub lstrip-append :
      (xs : Str) (c : ℕ) (ys : Str) → p c ≡ false → lstrip p (xs ++ c ∷ ys) ≡ lstrip p xs ++ c ∷ ys
  lstrip-append [] c ys h = rw h
  lstrip-append (x ∷ xs) c ys h = ground (arith, lstrip-append xs c ys h)

  pub rstrip_idem : (s : Str) → rstrip p (rstrip p s) ≡ rstrip p s
  rstrip_idem [] = refl
  rstrip_idem (c ∷ cs) = ground (arith, rstrip_idem cs)

  pub lstrip_idem : (s : Str) → lstrip p (lstrip p s) ≡ lstrip p s
  lstrip_idem [] = refl
  lstrip_idem (c ∷ cs) = ground (arith, lstrip_idem cs)

rstrip-kept :
    (p : ℕ → Bool) (c : ℕ) (cs : Str)
    → p c ≡ false
    → lstrip p (rstrip p (c ∷ cs)) ≡ rstrip p (c ∷ cs)
rstrip-kept p c cs h = ground arith

-- Stripping leaves no character at the left end that it would remove, so it can be repeated.
lstrip-head :
    (p : ℕ → Bool) (s : Str)
    → (lstrip p s ≡ []) ⊎ ((c : ℕ) × (cs : Str) × (lstrip p s ≡ c ∷ cs) × (p c ≡ false))
lstrip-head p [] = inl refl
lstrip-head p (c ∷ cs) = elim (Bool-cases (p c)) [
  | inl gone ↦ rw gone (lstrip-head p cs)
  | inr kept ↦ inr (c, cs, rw kept, kept)
]

pub strip_idem : (s : Str) → strip (strip s) ≡ strip s
unfolding strip
strip_idem s = elim (lstrip-head is_space s) [
  | inl e ↦ rw e
  | inr (c, cs, e, kept) ↦
      rw e (rw (rstrip-kept is_space c cs kept) (rstrip_idem is_space (c ∷ cs)))
]
