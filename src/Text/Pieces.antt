-- ===== src/Text/Pieces.antt =====
-- `str.split` and `str.replace(t, "")`.
use dpi_engine_python.Prelude.{
  ℕ, zero, suc, ◌-◌, ◌≡◌, refl, ap, ◌∙◌, true, false, List, [], ◌∷◌, ◌++◌, arith, length,
  if◌then◌else◌,
}
use dpi_engine_python.Prelude.Eq.{◌==◌, nat_eq, contains}
use dpi_engine_python.Text.Trim.{Str}
use dpi_engine_python.Text.Suffix.{starts_with, starts_with-append}

-- One character more in the first piece.
abbrev pub cons_head : ℕ → List Str → List Str
cons_head c [] = (c ∷ []) ∷ []
cons_head c (p ∷ ps) = (c ∷ p) ∷ ps

-- `s.split(sep)`, for a separator of one character.
abbrev pub split_at : ℕ → Str → List Str
split_at sep [] = [] ∷ []
split_at sep (c ∷ cs) =
    let rest = split_at sep cs in if c == sep then [] ∷ rest else cons_head c rest

-- `s.split(sep)` with `skip` characters of a separator still to pass over.
split_on : Str → ℕ → Str → List Str
split_on sep skip [] = [] ∷ []
split_on sep (suc skip) (c ∷ cs) = split_on sep skip cs
split_on sep zero (c ∷ cs) = elim (starts_with (c ∷ cs) sep) [
  | true ↦ [] ∷ split_on sep (length sep - 1) cs
  | false ↦ cons_head c (split_on sep 0 cs)
]

unfoldable pub split : Str → Str → List Str
unfolding split_on
split sep s = split_on sep 0 s

-- `s.replace(t, "")` with `skip` characters of an occurrence still to pass over.
remove_on : Str → ℕ → Str → Str
remove_on t skip [] = []
remove_on t (suc skip) (c ∷ cs) = remove_on t skip cs
remove_on t zero (c ∷ cs) = elim (starts_with (c ∷ cs) t) [
  | true ↦ remove_on t (length t - 1) cs
  | false ↦ c ∷ remove_on t 0 cs
]

unfoldable pub remove : Str → Str → Str
unfolding remove_on
remove t s = remove_on t 0 s

split_on-skip : (sep t ys : Str) → split_on sep (length t) (t ++ ys) ≡ split_on sep 0 ys
unfolding split_on
split_on-skip sep [] ys = refl
split_on-skip sep (c ∷ t) ys = split_on-skip sep t ys

split_on_hit :
    (sep : Str) (c : ℕ) (cs : Str)
    → starts_with (c ∷ cs) sep ≡ true
    → split_on sep 0 (c ∷ cs) ≡ [] ∷ split_on sep (length sep - 1) cs
unfolding split_on
split_on_hit sep c cs h = rw (h, split_on)

split_on_miss :
    (sep : Str) (c : ℕ) (cs : Str)
    → starts_with (c ∷ cs) sep ≡ false
    → split_on sep 0 (c ∷ cs) ≡ cons_head c (split_on sep 0 cs)
unfolding split_on
split_on_miss sep c cs h = rw (h, split_on)

split_on_first :
    (a : ℕ) (sep xs ys : Str)
    → contains a xs ≡ false
    → split_on (a ∷ sep) 0 (xs ++ (a ∷ (sep ++ ys))) ≡ xs ∷ split_on (a ∷ sep) 0 ys
split_on_first a sep [] ys h =
    let len : suc (length sep) - 1 ≡ length sep = omega arith in
    split_on_hit (a ∷ sep) a (sep ++ ys) (starts_with-append (a ∷ sep) ys)
    ∙ rw len (ap (◌∷◌ []) (split_on-skip (a ∷ sep) sep ys))
split_on_first a sep (x ∷ xs) ys h =
    split_on_miss (a ∷ sep) x (xs ++ (a ∷ (sep ++ ys))) (ground arith)
    ∙ rw (split_on_first a sep xs ys (ground arith))

-- A separator that starts with a character which `xs` lacks ends the first piece behind `xs`.
pub split_first :
    (a : ℕ) (sep xs ys : Str)
    → contains a xs ≡ false
    → split (a ∷ sep) (xs ++ (a ∷ (sep ++ ys))) ≡ xs ∷ split (a ∷ sep) ys
unfolding split
split_first a sep xs ys h = split_on_first a sep xs ys h
