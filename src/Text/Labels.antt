-- ===== src/Text/Labels.antt =====
-- The pieces of `s.split(sep)`: the runs between two separators.
use dpi_engine_python.Prelude.{
  ℕ, ◌≡◌, refl, ap, ◌↔◌, inl, inr, false, List, [], ◌∷◌, ◌++◌, arith, Bool-cases, In,
}
use dpi_engine_python.Prelude.Eq.{◌==◌, nat_eq, contains}
use dpi_engine_python.Text.Trim.{Str}
use dpi_engine_python.Text.Pieces.{cons_head, split_at}

-- `label` stands in `s` between separators, the two ends of `s` counting as such.
abbrev pub IsPiece : ℕ → Str → Str → Type 0
IsPiece sep label s = (p q : Str) × (sep ∷ (s ++ sep ∷ []) ≡ p ++ sep ∷ (label ++ sep ∷ q))

abbrev rest_of : List Str → List Str
rest_of [] = []
rest_of (x ∷ xs) = xs

split_at-cons : (sep : ℕ) (s : Str) → (x : Str) × (xs : List Str) × (split_at sep s ≡ x ∷ xs)
split_at-cons sep [] = ([], [], refl)
split_at-cons sep (c ∷ cs) =
    let (x, xs, e) = split_at-cons sep cs in
    elim (Bool-cases (c == sep)) [
      | inl h ↦ ([], split_at sep cs, rw h)
      | inr h ↦ (c ∷ x, xs, rw (h, e))
    ]

rest_of-cons_head :
    (c sep : ℕ) (s : Str) → rest_of (cons_head c (split_at sep s)) ≡ rest_of (split_at sep s)
rest_of-cons_head c sep s = let (x, xs, e) = split_at-cons sep s in rw e

module _ (sep : ℕ) where
  -- The first piece is what stands before the first separator.
  split_at_first :
      (label s q : Str)
      → contains sep label ≡ false
      → s ++ sep ∷ [] ≡ label ++ sep ∷ q
      → (xs : List Str) × (split_at sep s ≡ label ∷ xs)
  split_at_first [] [] q h e = ([], refl)
  split_at_first (x ∷ l) [] q h e = absurd (ground arith)
  split_at_first [] (c ∷ cs) q h e = (split_at sep cs, ground arith)
  split_at_first (x ∷ l) (c ∷ cs) q h e =
      let (xs, f) = split_at_first l cs q (ground arith) (cc) in (xs, ground arith)

  -- A piece behind a separator is among the pieces behind the first.
  rest_pieces :
      (label s p q : Str)
      → contains sep label ≡ false
      → s ++ sep ∷ [] ≡ p ++ sep ∷ (label ++ sep ∷ q)
      → In label (rest_of (split_at sep s))
  rest_pieces [] [] [] q h e = absurd (ground arith)
  rest_pieces (x ∷ l) [] [] q h e = absurd (ground arith)
  rest_pieces label [] (x ∷ []) q h e = absurd (ground arith)
  rest_pieces label [] (x ∷ y ∷ p) q h e = absurd (ground arith)
  rest_pieces label (c ∷ cs) [] q h e =
      let (xs, f) = split_at_first label cs q h (cc) in ground arith
  rest_pieces label (c ∷ cs) (x ∷ p) q h e =
      let later = rest_pieces label cs p q h (cc) in
      let (y, ys, f) = split_at-cons sep cs in ground arith

  split_at_head :
      (s x : Str) (xs : List Str)
      → split_at sep s ≡ x ∷ xs
      → (q : Str) × (s ++ sep ∷ [] ≡ x ++ sep ∷ q)
  split_at_head [] x xs e = ([], ground arith)
  split_at_head (c ∷ cs) x xs e = elim (Bool-cases (c == sep)) [
    | inl h ↦ (cs ++ sep ∷ [], ground arith)
    | inr h ↦
        let (y, ys, f) = split_at-cons sep cs in
        let (q, g) = split_at_head cs y ys f in (q, ground arith)
  ]

  pieces_rest :
      (label s : Str)
      → In label (rest_of (split_at sep s))
      → (p q : Str) × (s ++ sep ∷ [] ≡ p ++ sep ∷ (label ++ sep ∷ q))
  pieces_rest label [] found = absurd found
  pieces_rest label (c ∷ cs) found =
      let (y, ys, f) = split_at-cons sep cs in
      let (k, g) = split_at_head cs y ys f in
      elim (Bool-cases (c == sep)) [
        | inr h ↦ let (p, q, e) = pieces_rest label cs (ground arith) in (c ∷ p, q, ap (◌∷◌ c) e)
        | inl h ↦ elim (rw (h, f) at found) [
          | inl same ↦ ([], k, ground arith)
          | inr later ↦
              let (p, q, e) = pieces_rest label cs (rw f later) in (c ∷ p, q, ap (◌∷◌ c) e)
        ]
      ]

  IsPiece-of_In : (label s : Str) → In label (split_at sep s) → IsPiece sep label s
  IsPiece-of_In label s found =
      let (y, ys, f) = split_at-cons sep s in
      let (k, g) = split_at_head s y ys f in
      elim (rw f at found) [
        | inl same ↦ ([], k, ground arith)
        | inr later ↦
            let (p, q, e) = pieces_rest label s (rw f later) in (sep ∷ p, q, ap (◌∷◌ sep) e)
      ]

  In-of_piece :
      (label s p q : Str)
      → contains sep label ≡ false
      → sep ∷ (s ++ sep ∷ []) ≡ p ++ sep ∷ (label ++ sep ∷ q)
      → In label (split_at sep s)
  In-of_piece label s [] q h e = let (xs, f) = split_at_first label s q h (cc) in rw f (inl refl)
  In-of_piece label s (x ∷ p) q h e =
      let (y, ys, f) = split_at-cons sep s in
      let later = rest_pieces label s p q h (cc) in rw f (inr (rw f at later))

  -- A text without separator is among the pieces exactly when it is a piece.
  pub In-split_at :
      (label s : Str) → contains sep label ≡ false → In label (split_at sep s) ↔ IsPiece sep label s
  In-split_at label s h = (IsPiece-of_In label s, λ (p, q, e). In-of_piece label s p q h e)
