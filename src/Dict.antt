-- ===== src/Dict.antt =====
-- Python's `dict`: an association list in the order of insertion. A write to a key that is there
-- keeps its place, any other goes to the end.
use dpi_engine_python.Prelude.{
  ◌+◌, ◌≡◌, refl, inl, inr, false, ◌||◌, Option, none, some, List, [], ◌∷◌, map, arith, Bool-cases,
  In, length, if◌then◌else◌,
}
use dpi_engine_python.Prelude.Eq.{Equality, ◌==◌, beq_refl, beq-eq-true, contains}

abbrev pub Dict : Type 0 → Type 0 → Type 0
Dict K V = List (K × V)

module _ {K V : Type 0} where
  abbrev pub keys : Dict K V → List K
  keys d = map (λ e. e.0) d

  abbrev pub values : Dict K V → List V
  values d = map (λ e. e.1) d

module _ {K V : Type 0} ⦃e : Equality K⦄ where
  -- d.get(k)
  unfoldable pub get : Dict K V → K → Option V
  get [] k = none
  get ((j, v) ∷ d) k = if j == k then some v else get d k

  -- d[k] = v
  unfoldable pub put : Dict K V → K → V → Dict K V
  put [] k v = (k, v) ∷ []
  put ((j, w) ∷ d) k v = if j == k then (j, v) ∷ d else (j, w) ∷ put d k v

  -- No key stands twice.
  abbrev pub IsDict : Dict K V → Type 0
  IsDict [] = Unit
  IsDict ((k, v) ∷ d) = (contains k (keys d) ≡ false) × IsDict d

  pub get-put :
      (d : Dict K V) (k j : K) (v : V) → get (put d k v) j ≡ (if k == j then some v else get d j)
  unfolding get put
  get-put [] k j v = refl
  get-put ((i, w) ∷ d) k j v =
      ground (arith, e.equals_iff k j, e.equals_iff i k, e.equals_iff i j, get-put d k j v)

  pub get-put_self : (d : Dict K V) (k : K) (v : V) → get (put d k v) k ≡ some v
  get-put_self d k v = rw (get-put d k k v, beq_refl k)

  pub get-put_ne : (d : Dict K V) (k j : K) (v : V) → (k == j) ≡ false → get (put d k v) j ≡ get d j
  get-put_ne d k j v h = rw (get-put d k j v, h)

  pub get-none_of_absent : (d : Dict K V) (k : K) → contains k (keys d) ≡ false → get d k ≡ none
  unfolding get
  get-none_of_absent [] k h = refl
  get-none_of_absent ((j, v) ∷ d) k h = ground (arith, get-none_of_absent d k)

  pub length-put :
      (d : Dict K V) (k : K) (v : V)
      → length (put d k v) ≡ length d + (elim (get d k) [ none ↦ 1 | some _ ↦ 0 ])
  unfolding get put
  length-put [] k v = omega arith
  length-put ((j, w) ∷ d) k v = ground (arith, length-put d k v)

  contains-put :
      (d : Dict K V) (k j : K) (v : V)
      → contains j (keys (put d k v)) ≡ (k == j || contains j (keys d))
  unfolding put
  contains-put [] k j v = refl
  contains-put ((i, w) ∷ d) k j v =
      ground (arith, e.equals_iff i k, e.equals_iff i j, contains-put d k j v)

  pub put-IsDict : (d : Dict K V) (k : K) (v : V) → IsDict d → IsDict (put d k v)
  unfolding put
  put-IsDict [] k v h = ground arith
  put-IsDict ((j, w) ∷ d) k v h =
      ground (arith, contains-put d k j v, put-IsDict d k v, e.equals_iff j k, e.equals_iff k j)

  -- In a dictionary the entries are what `get` finds.
  pub get-eq-some_of_In : (d : Dict K V) (k : K) (v : V) → IsDict d → In (k, v) d → get d k ≡ some v
  unfolding get
  get-eq-some_of_In [] k v h found = absurd found
  get-eq-some_of_In ((j, w) ∷ d) k v h (inl same) = ground (arith, beq_refl k)
  get-eq-some_of_In ((j, w) ∷ d) k v h (inr later) = elim (Bool-cases (j == k)) [
    | inr off ↦ rw off (get-eq-some_of_In d k v h.1 later)
    | inl on ↦
        let old = get-eq-some_of_In d k v h.1 later in
        ground (arith, get-none_of_absent d k, beq-eq-true j k on)
  ]
