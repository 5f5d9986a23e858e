-- ===== src/Io/Keeps.antt =====
-- Properties of the log that statements keep, and how a statement that is followed by another ends.
use dpi_engine_python.Io.{Io, ◌>>=◌, ◌>>◌, try_else, rescue, for_each}
use dpi_engine_python.Io.Calls.{Result-cases}
use dpi_engine_python.Prelude.{◌≡◌, refl, ◌⊎◌, inl, inr, Bool, List, [], ◌∷◌, Bool-cases}
use dpi_engine_python.Prelude.Result.{Error, err}

-- The first statement raises, or the whole is the second, from the log of the first.
pub >>-cases :
    {E A B : Type 0} (first : Io E A) (next : Io E B) (log : List E)
    → ((e : Error) × ((first >> next) log ≡ record { log = (first log).log; result = err e }))
      ⊎ ((first >> next) log ≡ next (first log).log)
>>-cases first next log = elim (Result-cases (first log).result) [
  | inl (value, e) ↦ inr (rw e refl)
  | inr (e, raised) ↦ inl (e, rw raised refl)
]

module _ {E : Type 0} (Holds : List E → Type 0) where
  -- Every log that has the property still has it after the statement.
  abbrev pub Keeps : {A : Type 0} → Io E A → Type 0
  Keeps m = (log : List E) → Holds log → Holds (m log).log

  pub >>=-Keeps :
      {A B : Type 0} (first : Io E A) (next : A → Io E B)
      → Keeps first
      → ((a : A) → Keeps (next a))
      → Keeps (first >>= next)
  >>=-Keeps first next h k log held = elim (Result-cases (first log).result) [
    | inl (value, e) ↦ rw e (k value _ (h log held))
    | inr (e, raised) ↦ rw raised (h log held)
  ]

  pub rescue-Keeps :
      {A : Type 0} (body : Io E A) (handler : Error → Io E A)
      → Keeps body
      → ((e : Error) → Keeps (handler e))
      → Keeps (rescue body handler)
  rescue-Keeps body handler h k log held = elim (Result-cases (body log).result) [
    | inl (value, e) ↦ rw e (h log held)
    | inr (e, raised) ↦ rw raised (k e _ (h log held))
  ]

  pub try_else-Keeps :
      {A B : Type 0} (body : Io E A) (catches : Error → Bool) (handler : Io E B) (next : A → Io E B)
      → Keeps body
      → Keeps handler
      → ((a : A) → Keeps (next a))
      → Keeps (try_else body catches handler next)
  try_else-Keeps body catches handler next h k n log held = elim (Result-cases (body log).result) [
    | inl (value, e) ↦ rw e (n value _ (h log held))
    | inr (e, raised) ↦ rw raised (elim (Bool-cases (catches e)) [
      | inl caught ↦ rw caught (k _ (h log held))
      | inr passed ↦ rw passed (h log held)
    ])
  ]

  pub for_each-Keeps :
      {A : Type 0} (body : A → Io E (Unit {0}))
      → ((a : A) → Keeps (body a))
      → (items : List A) → Keeps (for_each items body)
  for_each-Keeps body h [] log held = held
  for_each-Keeps body h (item ∷ items) log held =
      >>=-Keeps (body item) (λ _. for_each items body) (h item) (λ _. for_each-Keeps body h items)
        log held
