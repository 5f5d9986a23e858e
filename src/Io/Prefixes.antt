-- ===== src/Io/Prefixes.antt =====
-- Statements that make the first of some calls, in order, or all of them.
use dpi_engine_python.Io.{Io, World, call, record_event, ◌>>◌}
use dpi_engine_python.Io.Calls.{Result-cases}
use dpi_engine_python.Prelude.{◌≡◌, refl, ap, ◌∙◌, inl, inr, List, [], ◌∷◌, ◌++◌, append_assoc}

module _ {E : Type 0} where
  abbrev pub MakesFirst : {A : Type 0} → Io E A → List E → Type 0
  MakesFirst m calls =
      (log : List E) → (done rest : List E) × (done ++ rest ≡ calls) × ((m log).log ≡ log ++ done)

  pub record_event-MakesFirst : (event : E) → MakesFirst (record_event event) (event ∷ [])
  record_event-MakesFirst event log = (event ∷ [], [], refl, refl)

  pub call-MakesFirst :
      {A : Type 0} (world : World E) (event : E) (next : Io E A) (calls : List E)
      → MakesFirst next calls
      → MakesFirst (call world event >> next) (event ∷ calls)
  call-MakesFirst world event next calls h log = elim (Result-cases (world log event)) [
    | inr (e, raised) ↦ (event ∷ [], calls, refl, rw raised refl)
    | inl (_, answered) ↦
        let (done, rest, parts, after) = h (log ++ event ∷ []) in
        (
          event ∷ done,
          rest,
          ap (λ l. event ∷ l) parts,
          rw answered (after ∙ append_assoc log (event ∷ []) done),
        )
  ]
