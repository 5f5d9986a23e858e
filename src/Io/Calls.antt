-- ===== src/Io/Calls.antt =====
-- What `finally` and loops of calls leave in the log.
use dpi_engine_python.Io.{Io, World, return, raise, call, on_result, ◌>>◌, finally, for_each}
use dpi_engine_python.Prelude.{
  ◌≡◌, refl, ap, ◌∙◌, ◌⊎◌, inl, inr, List, [], ◌∷◌, ◌++◌, map, append-nil, append_assoc,
}
use dpi_engine_python.Prelude.Result.{Error, Result, ok, err}

pub Result-cases {ℓ} :
    {A : Type ℓ} (r : Result A) → ((a : A) × (r ≡ ok a)) ⊎ ((e : Error) × (r ≡ err e))
Result-cases (ok a) = inl (a, refl)
Result-cases (err e) = inr (e, refl)

pub log-return :
    {E A B : Type 0} (first : Io E A) (value : B) (log : List E)
    → ((first >> return value) log).log ≡ (first log).log
log-return first value log = elim (Result-cases (first log).result) [
  | inl (a, e) ↦ rw e refl
  | inr (e, raised) ↦ rw raised refl
]

module _ {E : Type 0} (world : World E) where
  -- The call of a `finally` is the last, however the body ended and whatever the call answers.
  pub log-finally :
      {A : Type 0} (body : Io E A) (event : E) (log : List E)
      → (finally body (call world event) log).log ≡ (body log).log ++ event ∷ []
  log-finally {A} body event log = elim (Result-cases (body log).result) [
    | inl (value, e) ↦ rw e (answered (world (body log).log event) _ (return value) (λ l. refl))
    | inr (e, raised) ↦ rw raised (answered (world (body log).log event) _ (raise e) (λ l. refl))
  ]
    where
      answered :
          (r : Result (Unit {0})) (first : List E) (last : Io E A)
          → ((l : List E) → (last l).log ≡ l)
          → (on_result r (λ x. last) raise first).log ≡ first
      answered (ok _) first last h = h first
      answered (err e) first last h = refl

  pub finally-eq-ok :
      {A : Type 0} (body : Io E A) (event : E) (log : List E) {value : A}
      → (finally body (call world event) log).result ≡ ok value
      → (body log).result ≡ ok value
  finally-eq-ok {A} body event log {value} h = elim (Result-cases (body log).result) [
    | inl (v, e) ↦ e ∙ passed (world (body log).log event) v _ (rw e at h)
    | inr (e, raised) ↦ absurd (failed (world (body log).log event) e _ (rw raised at h))
  ]
    where
      passed :
          (answer : Result (Unit {0})) (v : A) (l : List E)
          → (on_result answer (λ x. return v) raise l).result ≡ ok value
          → ok v ≡ ok value
      passed (ok _) v l h = h
      passed (err e) v l h = absurd cc

      failed :
          (answer : Result (Unit {0})) (e : Error) (l : List E)
          → ¬ (on_result {B = A} answer (λ x. raise e) raise l).result ≡ ok value
      failed (ok _) e l h = cc
      failed (err f) e l h = cc

  -- Where the body ended well, what the call of `finally` answers decides.
  pub finally-of_ok :
      {A : Type 0} (body : Io E A) (event : E) (log l : List E) (value : A)
      → body log ≡ record { log = l; result = ok value }
      → (finally body (call world event) log ≡ record { log = l ++ event ∷ []; result = ok value })
        ⊎ ((e : Error) × (finally body (call world event) log
              ≡ record { log = l ++ event ∷ []; result = err e }))
  finally-of_ok body event log l value h = elim (Result-cases (world l event)) [
    | inl (_, answered) ↦ inl (rw (h, answered) refl)
    | inr (e, raised) ↦ inr (e, rw (h, raised) refl)
  ]

  -- Where the body raised, so does the whole.
  pub finally-of_err :
      {A : Type 0} (body : Io E A) (event : E) (log l : List E) (e : Error)
      → body log ≡ record { log = l; result = err e }
      → (f : Error) × (finally body (call world event) log
          ≡ record { log = l ++ event ∷ []; result = err f })
  finally-of_err body event log l e h = elim (Result-cases (world l event)) [
    | inl (_, answered) ↦ (e, rw (h, answered) refl)
    | inr (f, raised) ↦ (f, rw (h, raised) refl)
  ]

  -- A loop of one call for each item makes them all, or it raises after some of the first.
  pub for_each-calls :
      {A : Type 0} (f : A → E) (xs : List A) (log : List E)
      → (for_each xs (λ x. call world (f x)) log ≡ record { log = log ++ map f xs; result = ok tt })
        ⊎ ((e : Error) × (done rest : List E) × (done ++ rest ≡ map f xs)
            × (for_each xs (λ x. call world (f x)) log
                ≡ record { log = log ++ done; result = err e }))
  for_each-calls f [] log = inl (rw (append-nil log) refl)
  for_each-calls f (x ∷ xs) log = elim (Result-cases (world log (f x))) [
    | inr (e, raised) ↦ inr (e, f x ∷ [], map f xs, refl, rw raised refl)
    | inl (_, answered) ↦ rw answered (elim (for_each-calls f xs (log ++ f x ∷ [])) [
      | inl all ↦ inl (all ∙ rw (append_assoc log (f x ∷ []) (map f xs)) refl)
      | inr (e, done, rest, parts, failed) ↦ inr (
        e,
        f x ∷ done,
        rest,
        ap (λ l. f x ∷ l) parts,
        failed ∙ rw (append_assoc log (f x ∷ []) done) refl,
      )
    ])
  ]
