-- ===== src/Pool/History.antt =====
-- What every worker of src/v2/worker_pool.py is fed with, for any interleaving of the threads.
use dpi_engine_python.Balancer.{FlowKey, get_worker}
use dpi_engine_python.Prelude.{
  ℕ, ◌≡◌, refl, sym, ap, ◌∙◌, subst, inl, inr, List, [], ◌∷◌, ◌++◌, arith, append_assoc, append-nil,
  Bool-cases, if◌then◌else◌,
}
use dpi_engine_python.Prelude.Eq.{◌==◌, nat_eq, beq-eq-true}
use dpi_engine_python.Prelude.Result.{Result, ok}
use dpi_engine_python.Worker.{new_worker}
use dpi_engine_python.Worker.Progress.{
  IsFed, new_worker-IsFed, start-IsFed, stop-IsFed, work-IsFed, push-IsFed,
}
use dpi_engine_python.Pool.{
  WorkerPool, worker_pool, submit, Event, starts, submits, works, stops, happen, happen_all,
}

-- The items that the events submit for worker `i` of `n`.
abbrev pub sent : {I : Type 0} → ℕ → ℕ → List (Event I) → List I
sent n i [] = []
sent n i (submits flow item ∷ events) =
    if get_worker n flow == i then item ∷ sent n i events else sent n i events
sent n i (starts ∷ events) = sent n i events
sent n i (works _ ∷ events) = sent n i events
sent n i (stops ∷ events) = sent n i events

pub sent-cons :
    {I : Type 0} (n i : ℕ) (event : Event I) (events : List (Event I))
    → sent n i (event ∷ events) ≡ sent n i (event ∷ []) ++ sent n i events
sent-cons n i (submits flow item) events = ground arith
sent-cons n i starts events = refl
sent-cons n i (works j) events = refl
sent-cons n i stops events = refl

module _ {I R S : Type 0} (processor : S → I → Result R × S) (factory : ℕ → S) (n i : ℕ) where
  abbrev Fed : List I → WorkerPool I R S → Type 0
  Fed received pool = IsFed processor (factory i) received (pool.workers i)

  submit-Fed :
      (received : List I) (pool : WorkerPool I R S) (flow : FlowKey) (item : I)
      → pool.worker_count ≡ n
      → Fed received pool
      → Fed (received ++ sent n i (submits flow item ∷ [])) (submit pool flow item).0
  unfolding submit
  submit-Fed received pool flow item e f = elim (Bool-cases (get_worker n flow == i)) [
    | inr other ↦ rw (e, other, append-nil received) f
    | inl mine ↦
        let here = beq-eq-true (get_worker n flow) i mine in
        let (done, fed) = push-IsFed processor (factory i) received (pool.workers i) item f in
        rw (e, mine, here) (rw done fed)
  ]

  pub happen-Fed :
      (received : List I) (pool : WorkerPool I R S) (event : Event I)
      → pool.worker_count ≡ n
      → Fed received pool
      → Fed (received ++ sent n i (event ∷ [])) (happen processor pool event)
  unfolding happen
  happen-Fed received pool starts e f =
      rw (append-nil received) (start-IsFed processor (factory i) received (pool.workers i) f)
  happen-Fed received pool (submits flow item) e f = submit-Fed received pool flow item e f
  happen-Fed received pool (works j) e f = elim (Bool-cases (j == i)) [
    | inr other ↦ rw (append-nil received, other) f
    | inl mine ↦
        let here = beq-eq-true j i mine in
        rw (append-nil received, mine, here)
          (work-IsFed processor (factory i) received (pool.workers i) f)
  ]
  happen-Fed received pool stops e f =
      rw (append-nil received) (stop-IsFed processor (factory i) received (pool.workers i) f)

  pub happen-count :
      (pool : WorkerPool I R S) (event : Event I)
      → (happen processor pool event).worker_count ≡ pool.worker_count
  unfolding happen submit
  happen-count pool starts = refl
  happen-count pool (submits flow item) = refl
  happen-count pool (works j) = refl
  happen-count pool stops = refl

  happen_all-Fed :
      (events : List (Event I)) (received : List I) (pool : WorkerPool I R S)
      → pool.worker_count ≡ n
      → Fed received pool
      → Fed (received ++ sent n i events) (happen_all processor pool events)
  unfolding happen_all
  happen_all-Fed [] received pool e f = rw (append-nil received) f
  happen_all-Fed (event ∷ events) received pool e f =
      let now = happen-Fed received pool event e f in
      let later =
        happen_all-Fed events (received ++ sent n i (event ∷ [])) (happen processor pool event)
          (happen-count pool event ∙ e) now in
      let split =
        append_assoc received (sent n i (event ∷ [])) (sent n i events)
        ∙ ap (◌++◌ received) (sym (sent-cons n i event events)) in
      subst (λ l. Fed l (happen_all processor (happen processor pool event) events)) split later

  pub worker_pool-Fed :
      (pool : WorkerPool I R S)
      → worker_pool n factory ≡ ok pool
      → (pool.worker_count ≡ n) × Fed [] pool
  unfolding worker_pool
  worker_pool-Fed pool made = elim (Bool-cases (n == 0)) [
    | inl zero_count ↦ absurd (ground arith)
    | inr positive ↦
        let same : pool ≡ record { worker_count = n; workers = λ j. new_worker j (factory j) } =
          ground arith in
        rw same (refl, new_worker-IsFed processor i (factory i))
  ]

  -- Whatever the interleaving, each worker of a new pool has handled a prefix of what was submitted
  -- for it, one item after the other and in order; the rest is in its hands or in its queue.
  pub happen_all-IsFed :
      (pool : WorkerPool I R S) (events : List (Event I))
      → worker_pool n factory ≡ ok pool
      → IsFed processor (factory i) (sent n i events) ((happen_all processor pool events).workers i)
  happen_all-IsFed pool events made =
      let (e, f) = worker_pool-Fed pool made in happen_all-Fed events [] pool e f

  keeps_count :
      (events : List (Event I)) (pool : WorkerPool I R S)
      → (happen_all processor pool events).worker_count ≡ pool.worker_count
  unfolding happen_all
  keeps_count [] pool = refl
  keeps_count (event ∷ events) pool =
      keeps_count events (happen processor pool event) ∙ happen-count pool event

  pub happen_all-count :
      (pool : WorkerPool I R S) (events : List (Event I))
      → worker_pool n factory ≡ ok pool
      → (happen_all processor pool events).worker_count ≡ n
  happen_all-count pool events made = keeps_count events pool ∙ (worker_pool-Fed pool made).0
