-- ===== src/Pool/Shared/Conserves.antt =====
-- What the workers of a pool of either kind have counted.
use dpi_engine_python.Balancer.{FlowKey, get_worker}
use dpi_engine_python.Prelude.{
  ℕ, zero, suc, ◌+◌, ◌<◌, ◌≡◌, refl, ap, ◌∙◌, subst, inl, inr, Bool, true, false, Option, none,
  some, List, [], ◌∷◌, arith, Bool-cases, length, length-append,
}
use dpi_engine_python.Prelude.Eq.{◌==◌, nat_eq, beq-eq-true}
use dpi_engine_python.Prelude.Result.{Result, ok}
use dpi_engine_python.Worker.{new_worker}
use dpi_engine_python.Worker.Counted.{
  IsCounted, new_worker-IsCounted, start-IsCounted, stop-IsCounted, state-IsCounted, push-IsCounted,
  IsCounted-joined, work-IsCounted,
}
use dpi_engine_python.Pool.{
  WorkerPool, worker_pool, is_drained, submit, Event, starts, submits, works, stops, happen,
}
use dpi_engine_python.Pool.History.{sent, sent-cons}
use dpi_engine_python.Pool.Outcome.{
  joined_at, submissions, sent-assigned, handled_below, assigned_below, assigned_all,
}
use dpi_engine_python.Pool.Shared.{
  Made, made_with, make_pool, happen_shared, happen_in, happen_all_in,
}

add-zero : (n : ℕ) → n + 0 ≡ n
add-zero n = omega arith

zero-add : (n : ℕ) → 0 + n ≡ n
zero-add n = omega arith

module _ {I R S : Type 0} where
  -- The pool that the constructor makes has workers with nothing counted.
  make_pool-made :
      (n : ℕ) (state : Option S) (factory : Option (ℕ → S)) (m : Made I R S)
      → make_pool n state factory ≡ ok m
      → (0 < n) × (m.pool.worker_count ≡ n) × ((i : ℕ) → IsCounted 0 (m.pool.workers i))
  unfolding make_pool made_with worker_pool
  make_pool-made n state (some f) m made = elim (Bool-cases (n == 0)) [
    | inl zero_count ↦ absurd (ground arith)
    | inr positive ↦
        let same : m.pool ≡ record { worker_count = n; workers = λ j. new_worker j (f j) } =
          ground arith in
        (ground arith, rw same refl, rw same (λ i. new_worker-IsCounted i (f i)))
  ]
  make_pool-made n (some state) none m made = elim (Bool-cases (n == 0)) [
    | inl zero_count ↦ absurd (ground arith)
    | inr positive ↦
        let same : m.pool ≡ record { worker_count = n; workers = λ j. new_worker j state } =
          ground arith in
        (ground arith, rw same refl, rw same (λ i. new_worker-IsCounted i state))
  ]
  make_pool-made n none none m made = absurd (ground arith)

module _ {I R S : Type 0} (processor : S → I → Result R × S) where
  submit-IsCounted :
      (n i received : ℕ) (pool : WorkerPool I R S) (flow : FlowKey) (item : I)
      → pool.worker_count ≡ n
      → IsCounted received (pool.workers i)
      → IsCounted
          (received + length (sent n i (submits flow item ∷ [])))
          ((submit pool flow item).0.workers i)
  unfolding submit
  submit-IsCounted n i received pool flow item e c = elim (Bool-cases (get_worker n flow == i)) [
    | inr other ↦ rw (e, other, add-zero received) c
    | inl mine ↦
        let here = beq-eq-true (get_worker n flow) i mine in
        let one : received + 1 ≡ suc received = omega arith in
        let (done, counted) = push-IsCounted received (pool.workers i) item c in
        rw (e, mine, here) (rw (done, one) counted)
  ]

  works-IsCounted :
      (i j received : ℕ) (pool : WorkerPool I R S)
      → IsCounted received (pool.workers i)
      → IsCounted received ((happen processor pool (works j)).workers i)
  unfolding happen
  works-IsCounted i j received pool c = elim (Bool-cases (j == i)) [
    | inr other ↦ rw other c
    | inl mine ↦
        rw (mine, beq-eq-true j i mine) (work-IsCounted processor received (pool.workers i) c)
  ]

  happen-IsCounted :
      (n i received : ℕ) (pool : WorkerPool I R S) (event : Event I)
      → pool.worker_count ≡ n
      → IsCounted received (pool.workers i)
      → IsCounted
          (received + length (sent n i (event ∷ [])))
          ((happen processor pool event).workers i)
  unfolding happen
  happen-IsCounted n i received pool (submits flow item) e c =
      submit-IsCounted n i received pool flow item e c
  happen-IsCounted n i received pool starts e c =
      rw (add-zero received) (start-IsCounted received (pool.workers i) c)
  happen-IsCounted n i received pool (works j) e c =
      rw (add-zero received) (works-IsCounted i j received pool c)
  happen-IsCounted n i received pool stops e c =
      rw (add-zero received) (stop-IsCounted received (pool.workers i) c)

  -- One event in a pool of either kind.
  happen_in-IsCounted :
      (shared : Bool) (n i received : ℕ) (pool : WorkerPool I R S) (event : Event I)
      → pool.worker_count ≡ n
      → IsCounted received (pool.workers i)
      → IsCounted
          (received + length (sent n i (event ∷ [])))
          ((happen_in processor shared pool event).workers i)
  unfolding happen_shared
  happen_in-IsCounted false n i received pool event e c =
      happen-IsCounted n i received pool event e c
  happen_in-IsCounted true n i received pool (works j) e c =
      let next = happen processor pool (works j) in
      state-IsCounted (received + 0) (next.workers i) (next.workers j).state
        (happen-IsCounted n i received pool (works j) e c)
  happen_in-IsCounted true n i received pool starts e c =
      happen-IsCounted n i received pool starts e c
  happen_in-IsCounted true n i received pool (submits flow item) e c =
      happen-IsCounted n i received pool (submits flow item) e c
  happen_in-IsCounted true n i received pool stops e c =
      happen-IsCounted n i received pool stops e c

  happen_in-count :
      (shared : Bool) (pool : WorkerPool I R S) (event : Event I)
      → (happen_in processor shared pool event).worker_count ≡ pool.worker_count
  unfolding happen_shared happen submit
  happen_in-count true pool starts = refl
  happen_in-count true pool (submits flow item) = refl
  happen_in-count true pool (works j) = refl
  happen_in-count true pool stops = refl
  happen_in-count false pool starts = refl
  happen_in-count false pool (submits flow item) = refl
  happen_in-count false pool (works j) = refl
  happen_in-count false pool stops = refl

  happen_all_in-IsCounted :
      (shared : Bool) (n i received : ℕ) (pool : WorkerPool I R S) (events : List (Event I))
      → pool.worker_count ≡ n
      → IsCounted received (pool.workers i)
      → IsCounted
          (received + length (sent n i events))
          ((happen_all_in processor shared pool events).workers i)
  unfolding happen_all_in
  happen_all_in-IsCounted shared n i received pool [] e c = rw (add-zero received) c
  happen_all_in-IsCounted shared n i received pool (event ∷ events) e c =
      let now = happen_in-IsCounted shared n i received pool event e c in
      let later =
        happen_all_in-IsCounted shared n i (received + length (sent n i (event ∷ [])))
          (happen_in processor shared pool event) events (happen_in-count shared pool event ∙ e)
          now in
      let split : received + length (sent n i (event ∷ [])) + length (sent n i events)
          ≡ received + length (sent n i (event ∷ events)) =
        rw (sent-cons n i event events)
          (omega (arith, length-append (sent n i (event ∷ [])) (sent n i events))) in
      subst
        (λ r. IsCounted r (
          (happen_all_in processor shared (happen_in processor shared pool event) events).workers
            i))
        split later

  happen_all_in-count :
      (shared : Bool) (pool : WorkerPool I R S) (events : List (Event I))
      → (happen_all_in processor shared pool events).worker_count ≡ pool.worker_count
  unfolding happen_all_in
  happen_all_in-count shared pool [] = refl
  happen_all_in-count shared pool (event ∷ events) =
      happen_all_in-count shared (happen_in processor shared pool event) events
      ∙ happen_in-count shared pool event

  handled_sent :
      (count n : ℕ) (pool : WorkerPool I R S) (events : List (Event I))
      → ((i : ℕ)
          → i < n
          → (pool.workers i).processed_count + (pool.workers i).error_count
            ≡ length (sent count i events))
      → handled_below n pool.workers ≡ assigned_below count n (submissions events)
  handled_sent count zero pool events h = refl
  handled_sent count (suc n) pool events h =
      let before = handled_sent count n pool events (λ i lt. h i (omega arith)) in
      let last = h n (omega arith) ∙ ap length (sent-assigned count n events) in
      omega (arith, before, last)

  -- No item is lost and none is counted twice, in a pool whose workers have processors of their own
  -- and in one whose workers share a processor: once a new pool is drained, the items processed and
  -- the items that failed add up to the items submitted.
  pub make_pool-conserves :
      (n : ℕ) (state : Option S) (factory : Option (ℕ → S)) (m : Made I R S)
      (events : List (Event I))
      → make_pool n state factory ≡ ok m
      → is_drained (happen_all_in processor m.is_shared m.pool events) ≡ true
      → handled_below n (happen_all_in processor m.is_shared m.pool events).workers
        ≡ length (submissions events)
  unfolding is_drained
  make_pool-conserves n state factory m events made drained =
      let (positive, count, fresh) = make_pool-made n state factory m made in
      let last = happen_all_in processor m.is_shared m.pool events in
      let same = happen_all_in-count m.is_shared m.pool events ∙ count in
      handled_sent n n last events (λ i lt.
        IsCounted-joined (0 + length (sent n i events)) (last.workers i)
          (happen_all_in-IsCounted m.is_shared n i 0 m.pool events count (fresh i))
          (joined_at n i last.workers (rw same at drained) lt)
        ∙ zero-add (length (sent n i events)))
      ∙ assigned_all n (submissions events) positive
