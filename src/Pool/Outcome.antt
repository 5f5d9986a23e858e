-- ===== src/Pool/Outcome.antt =====
-- What the main thread reads from the pool once `wait_until_empty` has returned.
use dpi_engine_python.Balancer.{FlowKey, get_worker}
use dpi_engine_python.Balancer.Direction.{get_worker-lt_pos}
use dpi_engine_python.Prelude.{
  ℕ, zero, suc, ◌+◌, ◌<◌, ◌≡◌, refl, ap, ◌∙◌, inl, inr, true, List, [], ◌∷◌, ◌++◌, arith,
  Bool-cases, if◌then◌else◌, length, ltb, lt→ltb,
}
use dpi_engine_python.Prelude.Eq.{◌==◌, nat_eq, beq-eq-true}
use dpi_engine_python.Prelude.Result.{Result, ok}
use dpi_engine_python.Worker.{DpiWorker}
use dpi_engine_python.Worker.Log.{Log, blank, handled_count, log_of, handle_all}
use dpi_engine_python.Worker.Progress.{IsFed-joined}
use dpi_engine_python.Pool.{
  WorkerPool, worker_pool, all_joined, is_drained, results_below, get_results, Event, starts,
  submits, works, stops, happen_all,
}
use dpi_engine_python.Pool.History.{sent, happen_all-IsFed, happen_all-count}

module _ {I R S : Type 0} where
  pub joined_at :
      (n i : ℕ) (workers : ℕ → DpiWorker I R S)
      → all_joined n workers ≡ true
      → i < n
      → (workers i).queue.unfinished ≡ 0
  joined_at zero i workers h lt = absurd (omega arith)
  joined_at (suc n) i workers h lt = elim (Bool-cases (n == i)) [
    | inl last ↦ rw (← beq-eq-true n i last) (ground arith)
    | inr other ↦ joined_at n i workers (ground arith) (ground arith)
  ]

-- The submissions among the events, in order.
abbrev pub submissions : {I : Type 0} → List (Event I) → List (FlowKey × I)
submissions [] = []
submissions (submits flow item ∷ events) = (flow, item) ∷ submissions events
submissions (starts ∷ events) = submissions events
submissions (works _ ∷ events) = submissions events
submissions (stops ∷ events) = submissions events

-- The submitted items that belong to worker `i` of `n`.
abbrev pub assigned : {I : Type 0} → ℕ → ℕ → List (FlowKey × I) → List I
assigned n i [] = []
assigned n i ((flow, item) ∷ rest) =
    if get_worker n flow == i then item ∷ assigned n i rest else assigned n i rest

pub sent-assigned :
    {I : Type 0} (n i : ℕ) (events : List (Event I))
    → sent n i events ≡ assigned n i (submissions events)
sent-assigned n i [] = refl
sent-assigned n i (submits flow item ∷ events) = rw (sent-assigned n i events)
sent-assigned n i (starts ∷ events) = sent-assigned n i events
sent-assigned n i (works j ∷ events) = sent-assigned n i events
sent-assigned n i (stops ∷ events) = sent-assigned n i events

-- Packets handled by the first `n` workers, with success or not.
abbrev pub handled_below : {I R S : Type 0} → ℕ → (ℕ → DpiWorker I R S) → ℕ
handled_below zero workers = 0
handled_below (suc n) workers =
    handled_below n workers + ((workers n).processed_count + (workers n).error_count)

module _ {I : Type 0} where
  abbrev pub assigned_below : ℕ → ℕ → List (FlowKey × I) → ℕ
  assigned_below count zero items = 0
  assigned_below count (suc n) items =
      assigned_below count n items + length (assigned count n items)

  assigned_below-cons :
      (count n : ℕ) (flow : FlowKey) (item : I) (items : List (FlowKey × I))
      → assigned_below count n ((flow, item) ∷ items)
        ≡ assigned_below count n items + (if ltb (get_worker count flow) n then 1 else 0)
  assigned_below-cons count zero flow item items = ground arith
  assigned_below-cons count (suc n) flow item items =
      ground (arith, assigned_below-cons count n flow item items)

  pub assigned_all :
      (count : ℕ) (items : List (FlowKey × I))
      → 0 < count
      → assigned_below count count items ≡ length items
  assigned_all count [] h = assigned_none count
    where
      assigned_none : (n : ℕ) → assigned_below count n [] ≡ 0
      assigned_none zero = refl
      assigned_none (suc n) = omega (arith, assigned_none n)
  assigned_all count ((flow, item) ∷ items) h =
      let inside = lt→ltb (get_worker count flow) count (get_worker-lt_pos count flow h) in
      assigned_below-cons count count flow item items
      ∙ rw inside (omega (arith, assigned_all count items h))

module _ {I R S : Type 0} (processor : S → I → Result R × S) (factory : ℕ → S) where
  -- What worker `i` of `n` has done if it handles its items one after the other.
  abbrev pub outcome : ℕ → ℕ → List (FlowKey × I) → Log R S
  outcome n i items = handle_all processor (blank (factory i)) (assigned n i items)

  -- Once a new pool is drained, each worker has the state, the results and the counts of handling
  -- the items submitted for it one after the other, whatever the interleaving of the threads was.
  pub drained_outcome :
      (n i : ℕ) (pool : WorkerPool I R S) (events : List (Event I))
      → worker_pool n factory ≡ ok pool
      → is_drained (happen_all processor pool events) ≡ true
      → i < n
      → log_of ((happen_all processor pool events).workers i) ≡ outcome n i (submissions events)
  unfolding is_drained
  drained_outcome n i pool events made drained lt =
      let last = happen_all processor pool events in
      let count = happen_all-count processor factory n i pool events made in
      let owed = joined_at n i last.workers (rw count at drained) lt in
      let fed = happen_all-IsFed processor factory n i pool events made in
      IsFed-joined processor (factory i) (sent n i events) (last.workers i) fed owed
      ∙ ap (handle_all processor (blank (factory i))) (sent-assigned n i events)

  -- The results of the first `n` workers, in the order of the workers.
  abbrev pub expected : ℕ → ℕ → List (FlowKey × I) → List R
  expected count zero items = []
  expected count (suc n) items = expected count n items ++ (outcome count n items).results

  results_expected :
      (count n : ℕ) (workers : ℕ → DpiWorker I R S) (items : List (FlowKey × I))
      → ((i : ℕ) → i < n → log_of (workers i) ≡ outcome count i items)
      → results_below n workers ≡ expected count n items
  results_expected count zero workers items h = refl
  results_expected count (suc n) workers items h =
      let last = ap (λ (l : Log R S). l.results) (h n (omega arith)) in
      let before = results_expected count n workers items (λ i lt. h i (omega arith)) in
      rw (before, last)

  -- The results of a new pool, once it is drained, are fixed by the submissions and their order
  -- alone: worker by worker, those of handling its items one after the other.
  pub get_results_drained :
      (n : ℕ) (pool : WorkerPool I R S) (events : List (Event I))
      → worker_pool n factory ≡ ok pool
      → is_drained (happen_all processor pool events) ≡ true
      → get_results (happen_all processor pool events) ≡ expected n n (submissions events)
  unfolding get_results
  get_results_drained n pool events made drained =
      let last = happen_all processor pool events in
      rw (happen_all-count processor factory n 0 pool events made) (
        results_expected n n last.workers (submissions events)
          (λ i lt. drained_outcome n i pool events made drained lt))

  handled_assigned :
      (count n : ℕ) (workers : ℕ → DpiWorker I R S) (items : List (FlowKey × I))
      → ((i : ℕ) → i < n → log_of (workers i) ≡ outcome count i items)
      → handled_below n workers ≡ assigned_below count n items
  handled_assigned count zero workers items h = refl
  handled_assigned count (suc n) workers items h =
      let before = handled_assigned count n workers items (λ i lt. h i (omega arith)) in
      let last = h n (omega arith) in
      let total = handled_count processor (blank (factory n)) (assigned count n items) in
      let processed = ap (λ (l : Log R S). l.processed + l.errors) last in
      omega (arith, before, processed, total)

  pub worker_pool_pos : (n : ℕ) (pool : WorkerPool I R S) → worker_pool n factory ≡ ok pool → 0 < n
  unfolding worker_pool
  worker_pool_pos n pool made = ground arith

  -- No packet is lost and none is handled twice: once a new pool is drained, the packets processed
  -- and the packets that failed add up to the packets submitted.
  pub drained_conserves :
      (n : ℕ) (pool : WorkerPool I R S) (events : List (Event I))
      → worker_pool n factory ≡ ok pool
      → is_drained (happen_all processor pool events) ≡ true
      → handled_below n (happen_all processor pool events).workers ≡ length (submissions events)
  drained_conserves n pool events made drained =
      handled_assigned n n (happen_all processor pool events).workers (submissions events)
        (λ i lt. drained_outcome n i pool events made drained lt)
      ∙ assigned_all n (submissions events) (worker_pool_pos n pool made)
