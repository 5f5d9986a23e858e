-- ===== src/Pool.antt =====
-- src/v2/worker_pool.py: the workers, and the main thread that feeds them. The program runs as a
-- sequence of events, in any order that the scheduler likes.
pub mod History
pub mod Outcome
pub mod Drain
pub mod Shared
mod Tests
use dpi_engine_python.Balancer.{FlowKey, flow_balancer, get_worker}
use dpi_engine_python.Prelude.{
  ℕ, zero, suc, ◌+◌, Bool, true, false, ◌&&◌, Option, none, some, List, [], ◌∷◌, ◌++◌, ltb, leb,
  if◌then◌else◌,
}
use dpi_engine_python.Prelude.Eq.{◌==◌, nat_eq}
use dpi_engine_python.Prelude.Result.{Result, ok, err, value_error, ◌>>=◌}
use dpi_engine_python.Queue.{ThreadSafeQueue, push, is_joined}
use dpi_engine_python.Worker.{Pc, exited, DpiWorker, new_worker, start, stop, work}

-- The workers by their number; a number from `worker_count` on names none.
pub record WorkerPool (I R S : Type 0) : Type 0 where
  pub worker_count : ℕ
  pub workers : ℕ → DpiWorker I R S

abbrev pub update {ℓ} : {A : Type ℓ} → (ℕ → A) → ℕ → A → ℕ → A
update f i a j = if i == j then a else f j

module _ {I R S : Type 0} where
  -- With a factory: worker `i` has a processor of its own, in the state that the call made. The
  -- balancer's constructor repeats the check of the count.
  unfoldable pub worker_pool : ℕ → (ℕ → S) → Result (WorkerPool I R S)
  unfolding flow_balancer
  worker_pool worker_count factory = if worker_count == 0 then err value_error else do
    n ← flow_balancer worker_count
    ok (record { worker_count = n; workers = λ i. new_worker i (factory i) })

  unfoldable pub start_all : WorkerPool I R S → WorkerPool I R S
  start_all pool = record pool { workers = λ i. start (pool.workers i) }

  unfoldable pub stop_all : WorkerPool I R S → WorkerPool I R S
  stop_all pool = record pool { workers = λ i. stop (pool.workers i) }

  -- The queues have no bound, so that `push` does not block.
  unfoldable pub pushed : Option (ThreadSafeQueue I) → DpiWorker I R S → DpiWorker I R S
  pushed none w = w
  pushed (some queue) w = record w { queue = queue }

  unfoldable pub submit : WorkerPool I R S → FlowKey → I → WorkerPool I R S × ℕ
  unfolding pushed
  submit pool flow item =
      let id = get_worker pool.worker_count flow in
      let w = pool.workers id in
      (record pool { workers = update pool.workers id (pushed (push w.queue item) w) }, id)

  -- Whether `wait_until_empty` returns for the first `n` queues.
  abbrev all_joined : ℕ → (ℕ → DpiWorker I R S) → Bool
  all_joined zero workers = true
  all_joined (suc n) workers = is_joined (workers n).queue && all_joined n workers

  unfoldable pub is_drained : WorkerPool I R S → Bool
  is_drained pool = all_joined pool.worker_count pool.workers

  unfoldable pub get_queue : WorkerPool I R S → ℕ → Result (ThreadSafeQueue I)
  get_queue pool worker_id =
      if leb pool.worker_count worker_id then err value_error else ok (pool.workers worker_id).queue

  -- One entry for each of the first `n` workers, in the order of their numbers.
  abbrev pub stats_below : ℕ → (ℕ → DpiWorker I R S) → List (ℕ × ℕ)
  stats_below zero workers = []
  stats_below (suc n) workers =
      stats_below n workers ++ ((workers n).worker_id, (workers n).processed_count) ∷ []

  unfoldable pub get_worker_stats : WorkerPool I R S → List (ℕ × ℕ)
  get_worker_stats pool = stats_below pool.worker_count pool.workers

  abbrev pub errors_below : ℕ → (ℕ → DpiWorker I R S) → List (ℕ × ℕ)
  errors_below zero workers = []
  errors_below (suc n) workers =
      let w = workers n in
      errors_below n workers
      ++ (if w.error_count == 0 then [] else (w.worker_id, w.error_count) ∷ [])

  unfoldable pub get_error_stats : WorkerPool I R S → List (ℕ × ℕ)
  get_error_stats pool = errors_below pool.worker_count pool.workers

  abbrev pub results_below : ℕ → (ℕ → DpiWorker I R S) → List R
  results_below zero workers = []
  results_below (suc n) workers = results_below n workers ++ (workers n).results

  unfoldable pub get_results : WorkerPool I R S → List R
  get_results pool = results_below pool.worker_count pool.workers

-- What can happen next: a call of the main thread, or an action of one worker.
pub data Event (I : Type 0) : Type 0 where
  starts : Event I
  submits : FlowKey → I → Event I
  works : ℕ → Event I
  stops : Event I

module _ {I R S : Type 0} (processor : S → I → Result R × S) where
  unfoldable pub happen : WorkerPool I R S → Event I → WorkerPool I R S
  unfolding start_all stop_all
  happen pool starts = start_all pool
  happen pool (submits flow item) = (submit pool flow item).0
  happen pool (works i) = record pool {
    workers = update pool.workers i (work processor (pool.workers i));
  }
  happen pool stops = stop_all pool

  unfoldable pub happen_all : WorkerPool I R S → List (Event I) → WorkerPool I R S
  happen_all pool [] = pool
  happen_all pool (event ∷ events) = happen_all (happen pool event) events
