-- ===== src/Pool/Shared.antt =====
-- src/v2/worker_pool.py: the constructor with its two ways to give the workers a processor, and
-- a processor that all threads share. A call of it is one action here, as it is where the processor
-- does one atomic thing, such as an `append`.
pub mod Conserves
use dpi_engine_python.Prelude.{
  ℕ, Bool, true, false, Option, none, some, List, [], ◌∷◌, if◌then◌else◌,
}
use dpi_engine_python.Prelude.Eq.{◌==◌, nat_eq}
use dpi_engine_python.Prelude.Result.{Result, ok, err, value_error, ◌>>=◌}
use dpi_engine_python.Worker.{DpiWorker}
use dpi_engine_python.Pool.{WorkerPool, worker_pool, Event, starts, submits, works, stops, happen}

-- A pool, and whether its workers share one processor.
pub record Made (I R S : Type 0) : Type 0 where
  pub pool : WorkerPool I R S
  pub is_shared : Bool

module _ {I R S : Type 0} where
  -- A factory goes before a processor. Each is given by the state that its processors start in.
  unfoldable pub made_with : ℕ → Option S → Option (ℕ → S) → Result (Made I R S)
  made_with n processor (some factory) = do
    pool ← worker_pool n factory
    ok (record { pool = pool; is_shared = false })
  made_with n (some state) none = do
    pool ← worker_pool n (λ i. state)
    ok (record { pool = pool; is_shared = true })
  made_with n none none = err value_error

  -- `WorkerPool(worker_count, processor, processor_factory)`
  unfoldable pub make_pool : ℕ → Option S → Option (ℕ → S) → Result (Made I R S)
  make_pool worker_count processor factory =
      if worker_count == 0 then err value_error else made_with worker_count processor factory

  -- What a call leaves in the one processor is there for every worker.
  abbrev pub share : S → WorkerPool I R S → WorkerPool I R S
  share state pool = record pool { workers = λ i. record (pool.workers i) { state = state } }

module _ {I R S : Type 0} (processor : S → I → Result R × S) where
  unfoldable pub happen_shared : WorkerPool I R S → Event I → WorkerPool I R S
  happen_shared pool (works i) =
      let next = happen processor pool (works i) in share (next.workers i).state next
  happen_shared pool starts = happen processor pool starts
  happen_shared pool (submits flow item) = happen processor pool (submits flow item)
  happen_shared pool stops = happen processor pool stops

  -- In a pool of either kind.
  abbrev pub happen_in : Bool → WorkerPool I R S → Event I → WorkerPool I R S
  happen_in true pool event = happen_shared pool event
  happen_in false pool event = happen processor pool event

  unfoldable pub happen_all_in : Bool → WorkerPool I R S → List (Event I) → WorkerPool I R S
  happen_all_in shared pool [] = pool
  happen_all_in shared pool (event ∷ events) =
      happen_all_in shared (happen_in shared pool event) events
