-- ===== src/Worker.antt =====
-- src/v2/worker.py: a worker thread, one action at a time. What the processor does is a parameter,
-- with the state that it keeps.
pub mod Log
pub mod Counted
pub mod Progress
pub mod Drain
use dpi_engine_python.Prelude.{
  ℕ, suc, ◌+◌, Bool, true, false, Option, none, some, List, [], ◌∷◌, ◌++◌, if◌then◌else◌,
}
use dpi_engine_python.Prelude.Result.{Error, Result, ok, err}
use dpi_engine_python.Queue.{ThreadSafeQueue, new_queue, pop, task_done}

-- Where the thread stands in `_run`.
pub data Pc (I : Type 0) : Type 0 where
  created : Pc I  -- before `start`
  testing : Pc I  -- the test of the `while`
  popping : Pc I  -- in `self.queue.pop`
  handling : I → Pc I  -- at the call of the processor
  finishing : Pc I  -- in the `finally`
  exited : Pc I

pub record DpiWorker (I R S : Type 0) : Type 0 where
  pub worker_id : ℕ
  pub queue : ThreadSafeQueue I
  pub pc : Pc I
  pub stop_event : Bool
  pub processed_count : ℕ
  pub error_count : ℕ
  pub last_error : Option Error
  pub results : List R
  pub state : S  -- of the processor

abbrev pub new_worker : {I R S : Type 0} → ℕ → S → DpiWorker I R S
new_worker id state = record {
  worker_id = id;
  queue = new_queue 0;
  pc = created;
  stop_event = false;
  processed_count = 0;
  error_count = 0;
  last_error = none;
  results = [];
  state = state;
}

module _ {I R S : Type 0} where
  -- A thread is started once; the code never starts one again.
  unfoldable pub start : DpiWorker I R S → DpiWorker I R S
  start w = record w { pc = elim w.pc [ created ↦ testing | other ↦ other ] }

  unfoldable pub stop : DpiWorker I R S → DpiWorker I R S
  stop w = record w { stop_event = true }

module _ {I R S : Type 0} (processor : S → I → Result R × S) where
  -- The `try` around the processor. What it did to its state stays done when it raises.
  unfoldable pub handled : Result R → S → DpiWorker I R S → DpiWorker I R S
  handled (ok result) state w = record w {
    pc = finishing;
    state = state;
    results = w.results ++ result ∷ [];
    processed_count = w.processed_count + 1;
  }
  handled (err error) state w = record w {
    pc = finishing;
    state = state;
    error_count = w.error_count + 1;
    last_error = some error;
  }

  unfoldable pub popped : Option (I × ThreadSafeQueue I) → DpiWorker I R S → DpiWorker I R S
  popped none w = record w { pc = testing }
  popped (some (item, queue)) w = record w { queue = queue; pc = handling item }

  -- `task_done` that raised would end the thread.
  unfoldable pub finished : Result (ThreadSafeQueue I) → DpiWorker I R S → DpiWorker I R S
  finished (ok queue) w = record w { queue = queue; pc = testing }
  finished (err error) w = record w { pc = exited }

  unfoldable pub work_at : Pc I → DpiWorker I R S → DpiWorker I R S
  unfolding handled popped finished pop task_done
  work_at created w = w
  work_at testing w = if w.stop_event then record w { pc = exited } else record w { pc = popping }
  work_at popping w = popped (pop w.queue) w
  work_at (handling item) w = let (result, state) = processor w.state item in handled result state w
  work_at finishing w = finished (task_done w.queue) w
  work_at exited w = w

  -- The next action of the thread.
  unfoldable pub work : DpiWorker I R S → DpiWorker I R S
  unfolding work_at
  work w = work_at w.pc w
