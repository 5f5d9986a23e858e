-- ===== src/Queue.antt =====
-- src/v2/thread_safe_queue.py: `queue.Queue` behind the wrapper. An operation that would block has
-- no outcome yet.
use dpi_engine_python.Prelude.{
  ℕ, zero, suc, ◌+◌, ◌≡◌, Bool, ◌&&◌, Option, none, some, List, [], ◌∷◌, ◌++◌, length, ltb, leb,
  arith, if◌then◌else◌,
}
use dpi_engine_python.Prelude.Eq.{◌==◌, nat_eq}
use dpi_engine_python.Prelude.Result.{Result, ok, err, value_error}

-- `unfinished` counts the items put in for which `task_done` has not been called.
pub record ThreadSafeQueue (A : Type 0) : Type 0 where
  pub items : List A
  pub unfinished : ℕ
  pub maxsize : ℕ

abbrev pub new_queue : {A : Type 0} → ℕ → ThreadSafeQueue A
new_queue maxsize = record { items = []; unfinished = 0; maxsize = maxsize }

module _ {A : Type 0} where
  -- Blocks on a full queue; a `maxsize` of 0 sets no bound.
  unfoldable pub push : ThreadSafeQueue A → A → Option (ThreadSafeQueue A)
  push q item =
      if ltb 0 q.maxsize && leb q.maxsize (length q.items)
      then none
      else some (record q { items = q.items ++ item ∷ []; unfinished = q.unfinished + 1 })

  unfoldable pub take_first : List A → ThreadSafeQueue A → Option (A × ThreadSafeQueue A)
  take_first [] q = none
  take_first (item ∷ rest) q = some (item, record q { items = rest })

  -- None on an empty queue: the call blocks, and raises `Empty` when its timeout is over.
  unfoldable pub pop : ThreadSafeQueue A → Option (A × ThreadSafeQueue A)
  unfolding take_first
  pop q = take_first q.items q

  unfoldable pub done_with : ℕ → ThreadSafeQueue A → Result (ThreadSafeQueue A)
  done_with zero q = err value_error
  done_with (suc n) q = ok (record q { unfinished = n })

  -- One call too many raises.
  unfoldable pub task_done : ThreadSafeQueue A → Result (ThreadSafeQueue A)
  unfolding done_with
  task_done q = done_with q.unfinished q

  -- Whether `join` returns.
  abbrev pub is_joined : ThreadSafeQueue A → Bool
  is_joined q = q.unfinished == 0

  unfoldable pub empty : ThreadSafeQueue A → Bool
  empty q = length q.items == 0

  unfoldable pub size : ThreadSafeQueue A → ℕ
  size q = length q.items

  pub pop_empty : (q : ThreadSafeQueue A) → q.items ≡ [] → pop q ≡ none
  unfolding pop
  pop_empty q h = ground arith

  pub pop_first :
      (q : ThreadSafeQueue A) {item : A} {rest : List A}
      → q.items ≡ item ∷ rest
      → pop q ≡ some (item, record q { items = rest })
  unfolding pop
  pop_first q h = ground arith
