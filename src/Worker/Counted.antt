-- ===== src/Worker/Counted.antt =====
-- How many items a worker of src/v2/worker.py has counted.
use dpi_engine_python.Prelude.{
  ℕ, suc, ◌+◌, ◌≡◌, refl, some, List, [], ◌∷◌, ◌++◌, arith, length, length-append,
}
use dpi_engine_python.Prelude.Eq.{nat_eq}
use dpi_engine_python.Prelude.Result.{Result, ok, err}
use dpi_engine_python.Queue.{push, pop_empty, pop_first}
use dpi_engine_python.Worker.{
  Pc, created, testing, popping, handling, finishing, exited, DpiWorker, new_worker, start, stop,
  handled, work_at, work,
}
use dpi_engine_python.Worker.Log.{in_hand, busy}

module _ {I R S : Type 0} where
  -- Of `received` items each is counted once, as processed or as failed, or still to come.
  pub record IsCounted (received : ℕ) (w : DpiWorker I R S) : Type 0 where
    pub counted :
        w.processed_count + w.error_count + length (in_hand w.pc) + length w.queue.items ≡ received
    pub unfinished : w.queue.unfinished ≡ length w.queue.items + busy w.pc
    pub unbounded : w.queue.maxsize ≡ 0

  pub new_worker-IsCounted : (id : ℕ) (state : S) → IsCounted 0 (new_worker id state)
  new_worker-IsCounted id state = record {
    counted = omega arith;
    unfinished = omega arith;
    unbounded = refl;
  }

  pub start-IsCounted : (n : ℕ) (w : DpiWorker I R S) → IsCounted n w → IsCounted n (start w)
  unfolding start
  start-IsCounted n w c = record {
    counted = ground (arith, c.counted);
    unfinished = ground (arith, c.unfinished);
    unbounded = c.unbounded;
  }

  pub stop-IsCounted : (n : ℕ) (w : DpiWorker I R S) → IsCounted n w → IsCounted n (stop w)
  unfolding stop
  stop-IsCounted n w c = record {
    counted = c.counted;
    unfinished = c.unfinished;
    unbounded = c.unbounded;
  }

  -- Another state of the processor.
  pub state-IsCounted :
      (n : ℕ) (w : DpiWorker I R S) (state : S)
      → IsCounted n w
      → IsCounted n (record w { state = state })
  state-IsCounted n w state c = record {
    counted = c.counted;
    unfinished = c.unfinished;
    unbounded = c.unbounded;
  }

  pub push-IsCounted :
      (n : ℕ) (w : DpiWorker I R S) (item : I)
      → IsCounted n w
      → (push w.queue item
          ≡ some (record w.queue {
            items = w.queue.items ++ item ∷ [];
            unfinished = w.queue.unfinished + 1;
          }))
        × IsCounted (suc n) (record w {
          queue = record w.queue {
            items = w.queue.items ++ item ∷ [];
            unfinished = w.queue.unfinished + 1;
          };
        })
  unfolding push
  push-IsCounted n w item c = (
    ground (arith, c.unbounded),
    record {
      counted = omega (arith, c.counted, length-append w.queue.items (item ∷ []));
      unfinished = omega (arith, c.unfinished, length-append w.queue.items (item ∷ []));
      unbounded = c.unbounded;
    },
  )

  -- A worker that owes nothing has counted all that it received.
  pub IsCounted-joined :
      (n : ℕ) (w : DpiWorker I R S)
      → IsCounted n w
      → w.queue.unfinished ≡ 0
      → w.processed_count + w.error_count ≡ n
  IsCounted-joined n w c h = at_pc w.pc refl
    where
      at_pc : (pc : Pc I) → w.pc ≡ pc → w.processed_count + w.error_count ≡ n
      at_pc pc at = ground (arith, c.counted, c.unfinished)

module _ {I R S : Type 0} (processor : S → I → Result R × S) where
  pop-IsCounted :
      (n : ℕ) (w : DpiWorker I R S) (items : List I)
      → w.queue.items ≡ items
      → w.pc ≡ popping
      → IsCounted n w
      → IsCounted n (work_at processor popping w)
  unfolding work_at
  pop-IsCounted n w [] e at c = rw (pop_empty w.queue e) (record {
    counted = ground (arith, c.counted);
    unfinished = ground (arith, c.unfinished);
    unbounded = c.unbounded;
  })
  pop-IsCounted n w (x ∷ xs) e at c = rw (pop_first w.queue e) (record {
    counted = ground (arith, c.counted);
    unfinished = ground (arith, c.unfinished);
    unbounded = c.unbounded;
  })

  handled-IsCounted :
      (n : ℕ) (w : DpiWorker I R S) (item : I) (r : Result R) (state : S)
      → w.pc ≡ handling item
      → IsCounted n w
      → IsCounted n (handled processor r state w)
  unfolding handled
  handled-IsCounted n w item (ok result) state at c = record {
    counted = ground (arith, c.counted);
    unfinished = ground (arith, c.unfinished);
    unbounded = c.unbounded;
  }
  handled-IsCounted n w item (err error) state at c = record {
    counted = ground (arith, c.counted);
    unfinished = ground (arith, c.unfinished);
    unbounded = c.unbounded;
  }

  work_at-IsCounted :
      (n : ℕ) (w : DpiWorker I R S) (pc : Pc I)
      → w.pc ≡ pc
      → IsCounted n w
      → IsCounted n (work_at processor pc w)
  unfolding work_at
  work_at-IsCounted n w created at c = c
  work_at-IsCounted n w testing at c = record {
    counted = ground (arith, c.counted);
    unfinished = ground (arith, c.unfinished);
    unbounded = ground (arith, c.unbounded);
  }
  work_at-IsCounted n w popping at c = pop-IsCounted n w w.queue.items refl at c
  work_at-IsCounted n w (handling item) at c =
      handled-IsCounted n w item (processor w.state item).0 (processor w.state item).1 at c
  work_at-IsCounted n w finishing at c = record {
    counted = ground (arith, c.counted, c.unfinished);
    unfinished = ground (arith, c.unfinished);
    unbounded = ground (arith, c.unbounded, c.unfinished);
  }
  work_at-IsCounted n w exited at c = c

  pub work-IsCounted :
      (n : ℕ) (w : DpiWorker I R S) → IsCounted n w → IsCounted n (work processor w)
  unfolding work
  work-IsCounted n w c = work_at-IsCounted n w w.pc refl c
