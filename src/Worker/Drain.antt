-- ===== src/Worker/Drain.antt =====
-- A worker of src/v2/worker.py that runs alone.
use dpi_engine_python.Prelude.{
  ℕ, zero, suc, ◌+◌, ◌*◌, ◌≤◌, ◌<◌, ◌≡◌, ◌≢◌, refl, ◌∙◌, inl, inr, Bool, true, false, List, [], ◌∷◌,
  arith, length, Bool-cases, Option-cases,
}
use dpi_engine_python.Prelude.Eq.{◌==◌, nat_eq}
use dpi_engine_python.Prelude.Result.{Result, ok, err}
use dpi_engine_python.Queue.{pop, pop_first, task_done, done_with}
use dpi_engine_python.Worker.{
  Pc, created, testing, popping, handling, finishing, exited, DpiWorker, handled, popped, finished,
  work_at, work,
}
use dpi_engine_python.Worker.Log.{log_of, blank, handle_all}
use dpi_engine_python.Worker.Progress.{IsFed, work-IsFed, IsFed-joined}

-- The thread is in its loop.
abbrev is_running : {I : Type 0} → Pc I → Bool
is_running created = false
is_running exited = false
is_running _ = true

-- The actions until the next test of an empty queue, besides four for each item in the queue.
abbrev actions_left : {I : Type 0} → Pc I → ℕ
actions_left popping = 2
actions_left testing = 3
actions_left finishing = 4
actions_left (handling item) = 5
actions_left _ = 0

module _ {I R S : Type 0} (processor : S → I → Result R × S) where
  -- Started, in the loop and not asked to stop.
  pub record IsRunning (w : DpiWorker I R S) : Type 0 where
    pub unstopped : w.stop_event ≡ false
    pub looping : is_running w.pc ≡ true

  abbrev pub actions : DpiWorker I R S → ℕ
  actions w = 4 * length w.queue.items + actions_left w.pc

  -- `count` actions of the worker, one after the other.
  abbrev pub work_on : ℕ → DpiWorker I R S → DpiWorker I R S
  work_on zero w = w
  work_on (suc count) w = work_on count (work processor w)

  record Advances (w next : DpiWorker I R S) : Type 0 where
    runs : IsRunning next
    fewer : suc (actions next) ≤ actions w

  handled-Advances :
      (item : I) (r : Result R) (state : S) (w : DpiWorker I R S)
      → w.pc ≡ handling item
      → w.stop_event ≡ false
      → Advances w (handled processor r state w)
  unfolding handled
  handled-Advances item (ok result) state w at h = record {
    runs = record { unstopped = h; looping = refl };
    fewer = rw at (omega arith);
  }
  handled-Advances item (err error) state w at h = record {
    runs = record { unstopped = h; looping = refl };
    fewer = rw at (omega arith);
  }

  popped-Advances :
      (w : DpiWorker I R S) (items : List I)
      → w.queue.items ≡ items
      → w.pc ≡ popping
      → w.stop_event ≡ false
      → length items ≢ 0
      → Advances w (popped processor (pop w.queue) w)
  unfolding popped
  popped-Advances w [] e at h owed = absurd (owed refl)
  popped-Advances w (item ∷ rest) e at h owed =
      rw (pop_first w.queue e) (record {
        runs = record { unstopped = h; looping = refl };
        fewer = rw (at, e) (omega arith);
      })

  finished-Advances :
      (w : DpiWorker I R S) (unfinished : ℕ)
      → w.queue.unfinished ≡ unfinished
      → w.pc ≡ finishing
      → w.stop_event ≡ false
      → unfinished ≢ 0
      → Advances w (finished processor (task_done w.queue) w)
  unfolding finished task_done done_with
  finished-Advances w zero e at h owed = absurd (owed refl)
  finished-Advances w (suc n) e at h owed =
      rw e (record { runs = record { unstopped = h; looping = refl }; fewer = rw at (omega arith) })

  work_at-Advances :
      (s : S) (received : List I) (w : DpiWorker I R S) (pc : Pc I)
      → w.pc ≡ pc
      → IsRunning w
      → IsFed processor s received w
      → w.queue.unfinished ≢ 0
      → Advances w (work_at processor pc w)
  unfolding work_at
  work_at-Advances s received w created at r f owed =
      absurd (let never : false ≡ true = rw at at r.looping in cc)
  work_at-Advances s received w exited at r f owed =
      absurd (let never : false ≡ true = rw at at r.looping in cc)
  work_at-Advances s received w testing at r f owed =
      rw r.unstopped
        (record { runs = record { unstopped = refl; looping = refl }; fewer = rw at (omega arith) })
  work_at-Advances s received w popping at r f owed =
      let full : w.queue.unfinished ≡ length w.queue.items = f.unfinished ∙ rw at (omega arith) in
      popped-Advances w w.queue.items refl at r.unstopped (λ e. owed (full ∙ e))
  work_at-Advances s received w (handling item) at r f owed =
      handled-Advances item (processor w.state item).0 (processor w.state item).1 w at r.unstopped
  work_at-Advances s received w finishing at r f owed =
      finished-Advances w w.queue.unfinished refl at r.unstopped owed

  running_actions : (w : DpiWorker I R S) → IsRunning w → 0 < actions w
  running_actions w r = let h = r.looping in ground arith

  drains_within :
      (fuel : ℕ) (s : S) (received : List I) (w : DpiWorker I R S)
      → actions w ≤ fuel
      → IsRunning w
      → IsFed processor s received w
      → (count : ℕ) × (count ≤ fuel)
        × ((work_on count w).queue.unfinished ≡ 0)
        × IsFed processor s received (work_on count w)
  unfolding work
  drains_within zero s received w bound r f =
      absurd (let some_left = running_actions w r in omega arith)
  drains_within (suc fuel) s received w bound r f = elim (Bool-cases (w.queue.unfinished == 0)) [
    | inl joined ↦ (0, omega arith, ground arith, f)
    | inr owed ↦
        let a = work_at-Advances s received w w.pc refl r f (λ e. ground arith) in
        let next = work processor w in
        let fed = work-IsFed processor s received w f in
        let (count, within, joined, done) =
          drains_within fuel s received next (omega (arith, a.fewer)) a.runs fed in
        (suc count, omega (arith, within), joined, done)
  ]

  -- A worker that is in its loop and not asked to stop gets its queue done, alone, within four actions
  -- for each item in the queue and five more; it has then handled, in order, all that it received.
  pub work_on_drains :
      (s : S) (received : List I) (w : DpiWorker I R S)
      → IsRunning w
      → IsFed processor s received w
      → (count : ℕ) × (count ≤ 4 * length w.queue.items + 5)
        × ((work_on count w).queue.unfinished ≡ 0)
        × (log_of (work_on count w) ≡ handle_all processor (blank s) received)
  work_on_drains s received w r f =
      let (count, within, joined, fed) = drains_within (actions w) s received w (omega arith) r f in
      (
        count,
        omega (arith, within, few_left w.pc),
        joined,
        IsFed-joined processor s received (work_on count w) fed joined,
      )
    where
      few_left : (pc : Pc I) → actions_left pc ≤ 5
      few_left pc = ground arith

  work_at-IsRunning :
      (s : S) (received : List I) (w : DpiWorker I R S) (pc : Pc I)
      → w.pc ≡ pc
      → IsRunning w
      → IsFed processor s received w
      → IsRunning (work_at processor pc w)
  unfolding work_at
  work_at-IsRunning s received w created at r f = r
  work_at-IsRunning s received w exited at r f = r
  work_at-IsRunning s received w testing at r f =
      rw r.unstopped (record { unstopped = refl; looping = refl })
  work_at-IsRunning s received w popping at r f =
      unfold popped in
      elim (Option-cases (pop w.queue)) [
        | inl nothing ↦ rw nothing (record { unstopped = r.unstopped; looping = refl })
        | inr ((item, queue), e) ↦ rw e (record { unstopped = r.unstopped; looping = refl })
      ]
  work_at-IsRunning s received w (handling item) at r f =
      (handled-Advances item (processor w.state item).0 (processor w.state item).1 w at
        r.unstopped).runs
  work_at-IsRunning s received w finishing at r f =
      let owed : w.queue.unfinished ≡ length w.queue.items + 1 = f.unfinished ∙ rw at refl in
      (finished-Advances w w.queue.unfinished refl at r.unstopped (λ e. omega arith)).runs

  -- A worker in its loop stays there until it is asked to stop.
  pub work-IsRunning :
      (s : S) (received : List I) (w : DpiWorker I R S)
      → IsRunning w
      → IsFed processor s received w
      → IsRunning (work processor w)
  unfolding work
  work-IsRunning s received w r f = work_at-IsRunning s received w w.pc refl r f
