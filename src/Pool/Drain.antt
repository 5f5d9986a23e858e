-- ===== src/Pool/Drain.antt =====
-- How the workers of src/v2/worker_pool.py come to finish, for `wait_until_empty`.
use dpi_engine_python.Balancer.{FlowKey, get_worker}
use dpi_engine_python.Pool.{
  WorkerPool, worker_pool, pushed, submit, all_joined, is_drained, Event, starts, submits, works,
  stops, happen, happen_all,
}
use dpi_engine_python.Pool.History.{
  sent, happen-Fed, happen-count, happen_all-count, happen_all-IsFed, worker_pool-Fed,
}
use dpi_engine_python.Pool.Outcome.{submissions}
use dpi_engine_python.Prelude.{
  ℕ, zero, suc, ◌≤◌, ◌<◌, ◌≡◌, refl, ap, ◌∙◌, inl, inr, Bool, true, false, Option, none, some, List,
  [], ◌∷◌, ◌++◌, arith, replicate, Bool-cases,
}
use dpi_engine_python.Prelude.Eq.{◌==◌, nat_eq, beq-eq-true, beq_refl}
use dpi_engine_python.Prelude.Result.{Result, ok}
use dpi_engine_python.Queue.{ThreadSafeQueue}
use dpi_engine_python.Worker.{DpiWorker, new_worker, start}
use dpi_engine_python.Worker.Drain.{IsRunning, work-IsRunning, work_on, work_on_drains}
use dpi_engine_python.Worker.Progress.{IsFed}

module _ {I R S : Type 0} (processor : S → I → Result R × S) where
  happen_all-append :
      (pool : WorkerPool I R S) (first second : List (Event I))
      → happen_all processor pool (first ++ second)
        ≡ happen_all processor (happen_all processor pool first) second
  unfolding happen_all
  happen_all-append pool [] second = refl
  happen_all-append pool (event ∷ first) second =
      happen_all-append (happen processor pool event) first second

  -- `count` actions of worker `i` in a row.
  abbrev alone : ℕ → ℕ → List (Event I)
  alone count i = replicate count (works i)

  submissions-append :
      (first second : List (Event I))
      → submissions (first ++ second) ≡ submissions first ++ submissions second
  submissions-append [] second = refl
  submissions-append (submits flow item ∷ first) second =
      ap (◌∷◌ (flow, item)) (submissions-append first second)
  submissions-append (starts ∷ first) second = submissions-append first second
  submissions-append (works i ∷ first) second = submissions-append first second
  submissions-append (stops ∷ first) second = submissions-append first second

  submissions-alone : (count i : ℕ) → submissions (alone count i) ≡ []
  submissions-alone zero i = refl
  submissions-alone (suc count) i = submissions-alone count i

  alone-same :
      (count i : ℕ) (pool : WorkerPool I R S)
      → (happen_all processor pool (alone count i)).workers i
        ≡ work_on processor count (pool.workers i)
  unfolding happen_all happen
  alone-same zero i pool = refl
  alone-same (suc count) i pool =
      alone-same count i (happen processor pool (works i))
      ∙ ap (work_on processor count) (rw (beq_refl i) refl)

  alone-other :
      (count i j : ℕ) (pool : WorkerPool I R S)
      → (i == j) ≡ false
      → (happen_all processor pool (alone count i)).workers j ≡ pool.workers j
  unfolding happen_all happen
  alone-other zero i j pool h = refl
  alone-other (suc count) i j pool h =
      alone-other count i j (happen processor pool (works i)) h ∙ rw h refl

  -- The worker is in its loop, not asked to stop, and has taken part of what it was sent.
  pub record IsAlive (w : DpiWorker I R S) : Type 0 where
    pub start_state : S
    pub received : List I
    pub runs : IsRunning processor w
    pub fed : IsFed processor start_state received w

  record Drained (m : ℕ) (pool : WorkerPool I R S) : Type 0 where
    events : List (Event I)
    submits_nothing : submissions events ≡ []
    joined : (i : ℕ) → i < m → ((happen_all processor pool events).workers i).queue.unfinished ≡ 0
    others : (i : ℕ) → m ≤ i → (happen_all processor pool events).workers i ≡ pool.workers i

  drain_below :
      (m : ℕ) (pool : WorkerPool I R S)
      → ((i : ℕ) → i < m → IsAlive (pool.workers i))
      → Drained m pool
  unfolding happen_all
  drain_below zero pool alive = record {
    events = [];
    submits_nothing = refl;
    joined = λ i lt. absurd (omega arith);
    others = λ i le. refl;
  }
  drain_below (suc m) pool alive =
      let d = drain_below m pool (λ i lt. alive i (omega arith)) in
      let middle = happen_all processor pool d.events in
      let a = alive m (omega arith) in
      let (count, _, done, _) =
        work_on_drains processor a.start_state a.received (pool.workers m) a.runs a.fed in
      let own =
        alone-same count m middle ∙ ap (work_on processor count) (d.others m (omega arith)) in
      record {
        events = d.events ++ alone count m;
        submits_nothing =
            submissions-append d.events (alone count m)
            ∙ rw (d.submits_nothing, submissions-alone count m) refl;
        joined = λ i lt.
            rw (happen_all-append pool d.events (alone count m)) (elim (Bool-cases (m == i)) [
              | inl same ↦ rw (← beq-eq-true m i same, own) done
              | inr other ↦ rw (alone-other count m i middle other) (d.joined i (ground arith))
            ]);
        others = λ i le.
            rw (happen_all-append pool d.events (alone count m))
              (alone-other count m i middle (ground arith) ∙ d.others i (omega arith));
      }

-- Nobody has asked the workers to stop.
abbrev pub unstopped : {I : Type 0} → List (Event I) → Bool
unstopped [] = true
unstopped (stops ∷ events) = false
unstopped (_ ∷ events) = unstopped events

module _ {I R S : Type 0} (processor : S → I → Result R × S) (factory : ℕ → S) (n i : ℕ) where
  submit-IsRunning :
      (pool : WorkerPool I R S) (flow : FlowKey) (item : I)
      → IsRunning processor (pool.workers i)
      → IsRunning processor ((submit pool flow item).0.workers i)
  unfolding submit pushed
  submit-IsRunning pool flow item r = elim (Bool-cases (get_worker pool.worker_count flow == i)) [
    | inr other ↦ rw other r
    | inl mine ↦ rw (mine, beq-eq-true _ i mine) (pushed-IsRunning _ (pool.workers i) r)
  ]
    where
      pushed-IsRunning :
          (queue : Option (ThreadSafeQueue I)) (w : DpiWorker I R S)
          → IsRunning processor w
          → IsRunning processor (pushed queue w)
      pushed-IsRunning none w r = r
      pushed-IsRunning (some queue) w r = record { unstopped = r.unstopped; looping = r.looping }

  start-IsRunning : (w : DpiWorker I R S) → IsRunning processor w → IsRunning processor (start w)
  unfolding start
  start-IsRunning w r = record {
    unstopped = r.unstopped;
    looping = let h = r.looping in ground arith;
  }

  happen_all-IsRunning :
      (events : List (Event I)) (received : List I) (pool : WorkerPool I R S)
      → unstopped events ≡ true
      → pool.worker_count ≡ n
      → IsFed processor (factory i) received (pool.workers i)
      → IsRunning processor (pool.workers i)
      → IsRunning processor ((happen_all processor pool events).workers i)
  unfolding happen_all happen
  happen_all-IsRunning [] received pool h e f r = r
  happen_all-IsRunning (stops ∷ events) received pool h e f r = absurd cc
  happen_all-IsRunning (starts ∷ events) received pool h e f r =
      happen_all-IsRunning events _ (happen processor pool starts) h e
        (happen-Fed processor factory n i received pool starts e f)
        (start-IsRunning (pool.workers i) r)
  happen_all-IsRunning (submits flow item ∷ events) received pool h e f r =
      happen_all-IsRunning events _ (happen processor pool (submits flow item)) h
        (happen-count processor factory n i pool (submits flow item) ∙ e)
        (happen-Fed processor factory n i received pool (submits flow item) e f)
        (submit-IsRunning pool flow item r)
  happen_all-IsRunning (works j ∷ events) received pool h e f r =
      happen_all-IsRunning events _ (happen processor pool (works j)) h e
        (happen-Fed processor factory n i received pool (works j) e f)
        (elim (Bool-cases (j == i)) [
          | inr other ↦ rw other r
          | inl mine ↦
              rw (mine, beq-eq-true j i mine)
                (work-IsRunning processor (factory i) received (pool.workers i) r f)
        ])

module _ {I R S : Type 0} (processor : S → I → Result R × S) (factory : ℕ → S) where
  all_joined-true :
      (m : ℕ) (workers : ℕ → DpiWorker I R S)
      → ((i : ℕ) → i < m → (workers i).queue.unfinished ≡ 0)
      → all_joined m workers ≡ true
  all_joined-true zero workers h = refl
  all_joined-true (suc m) workers h =
      let last = h m (omega arith) in
      let before = all_joined-true m workers (λ i lt. h i (omega arith)) in rw (last, before) refl

  worker_pool-workers :
      (n i : ℕ) (pool : WorkerPool I R S)
      → worker_pool n factory ≡ ok pool
      → pool.workers i ≡ new_worker i (factory i)
  unfolding worker_pool
  worker_pool-workers n i pool made = elim (Bool-cases (n == 0)) [
    | inl zero_count ↦ absurd (ground arith)
    | inr positive ↦
        let same : pool ≡ record { worker_count = n; workers = λ j. new_worker j (factory j) } =
          ground arith in
        ap (λ (p : WorkerPool I R S). p.workers i) same
  ]

  started-IsAlive :
      (n i : ℕ) (pool : WorkerPool I R S) (events : List (Event I))
      → worker_pool n factory ≡ ok pool
      → unstopped events ≡ true
      → IsAlive processor ((happen_all processor pool (starts ∷ events)).workers i)
  unfolding happen_all happen start
  started-IsAlive n i pool events made h =
      let (e, f) = worker_pool-Fed processor factory n i pool made in
      let new = worker_pool-workers n i pool made in
      let first : IsRunning processor (start (pool.workers i)) =
        rw new (record { unstopped = refl; looping = refl }) in
      let begun = happen-Fed processor factory n i [] pool starts e f in
      record {
        start_state = factory i;
        received = sent n i (starts ∷ events);
        runs =
            happen_all-IsRunning processor factory n i events _ (happen processor pool starts) h e
              begun first;
        fed = happen_all-IsFed processor factory n i pool (starts ∷ events) made;
      }

  -- Once a new pool is started, whatever happens then short of a stop, the workers alone can go on so
  -- that the pool is drained: there is a sequence of events that submits nothing after which
  -- `wait_until_empty` returns.
  pub can_drain :
      (n : ℕ) (pool : WorkerPool I R S) (events : List (Event I))
      → worker_pool n factory ≡ ok pool
      → unstopped events ≡ true
      → (more : List (Event I)) × (submissions more ≡ [])
        × (is_drained (happen_all processor pool (starts ∷ (events ++ more))) ≡ true)
  unfolding is_drained
  can_drain n pool events made h =
      let now = happen_all processor pool (starts ∷ events) in
      let d = drain_below processor n now (λ i lt. started-IsAlive n i pool events made h) in
      let last = happen_all processor now d.events in
      let joined = all_joined-true n last.workers d.joined in
      let count =
        happen_all-count processor factory n 0 pool (starts ∷ (events ++ d.events)) made in
      let split = happen_all-append processor pool (starts ∷ events) d.events in
      (d.events, d.submits_nothing, rw count (rw split joined))
