-- ===== src/Worker/Progress.antt =====
-- What a worker has done with the items it was sent, after any of its actions.
use dpi_engine_python.Prelude.{
  ℕ, ◌+◌, ◌≡◌, refl, sym, ap, ◌∙◌, some, List, [], ◌∷◌, ◌++◌, arith, length, length-append,
  append_assoc, append-nil,
}
use dpi_engine_python.Prelude.Eq.{nat_eq}
use dpi_engine_python.Prelude.Result.{Result, ok, err}
use dpi_engine_python.Queue.{push, pop_empty, pop_first}
use dpi_engine_python.Worker.{
  Pc, created, testing, popping, handling, finishing, exited, DpiWorker, new_worker, start, stop,
  handled, work_at, work,
}
use dpi_engine_python.Worker.Log.{
  blank, enter, in_hand, busy, length-eq-zero, idle-in_hand, log_of, handle_all, handle_all-snoc,
}

module _ {I R S : Type 0} (processor : S → I → Result R × S) where
  -- Of the items received, `past` are handled, in order; the others are in hand or in the queue.
  pub record IsFed (start_state : S) (received : List I) (w : DpiWorker I R S) : Type 0 where
    pub past : List I
    pub waiting : received ≡ past ++ (in_hand w.pc ++ w.queue.items)
    pub logged : log_of w ≡ handle_all processor (blank start_state) past
    pub unfinished : w.queue.unfinished ≡ length w.queue.items + busy w.pc
    pub unbounded : w.queue.maxsize ≡ 0

  pub new_worker-IsFed : (id : ℕ) (state : S) → IsFed state [] (new_worker id state)
  unfolding handle_all
  new_worker-IsFed id state = record {
    past = [];
    waiting = refl;
    logged = refl;
    unfinished = omega arith;
    unbounded = refl;
  }

  pub start-IsFed :
      (s : S) (received : List I) (w : DpiWorker I R S)
      → IsFed s received w
      → IsFed s received (start w)
  unfolding start
  start-IsFed s received w f = record {
    past = f.past;
    waiting = ground (arith, f.waiting);
    logged = ground (arith, f.logged);
    unfinished = ground (arith, f.unfinished);
    unbounded = f.unbounded;
  }

  pub stop-IsFed :
      (s : S) (received : List I) (w : DpiWorker I R S)
      → IsFed s received w
      → IsFed s received (stop w)
  unfolding stop
  stop-IsFed s received w f = record {
    past = f.past;
    waiting = f.waiting;
    logged = f.logged;
    unfinished = f.unfinished;
    unbounded = f.unbounded;
  }

  pop-IsFed :
      (s : S) (received : List I) (w : DpiWorker I R S) (items : List I)
      → w.queue.items ≡ items
      → w.pc ≡ popping
      → IsFed s received w
      → IsFed s received (work_at processor popping w)
  unfolding work_at
  pop-IsFed s received w [] e at f = rw (pop_empty w.queue e) (record {
    past = f.past;
    waiting = ground (arith, f.waiting);
    logged = f.logged;
    unfinished = ground (arith, f.unfinished);
    unbounded = f.unbounded;
  })
  pop-IsFed s received w (x ∷ xs) e at f = rw (pop_first w.queue e) (record {
    past = f.past;
    waiting = ground (arith, f.waiting);
    logged = f.logged;
    unfinished = ground (arith, f.unfinished);
    unbounded = f.unbounded;
  })

  entered :
      (s : S) (w : DpiWorker I R S) (past : List I) (item : I)
      → log_of w ≡ handle_all processor (blank s) past
      → handle_all processor (blank s) (past ++ item ∷ [])
        ≡ enter (processor w.state item).0 (processor w.state item).1 (log_of w)
  entered s w past item logged = handle_all-snoc processor (blank s) past item ∙ rw (← logged)

  handled-IsFed :
      (s : S) (received : List I) (w : DpiWorker I R S) (item : I) (r : Result R) (state : S)
      (past : List I)
      → received ≡ past ++ (item ∷ w.queue.items)
      → w.queue.unfinished ≡ length w.queue.items + 1
      → w.queue.maxsize ≡ 0
      → handle_all processor (blank s) (past ++ item ∷ []) ≡ enter r state (log_of w)
      → IsFed s received (handled processor r state w)
  unfolding handled
  handled-IsFed s received w item (ok result) state past waits u m e = record {
    past = past ++ item ∷ [];
    waiting = waits ∙ sym (append_assoc past (item ∷ []) w.queue.items);
    logged = sym e;
    unfinished = u;
    unbounded = m;
  }
  handled-IsFed s received w item (err error) state past waits u m e = record {
    past = past ++ item ∷ [];
    waiting = waits ∙ sym (append_assoc past (item ∷ []) w.queue.items);
    logged = sym e;
    unfinished = u;
    unbounded = m;
  }

  handling-IsFed :
      (s : S) (received : List I) (w : DpiWorker I R S) (item : I)
      → w.pc ≡ handling item
      → IsFed s received w
      → IsFed s received (work_at processor (handling item) w)
  unfolding work_at
  handling-IsFed s received w item at f =
      let waits : received ≡ f.past ++ (item ∷ w.queue.items) = f.waiting ∙ rw at refl in
      let owed : w.queue.unfinished ≡ length w.queue.items + 1 = f.unfinished ∙ rw at refl in
      handled-IsFed s received w item (processor w.state item).0 (processor w.state item).1 f.past
        waits owed f.unbounded (entered s w f.past item f.logged)

  work_at-IsFed :
      (s : S) (received : List I) (w : DpiWorker I R S) (pc : Pc I)
      → w.pc ≡ pc
      → IsFed s received w
      → IsFed s received (work_at processor pc w)
  unfolding work_at
  work_at-IsFed s received w created at f = f
  work_at-IsFed s received w testing at f = record {
    past = f.past;
    waiting = ground (arith, f.waiting);
    logged = ground (arith, f.logged);
    unfinished = ground (arith, f.unfinished);
    unbounded = ground (arith, f.unbounded);
  }
  work_at-IsFed s received w popping at f = pop-IsFed s received w w.queue.items refl at f
  work_at-IsFed s received w (handling item) at f = handling-IsFed s received w item at f
  work_at-IsFed s received w finishing at f = record {
    past = f.past;
    waiting = ground (arith, f.waiting, f.unfinished);
    logged = ground (arith, f.logged, f.unfinished);
    unfinished = ground (arith, f.unfinished);
    unbounded = ground (arith, f.unbounded, f.unfinished);
  }
  work_at-IsFed s received w exited at f = f

  pub work-IsFed :
      (s : S) (received : List I) (w : DpiWorker I R S)
      → IsFed s received w
      → IsFed s received (work processor w)
  unfolding work
  work-IsFed s received w f = work_at-IsFed s received w w.pc refl f

  pub push-IsFed :
      (s : S) (received : List I) (w : DpiWorker I R S) (item : I)
      → IsFed s received w
      → (push w.queue item
          ≡ some (record w.queue {
            items = w.queue.items ++ item ∷ [];
            unfinished = w.queue.unfinished + 1;
          }))
        × IsFed s (received ++ item ∷ []) (record w {
          queue = record w.queue {
            items = w.queue.items ++ item ∷ [];
            unfinished = w.queue.unfinished + 1;
          };
        })
  unfolding push
  push-IsFed s received w item f = (
    ground (arith, f.unbounded),
    record {
      past = f.past;
      waiting =
          ap (λ l. l ++ item ∷ []) f.waiting
          ∙ append_assoc f.past (in_hand w.pc ++ w.queue.items) (item ∷ [])
          ∙ ap (◌++◌ f.past) (append_assoc (in_hand w.pc) w.queue.items (item ∷ []));
      logged = f.logged;
      unfinished = omega (arith, f.unfinished, length-append w.queue.items (item ∷ []));
      unbounded = f.unbounded;
    },
  )

  -- A worker that owes nothing has handled all that it received.
  pub IsFed-joined :
      (s : S) (received : List I) (w : DpiWorker I R S)
      → IsFed s received w
      → w.queue.unfinished ≡ 0
      → log_of w ≡ handle_all processor (blank s) received
  IsFed-joined s received w f h =
      let idle : busy w.pc ≡ 0 = omega (arith, f.unfinished) in
      let none_left : w.queue.items ≡ [] =
        length-eq-zero w.queue.items (omega (arith, f.unfinished)) in
      let hand_empty : in_hand w.pc ≡ [] = idle-in_hand w.pc idle in
      let all_past : received ≡ f.past =
        f.waiting ∙ rw (none_left, hand_empty) (append-nil f.past) in
      f.logged ∙ ap (handle_all processor (blank s)) (sym all_past)
