-- ===== src/Pool/Tests.antt =====
-- Runs of src/v2/worker_pool.py, and instances of its theorems.
use dpi_engine_python.Balancer.{
  FlowKey, str_lt, endpoints_lt, endpoints_min, canonical, decimal, str_of, crc_bit, crc_byte,
  crc_from, crc32, joined, flow_text, flow_balancer, get_worker,
}
use dpi_engine_python.Pool.{
  WorkerPool, worker_pool, start_all, stop_all, submit, pushed, is_drained, get_results, Event,
  starts, submits, works, happen, happen_all,
}
use dpi_engine_python.Pool.Drain.{can_drain}
use dpi_engine_python.Pool.Outcome.{submissions, expected, get_results_drained, handled_below}
use dpi_engine_python.Pool.Shared.{Made, made_with, make_pool, happen_shared, happen_all_in}
use dpi_engine_python.Pool.Shared.Conserves.{make_pool-conserves}
use dpi_engine_python.Prelude.{
  some, none, ℕ, ◌+◌, ◌≡◌, refl, true, List, [], ◌∷◌, length, if◌then◌else◌,
}
use dpi_engine_python.Prelude.Eq.{◌==◌, nat_eq}
use dpi_engine_python.Prelude.Result.{Result, ok, err, value_error}
use dpi_engine_python.Queue.{push, take_first, done_with, pop, task_done}
use dpi_engine_python.Text.{codes, encode_code}
use dpi_engine_python.Worker.{
  DpiWorker, testing, new_worker, start, stop, handled, popped, finished, work_at, work,
}
use dpi_engine_python.Worker.Progress.{IsFed, start-IsFed, new_worker-IsFed}

-- Adds the items up, and refuses 0.
abbrev adder : ℕ → ℕ → Result ℕ × ℕ
adder total item = if item == 0 then (err value_error, total) else (ok (total + item), total + item)

abbrev zeros : ℕ → ℕ
zeros i = 0

abbrev flow : FlowKey
flow = record {
  src_ip = codes "9.9.9.9";
  dst_ip = codes "1.2.3.4";
  src_port = 5000;
  dst_port = 443;
  protocol = codes "TCP";
}

abbrev pool : WorkerPool ℕ ℕ ℕ
pool = record { worker_count = 2; workers = λ i. new_worker i 0 }

made : worker_pool 2 zeros ≡ ok pool
unfolding worker_pool flow_balancer
made = refl

-- Both workers run a round for each item; only one of them is given any.
abbrev rounds : List (Event ℕ)
rounds = works 0 ∷ works 1 ∷ works 0 ∷ works 1 ∷ works 0 ∷ works 1 ∷ works 0 ∷ works 1 ∷ []

abbrev events : List (Event ℕ)
events =
    starts
    ∷ submits flow 5
    ∷ works 0
    ∷ works 1
    ∷ works 0
    ∷ works 1
    ∷ submits flow 0
    ∷ works 0
    ∷ works 1
    ∷ works 0
    ∷ works 1
    ∷ works 0
    ∷ works 1
    ∷ works 0
    ∷ works 1
    ∷ rounds

drained : is_drained (happen_all adder pool events) ≡ true
unfolding is_drained happen_all happen start_all stop_all submit pushed push take_first done_with
    pop task_done start stop handled popped finished work_at work get_worker flow_text joined
    canonical endpoints_min endpoints_lt str_lt str_of decimal crc32 crc_from crc_byte crc_bit
    encode_code
drained = refl

get_results_drained_example :
    get_results (happen_all adder pool events) ≡ expected adder zeros 2 2 (submissions events)
get_results_drained_example = get_results_drained adder zeros 2 pool events made drained

-- A pool whose workers share the adder.
made_shared : make_pool 2 (some 0) none ≡ ok (record { pool = pool; is_shared = true })
unfolding make_pool made_with worker_pool flow_balancer
made_shared = refl

drained_shared : is_drained (happen_all_in adder true pool events) ≡ true
unfolding is_drained happen_all_in happen_shared happen start_all stop_all submit pushed push
    take_first done_with pop task_done start stop handled popped finished work_at work get_worker
    flow_text joined canonical endpoints_min endpoints_lt str_lt str_of decimal crc32 crc_from
    crc_byte crc_bit encode_code
drained_shared = refl

make_pool-conserves_example :
    handled_below 2 (happen_all_in adder true pool events).workers ≡ length (submissions events)
make_pool-conserves_example =
    make_pool-conserves adder 2 (some 0) none (record { pool = pool; is_shared = true }) events
      made_shared drained_shared

-- Without a processor and a factory the constructor raises.
unmade : (let made : Result (Made ℕ ℕ ℕ) = make_pool 2 none none in made ≡ err value_error)
unfolding make_pool made_with
unmade = refl

can_drain_example :
    (more : List (Event ℕ)) × (submissions more ≡ [])
    × (is_drained
          (happen_all adder pool (starts ∷ (submits flow 5 ∷ works 1 ∷ submits flow 0 ∷ more)))
        ≡ true)
can_drain_example =
    can_drain adder zeros 2 pool (submits flow 5 ∷ works 1 ∷ submits flow 0 ∷ []) made refl

-- A worker that is started, before any item comes.
abbrev started : DpiWorker ℕ ℕ ℕ
started = record (new_worker 1 0) { pc = testing }

started-IsFed : IsFed adder 0 [] started
unfolding start
started-IsFed = start-IsFed adder 0 [] (new_worker 1 0) (new_worker-IsFed adder 1 0)
