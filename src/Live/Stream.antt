-- ===== src/Live/Stream.antt =====
-- src/live_capture.py: `start_streaming`, whose four threads run one loop.
use dpi_engine_python.Io.{Io, raise}
use dpi_engine_python.Live.{LiveCall}
use dpi_engine_python.Pool.{update}
use dpi_engine_python.Prelude.{
  ℕ, ◌+◌, ◌≡◌, refl, ap, inl, inr, Bool, true, false, Option, none, some, List, [], ◌∷◌, length,
  leb, Bool-cases, if◌then◌else◌,
}
use dpi_engine_python.Prelude.Eq.{◌==◌, nat_eq}
use dpi_engine_python.Prelude.Result.{Error, Result, ok, err}

-- The attributes that the threads share.
pub record Stream : Type 0 where
  pub stop : Bool
  pub max_packets : Option ℕ
  pub count : ℕ

abbrev pub start_streaming : Option ℕ → Stream
start_streaming max_packets = record { stop = false; max_packets = max_packets; count = 0 }

unfoldable pub stop_streaming : Stream → Stream
stop_streaming s = record s { stop = true }

-- `self.sniff(timeout=interval, callback=callback)`: `sniff` has no parameter `timeout`.
abbrev pub sniff_for : {P : Type 0} → Io (LiveCall P) (List P)
sniff_for = raise Error.type_error

-- A thread, with its variable `packets`, which is unset at first.
pub data Thread (P : Type 0) : Type 0 where
  looping : Option (List P) → Thread P
  ended : Thread P
  died : Error → Thread P

module _ {P : Type 0} where
  -- `packets` after the `try`: an exception leaves it as it was.
  abbrev pub assigned : Option (List P) → Result (List P) → Option (List P)
  assigned old (ok packets) = some packets
  assigned old (err e) = old

  -- The block of the lock: `len(packets)` raises where `packets` is unset.
  unfoldable pub count_packets : Option (List P) → ℕ → Stream → Thread P × Stream
  count_packets none max_packets s = (died Error.unbound_local, s)
  count_packets (some packets) max_packets s =
      let counted = record s { count = s.count + length packets } in
      if leb max_packets counted.count
      then (ended, stop_streaming counted)
      else (looping (some packets), counted)

  -- `if max_packets is not None`
  unfoldable pub after_max : Option (List P) → Option ℕ → Stream → Thread P × Stream
  after_max packets none s = (looping packets, s)
  after_max packets (some max_packets) s = count_packets packets max_packets s

  unfoldable pub after_sniff : Option (List P) → Stream → Thread P × Stream
  after_sniff packets s = after_max packets s.max_packets s

  -- One turn of the loop: the thread, the shared attributes and the calls it made.
  unfoldable pub turn :
      Thread P → Stream → List (LiveCall P) → Thread P × Stream × List (LiveCall P)
  turn (looping packets) s log =
      let sniffed = sniff_for log in
      let (thread, after) = after_sniff (assigned packets sniffed.result) s in
      if s.stop then (ended, s, log) else (thread, after, sniffed.log)
  turn ended s log = (ended, s, log)
  turn (died e) s log = (died e, s, log)

-- What the four threads do, in any order, and a call of `stop_streaming` from outside.
pub data Action : Type 0 where
  step : ℕ → Action
  stop_all : Action

pub record Streaming (P : Type 0) : Type 0 where
  pub threads : ℕ → Thread P
  pub stream : Stream
  pub calls : List (LiveCall P)

abbrev pub started : {P : Type 0} → Option ℕ → Streaming P
started max_packets = record {
  threads = λ _. looping none;
  stream = start_streaming max_packets;
  calls = [];
}

module _ {P : Type 0} where
  abbrev with_turn : ℕ → Streaming P → Thread P × Stream × List (LiveCall P) → Streaming P
  with_turn i s (thread, stream, calls) = record {
    threads = update s.threads i thread;
    stream = stream;
    calls = calls;
  }

  unfoldable pub act : Action → Streaming P → Streaming P
  act (step i) s = with_turn i s (turn (s.threads i) s.stream s.calls)
  act stop_all s = record s { stream = stop_streaming s.stream }

  unfoldable pub run : List Action → Streaming P → Streaming P
  run [] s = s
  run (action ∷ actions) s = run actions (act action s)

  -- A thread that has no packets: it loops, has ended because it was stopped, or died of the variable
  -- that is not set.
  abbrev pub IsIdle : Bool → Thread P → Type 0
  IsIdle stopped (looping none) = Unit
  IsIdle stopped (looping (some packets)) = ⊥
  IsIdle stopped ended = stopped ≡ true
  IsIdle stopped (died e) = e ≡ Error.unbound_local

  pub record IsSilent (s : Streaming P) : Type 0 where
    pub no_calls : s.calls ≡ []
    pub no_packets : s.stream.count ≡ 0
    pub idle : (i : ℕ) → IsIdle s.stream.stop (s.threads i)

  stopped-IsIdle : (stopped : Bool) (t : Thread P) → IsIdle stopped t → IsIdle true t
  stopped-IsIdle stopped (looping none) h = tt
  stopped-IsIdle stopped (looping (some packets)) h = h
  stopped-IsIdle stopped ended h = refl
  stopped-IsIdle stopped (died e) h = h

  after_max-IsIdle :
      (max_packets : Option ℕ) (s : Stream)
      → (u : Thread P) × (after_max none max_packets s ≡ (u, s)) × IsIdle false u
  unfolding after_max count_packets
  after_max-IsIdle none s = (looping none, refl, tt)
  after_max-IsIdle (some n) s = (died Error.unbound_local, refl, refl)

  either_way :
      (stopped : Bool) (s : Stream) (log : List (LiveCall P)) (r : Thread P × Stream) (u : Thread P)
      → r ≡ (u, s)
      → IsIdle false u
      → (v : Thread P) × ◌≡◌ {A = Thread P × Stream × List (LiveCall P)}
          (if stopped then (ended, s, log) else (r.0, r.1, log))
          (v, s, log)
        × IsIdle stopped v
  either_way true s log r u e idle = (ended, refl, refl)
  either_way false s log r u e idle = (u, ap (λ q. (q.0, q.1, log)) e, idle)

  turn-IsIdle :
      (t : Thread P) (s : Stream) (log : List (LiveCall P))
      → IsIdle s.stop t
      → (u : Thread P) × (turn t s log ≡ (u, s, log)) × IsIdle s.stop u
  unfolding turn after_sniff
  turn-IsIdle (looping none) s log h =
      let (u, e, idle) = after_max-IsIdle s.max_packets s in
      either_way s.stop s log (after_max none s.max_packets s) u e idle
  turn-IsIdle (looping (some packets)) s log h = absurd h
  turn-IsIdle ended s log h = (ended, refl, h)
  turn-IsIdle (died e) s log h = (died e, refl, h)

  act-IsSilent : (action : Action) (s : Streaming P) → IsSilent s → IsSilent (act action s)
  unfolding act stop_streaming
  act-IsSilent stop_all s h = record {
    no_calls = h.no_calls;
    no_packets = h.no_packets;
    idle = λ i. stopped-IsIdle s.stream.stop (s.threads i) (h.idle i);
  }
  act-IsSilent (step i) s h =
      let (u, e, idle) = turn-IsIdle (s.threads i) s.stream s.calls (h.idle i) in
      rw e (record {
        no_calls = h.no_calls;
        no_packets = h.no_packets;
        idle = λ j. elim (Bool-cases (i == j)) [
          | inl same ↦ rw same idle
          | inr other ↦ rw other (h.idle j)
        ];
      })

  run-IsSilent_from :
      (actions : List Action) (s : Streaming P) → IsSilent s → IsSilent (run actions s)
  unfolding run
  run-IsSilent_from [] s h = h
  run-IsSilent_from (action ∷ actions) s h =
      run-IsSilent_from actions (act action s) (act-IsSilent action s h)

  -- In whatever order the threads run and whenever they are stopped, streaming captures nothing: it
  -- makes no call of Scapy or of the callback, counts no packet, and each thread still loops without
  -- packets, has ended because of a stop, or died of the variable that is not set.
  pub run-IsSilent :
      (actions : List Action) (max_packets : Option ℕ)
      → IsSilent (run actions (started max_packets))
  run-IsSilent actions max_packets =
      run-IsSilent_from actions (started max_packets)
        (record { no_calls = refl; no_packets = refl; idle = λ _. tt })
