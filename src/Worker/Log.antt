-- ===== src/Worker/Log.antt =====
-- What a worker keeps of the items that it has handled, and handling them with no threads.
use dpi_engine_python.Prelude.{
  ℕ, ◌+◌, ◌≡◌, refl, Option, none, some, List, [], ◌∷◌, ◌++◌, arith, length,
}
use dpi_engine_python.Prelude.Eq.{nat_eq}
use dpi_engine_python.Prelude.Result.{Error, Result, ok, err}
use dpi_engine_python.Worker.{Pc, handling, finishing, DpiWorker}

-- What a worker keeps of the items that it has handled.
pub record Log (R S : Type 0) : Type 0 where
  pub state : S
  pub results : List R
  pub processed : ℕ
  pub errors : ℕ
  pub last_error : Option Error

module _ {R S : Type 0} where
  abbrev pub blank : S → Log R S
  blank state = record { state = state; results = []; processed = 0; errors = 0; last_error = none }

  abbrev pub enter : Result R → S → Log R S → Log R S
  enter (ok result) state log = record log {
    state = state;
    results = log.results ++ result ∷ [];
    processed = log.processed + 1;
  }
  enter (err error) state log = record log {
    state = state;
    errors = log.errors + 1;
    last_error = some error;
  }

-- The item taken from the queue, and whether `task_done` is still owed for one.
abbrev pub in_hand : {I : Type 0} → Pc I → List I
in_hand (handling item) = item ∷ []
in_hand _ = []

abbrev pub busy : {I : Type 0} → Pc I → ℕ
busy (handling item) = 1
busy finishing = 1
busy _ = 0

pub length-eq-zero : {A : Type 0} (xs : List A) → length xs ≡ 0 → xs ≡ []
length-eq-zero [] h = refl
length-eq-zero (x ∷ xs) h = absurd (omega arith)

pub idle-in_hand : {I : Type 0} (pc : Pc I) → busy pc ≡ 0 → in_hand pc ≡ []
idle-in_hand pc h = ground arith

module _ {I R S : Type 0} where
  abbrev pub log_of : DpiWorker I R S → Log R S
  log_of w = record {
    state = w.state;
    results = w.results;
    processed = w.processed_count;
    errors = w.error_count;
    last_error = w.last_error;
  }

module _ {I R S : Type 0} (processor : S → I → Result R × S) where
  -- One item after the other, with no threads.
  unfoldable pub handle_all : Log R S → List I → Log R S
  handle_all log [] = log
  handle_all log (item ∷ items) =
      let (result, state) = processor log.state item in handle_all (enter result state log) items

  pub handle_all-snoc :
      (log : Log R S) (items : List I) (item : I)
      → handle_all log (items ++ item ∷ []) ≡ (
          let before = handle_all log items in
          let (result, state) = processor before.state item in enter result state before)
  unfolding handle_all
  handle_all-snoc log [] item = refl
  handle_all-snoc log (x ∷ items) item =
      let (result, state) = processor log.state x in
      handle_all-snoc (enter result state log) items item

  enter-count :
      (r : Result R) (state : S) (log : Log R S)
      → (enter r state log).processed + (enter r state log).errors ≡ log.processed + log.errors + 1
  enter-count (ok result) state log = omega arith
  enter-count (err error) state log = omega arith

  -- Every item counts once, as processed or as failed.
  pub handled_count :
      (log : Log R S) (items : List I)
      → (handle_all log items).processed + (handle_all log items).errors
        ≡ log.processed + log.errors + length items
  unfolding handle_all
  handled_count log [] = omega arith
  handled_count log (item ∷ items) =
      let (result, state) = processor log.state item in
      omega (arith, handled_count (enter result state log) items, enter-count result state log)
