-- ===== src/Io.antt =====
-- Python code that calls other systems: statements that leave a log of the calls they make, and that
-- may raise. `try`, `except` and `finally` are those of the language.
pub mod Calls
pub mod Keeps
pub mod Prefixes
use dpi_engine_python.Prelude.{
  ◌≡◌, refl, Bool, true, false, Option, none, some, List, [], ◌∷◌, ◌++◌,
}
use dpi_engine_python.Prelude.Result.{Error, Result, ok, err}

pub record Outcome {ℓ} (E : Type 0) (A : Type ℓ) : Type ℓ where
  pub log : List E
  pub result : Result A

-- A statement goes on from the log of the calls before it.
abbrev pub Io {ℓ} : Type 0 → Type ℓ → Type ℓ
Io E A = List E → Outcome E A

-- What other systems answer to a call, after the calls of the log.
abbrev pub World : Type 0 → Type 0
World E = List E → E → Result (Unit {0})

-- `except Error` catches some errors and lets the others pass.
abbrev pub any_error : Error → Bool
any_error e = true

abbrev pub is_import_error : Error → Bool
is_import_error Error.import_error = true
is_import_error _ = false

abbrev pub is_os_error : Error → Bool
is_os_error Error.os_error = true
is_os_error _ = false

module _ {E : Type 0} where
  abbrev pub return {ℓ} : {A : Type ℓ} → A → Io E A
  return value log = record { log = log; result = ok value }

  abbrev pub raise {ℓ} : {A : Type ℓ} → Error → Io E A
  raise e log = record { log = log; result = err e }

  abbrev pub call : World E → E → Io E (Unit {0})
  call world event log = record { log = log ++ event ∷ []; result = world log event }

  -- An effect that always succeeds.
  abbrev pub record_event : E → Io E (Unit {0})
  record_event event log = record { log = log ++ event ∷ []; result = ok tt }

  -- The next statement, once the one before has its result.
  abbrev pub on_result {ℓ κ} :
      {A : Type ℓ} {B : Type κ} → Result A → (A → Io E B) → (Error → Io E B) → Io E B
  on_result (ok value) next failed = next value
  on_result (err e) next failed = failed e

  infixl 5 ◌>>=◌ ◌>>◌
  abbrev pub ◌>>=◌ {ℓ κ} : {A : Type ℓ} {B : Type κ} → Io E A → (A → Io E B) → Io E B
  (first >>= next) log = on_result (first log).result next raise (first log).log

  abbrev pub ◌>>◌ {ℓ κ} : {A : Type ℓ} {B : Type κ} → Io E A → Io E B → Io E B
  (first >> next) = first >>= λ _. next

  abbrev caught {ℓ} : {A : Type ℓ} → Bool → Error → Io E A → Io E A
  caught true e handler = handler
  caught false e handler = raise e

  -- `try: body; except: handler; else: next`
  abbrev pub try_else {ℓ κ} :
      {A : Type ℓ} {B : Type κ} → Io E A → (Error → Bool) → Io E B → (A → Io E B) → Io E B
  try_else body catches handler next log =
      on_result (body log).result next (λ e. caught (catches e) e handler) (body log).log

  -- `try: body; except: handler`
  abbrev pub attempt {ℓ} : {A : Type ℓ} → Io E A → (Error → Bool) → Io E A → Io E A
  attempt body catches handler = try_else body catches handler return

  -- `try: body; except Exception as e: handler`
  abbrev pub rescue {ℓ} : {A : Type ℓ} → Io E A → (Error → Io E A) → Io E A
  rescue body handler log = on_result (body log).result return handler (body log).log

  -- `try: body; finally: cleanup`
  abbrev pub finally {ℓ} : {A : Type ℓ} → Io E A → Io E (Unit {0}) → Io E A
  finally body cleanup log =
      on_result (body log).result (λ value. cleanup >> return value) (λ e. cleanup >> raise e)
        (body log).log

  -- `for item in items: body`
  abbrev pub for_each {ℓ} : {A : Type ℓ} → List A → (A → Io E (Unit {0})) → Io E (Unit {0})
  for_each [] body = return tt
  for_each (item ∷ items) body = body item >> for_each items body

  -- An expression that may raise.
  abbrev pub evaluate {ℓ} : {A : Type ℓ} → Result A → Io E A
  evaluate r log = record { log = log; result = r }
