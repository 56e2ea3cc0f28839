-- ===== src/Store.antt =====
-- The state that the packages share, and the actions on it. The SQLite database of
-- internal/database holds three tables; the clock, the identifiers and the faults of the driver
-- come from the environment.
pub mod Tx
pub mod Bind
pub mod Keeps
pub mod Preserves
use queue_ctl.Prelude.{ℕ, ◌+◌, String, Bool, Option, none, some, List}
use queue_ctl.Prelude.Int.{ℤ}
use queue_ctl.Domain.Errors.{Error, Result, ok, err, driver, wrap}
use queue_ctl.Domain.Job.{Job, Time}
use queue_ctl.Domain.ExecutionLog.{ExecutionLog}
use queue_ctl.Domain.Worker.{Worker}

-- What the program does not decide. `clock n` is the n-th reading of time.Now, `uuid n` the n-th
-- identifier of uuid.New, `fault n` what the driver reports of the n-th call of the database,
-- `valid_json` the verdict of json.Unmarshal on a text that is not empty, and `int64_overflow` what
-- the processor makes of a float64 that no int64 holds, which Go leaves to the implementation.
-- `before_local a b` is what SQLite answers to `a < b` where the driver has written `a` as a text in UTC
-- and `b` as a text in the time zone of the process.
pub record Env : Type 0 where
  pub clock : ℕ → Time
  pub uuid : ℕ → String
  pub fault : ℕ → Option String
  pub valid_json : String → Bool
  pub int64_overflow : ℤ
  pub before_local : Time → Time → Bool

-- What a job handler does: it returns nil or an error, or it panics.
pub data Outcome : Type 0 where
  succeeds : Outcome
  fails : Error → Outcome
  panics : String → Outcome

-- The tables of the schema, each in the order of its rows.
pub record Db : Type 0 where
  pub jobs : List Job
  pub workers : List Worker
  pub logs : List ExecutionLog

-- `reads`, `ids` and `calls` count what has been taken from the environment; `events` is the number
-- of events in the scheduler's channel; `handlers` is the map of the job service.
pub record World : Type 0 where
  pub db : Db
  pub reads : ℕ
  pub ids : ℕ
  pub calls : ℕ
  pub events : ℕ
  pub handlers : List (String × (String → Outcome))

-- A Go function that works on the state and returns a value and an error.
abbrev pub Exec {ℓ} : Type ℓ → Type ℓ
Exec A = World → Result A × World

abbrev continue {ℓ} : {A B : Type ℓ} → Result A → (A → Exec B) → Exec B
continue (ok a) f w = f a w
continue (err e) f w = (err e, w)

-- `if err != nil { return err }`
infixl 5 ◌>>=◌ ◌>>◌
abbrev pub ◌>>=◌ {ℓ} : {A B : Type ℓ} → Exec A → (A → Exec B) → Exec B
◌>>=◌ m f w = continue (m w).0 f (m w).1

abbrev pub ◌>>◌ {ℓ} : {B : Type ℓ} → Exec (Unit {ℓ}) → Exec B → Exec B
m >> k = m >>= λ _. k

abbrev pub pure {ℓ} : {A : Type ℓ} → A → Exec A
pure a w = (ok a, w)

abbrev pub raise {ℓ} : {A : Type ℓ} → Error → Exec A
raise e w = (err e, w)

abbrev pub lift {ℓ} : {A : Type ℓ} → Result A → Exec A
lift r w = (r, w)

abbrev pub gets {ℓ} : {A : Type ℓ} → (World → A) → Exec A
gets f w = (ok (f w), w)

-- `if err != nil { return fmt.Errorf("text: %w", err) }`
abbrev pub wrap_result {ℓ} : {A : Type ℓ} → String → Result A → Result A
wrap_result text (ok a) = ok a
wrap_result text (err e) = err (wrap text e)

abbrev pub wrapping {ℓ} : {A : Type ℓ} → String → Exec A → Exec A
wrapping text m w = (wrap_result text (m w).0, (m w).1)

abbrev pub modify_db : (Db → Db) → Exec (Unit {0})
modify_db f w = (ok tt, record w { db = f w.db })

module _ (env : Env) where
  -- time.Now().UTC()
  unfoldable pub now : Exec Time
  now w = (ok (env.clock w.reads), record w { reads = w.reads + 1 })

  -- uuid.New().String()
  unfoldable pub new_id : Exec String
  new_id w = (ok (env.uuid w.ids), record w { ids = w.ids + 1 })

  abbrev fault_result : Option String → Result (Unit {0})
  fault_result none = ok tt
  fault_result (some text) = err (driver text)

  -- One call of the database driver, which may report a fault.
  unfoldable pub driver_call : Exec (Unit {0})
  driver_call w = (fault_result (env.fault w.calls), record w { calls = w.calls + 1 })
