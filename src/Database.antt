-- ===== src/Database.antt =====
-- internal/database/database.go: the connection, and the migrations on the tables.
pub mod Migrated
use Prim.Native.String
use queue_ctl.Prelude.{
  ℕ, suc, ◌+◌, ◌-◌, String, Bool, true, false, not, ◌||◌, Option, none, some, List, [], ◌∷◌, ◌++◌,
  ◌==◌, if◌then◌else◌,
}
use queue_ctl.Prelude.Int.{ℤ, pos}
use queue_ctl.Prelude.Text.{◌^^◌}
use text.Mathlib.Text.{starts_with}
use queue_ctl.Domain.Errors.{Error, Result, ok, err, wrap}
use queue_ctl.Domain.Job.{Job}
use queue_ctl.Domain.ExecutionLog.{ExecutionLog}
use queue_ctl.Domain.Worker.{Worker}

-- What the system and the driver report: of os.MkdirAll, of sql.Open, of a statement of Connect, and of
-- the n-th statement of the schema.
pub record Driver : Type 0 where
  pub mkdir_fault : Option Error
  pub open_fault : Option Error
  pub exec_fault : String → Option Error
  pub schema_fault : ℕ → Option Error

-- A *sql.DB: the statements that configured its connection, and the limits of its pool.
pub record Handle : Type 0 where
  pub path : String
  pub pragmas : List String
  pub max_open_conns : ℕ
  pub max_idle_conns : ℕ
  pub conn_max_lifetime : ℤ

-- The statement that `Exec` ran is added to the pragmas.
abbrev configured : String → Handle → Handle
configured pragma db = record db { pragmas = db.pragmas ++ pragma ∷ [] }

-- Whether Connect makes the directory of the file.
abbrev needs_directory : String → Bool
needs_directory path = not (path == ":memory:" || starts_with path "file::memory:")

abbrev new_handle : String → Handle
new_handle path = record {
  path = path;
  pragmas = [];
  max_open_conns = 0;
  max_idle_conns = 2;
  conn_max_lifetime = pos 0;
}

-- SetMaxOpenConns(1), SetMaxIdleConns(1) and SetConnMaxLifetime(0)
abbrev limited : Handle → Handle
limited db = record db { max_open_conns = 1; max_idle_conns = 1; conn_max_lifetime = pos 0 }

-- A statement and the text of its error.
abbrev pub statements : List (String × String)
statements =
    ("PRAGMA journal_mode=WAL;", "failed to set WAL mode")
    ∷ ("PRAGMA busy_timeout=5000;", "failed to set busy timeout")
    ∷ ("PRAGMA synchronous=NORMAL;", "failed to set synchronous NORMAL")
    ∷ ("PRAGMA foreign_keys=ON;", "failed to set foreign keys ON")
    ∷ []

-- The tables of the file, each if it has been created, and the names of the indexes.
pub record Disk : Type 0 where
  pub jobs : Option (List Job)
  pub workers : Option (List Worker)
  pub logs : Option (List ExecutionLog)
  pub indexes : List String

-- A statement of the schema; each is IF NOT EXISTS.
pub data Ddl : Type 0 where
  create_jobs create_workers create_logs : Ddl
  create_index : String → Ddl

abbrev or_created {ℓ} : {A : Type ℓ} → Option (List A) → Option (List A)
or_created none = some []
or_created (some rows) = some rows

unfoldable pub add_index : String → List String → List String
add_index name [] = name ∷ []
add_index name (x ∷ xs) = let rest = add_index name xs in if x == name then x ∷ xs else x ∷ rest

unfoldable pub execute : Ddl → Disk → Disk
unfolding add_index
execute create_jobs disk = record disk { jobs = or_created disk.jobs }
execute create_workers disk = record disk { workers = or_created disk.workers }
execute create_logs disk = record disk { logs = or_created disk.logs }
execute (create_index name) disk = record disk { indexes = add_index name disk.indexes }

-- Schema
abbrev pub schema : List Ddl
schema =
    create_jobs
    ∷ create_index "idx_jobs_status_priority_run_at"
    ∷ create_index "idx_jobs_queue_status_priority_run_at"
    ∷ create_workers
    ∷ create_logs
    ∷ create_index "idx_execution_logs_job_id"
    ∷ []

module _ (driver : Driver) where
  abbrev unless_fault : Option Error → String → Result (Unit {0})
  unless_fault none failure = ok tt
  unless_fault (some e) failure = err (wrap failure e)

  -- The statements in their order; the first that fails closes the handle. The number counts the open
  -- handles.
  abbrev ran :
      String → Result (Unit {0}) → (Handle → ℕ → Result Handle × ℕ) → Handle → ℕ → Result Handle × ℕ
  ran pragma (ok _) next db handles = next (configured pragma db) handles
  ran pragma (err e) next db handles = (err e, handles - 1)

  unfoldable pub run_statements : List (String × String) → Handle → ℕ → Result Handle × ℕ
  run_statements [] db handles = (ok (limited db), handles)
  run_statements ((pragma, failure) ∷ rest) db handles =
      ran pragma (unless_fault (driver.exec_fault pragma) failure) (run_statements rest) db handles

  abbrev opened : String → Option Error → ℕ → Result Handle × ℕ
  opened path (some e) handles =
      (err (wrap ("failed to open sqlite database at " ^^ path) e), handles)
  opened path none handles = run_statements statements (new_handle path) (handles + 1)

  abbrev made : String → Result (Unit {0}) → ℕ → Result Handle × ℕ
  made path (err e) handles = (err e, handles)
  made path (ok _) handles = opened path driver.open_fault handles

  abbrev directory : String → Result (Unit {0})
  directory path =
      if needs_directory path
      then unless_fault driver.mkdir_fault ("failed to create database directory for " ^^ path)
      else ok tt

  -- Connect, on the number of the open handles
  unfoldable pub connect : String → ℕ → Result Handle × ℕ
  unfolding run_statements
  connect path handles = made path (directory path) handles

  abbrev stepped :
      Result (Unit {0}) → (Disk → Result (Unit {0}) × Disk) → Disk → Result (Unit {0}) × Disk
  stepped (ok _) next disk = next disk
  stepped (err e) next disk = (err e, disk)

  -- the statements of the schema, from the n-th; those before one that fails stay done
  unfoldable pub run_schema : ℕ → List Ddl → Disk → Result (Unit {0}) × Disk
  unfolding execute
  run_schema n [] disk = (ok tt, disk)
  run_schema n (ddl ∷ rest) disk =
      stepped (unless_fault (driver.schema_fault n) "failed to run database migrations")
        (λ d. run_schema (suc n) rest (execute ddl d)) disk

  -- RunMigrations
  unfoldable pub run_migrations : Disk → Result (Unit {0}) × Disk
  unfolding run_schema
  run_migrations disk = run_schema 0 schema disk
