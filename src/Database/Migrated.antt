-- ===== src/Database/Migrated.antt =====
-- What Connect and RunMigrations of internal/database/database.go leave.
use queue_ctl.Prelude.{
  ℕ, suc, ◌+◌, ◌≡◌, refl, String, Option, none, some, List, [], ◌∷◌, arith, inl, inr, Option-cases,
}
use queue_ctl.Domain.Errors.{Error, ok, err}
use queue_ctl.Domain.Job.{Job}
use queue_ctl.Domain.Worker.{Worker}
use queue_ctl.Domain.ExecutionLog.{ExecutionLog}
use queue_ctl.Database.{
  Driver, Handle, Disk, Ddl, schema, or_created, execute, run_statements, connect, run_schema,
  run_migrations, create_jobs, create_workers, create_logs, create_index,
}

-- A table that was there has its rows.
pub record Kept (before after : Disk) : Type 0 where
  pub jobs : (rows : List Job) → before.jobs ≡ some rows → after.jobs ≡ some rows
  pub workers : (rows : List Worker) → before.workers ≡ some rows → after.workers ≡ some rows
  pub logs : (rows : List ExecutionLog) → before.logs ≡ some rows → after.logs ≡ some rows

-- All three tables are there.
pub record HasTables (disk : Disk) : Type 0 where
  pub jobs : (rows : List Job) × (disk.jobs ≡ some rows)
  pub workers : (rows : List Worker) × (disk.workers ≡ some rows)
  pub logs : (rows : List ExecutionLog) × (disk.logs ≡ some rows)

Kept-refl : (disk : Disk) → Kept disk disk
Kept-refl disk = record { jobs = λ r h. h; workers = λ r h. h; logs = λ r h. h }

Kept-trans : {a b c : Disk} → Kept a b → Kept b c → Kept a c
Kept-trans k l = record {
  jobs = λ r h. l.jobs r (k.jobs r h);
  workers = λ r h. l.workers r (k.workers r h);
  logs = λ r h. l.logs r (k.logs r h);
}

execute-Kept : (ddl : Ddl) (disk : Disk) → Kept disk (execute ddl disk)
unfolding execute
execute-Kept create_jobs disk = record {
  jobs = λ r h. rw h refl;
  workers = λ r h. h;
  logs = λ r h. h;
}
execute-Kept create_workers disk = record {
  jobs = λ r h. h;
  workers = λ r h. rw h refl;
  logs = λ r h. h;
}
execute-Kept create_logs disk = record {
  jobs = λ r h. h;
  workers = λ r h. h;
  logs = λ r h. rw h refl;
}
execute-Kept (create_index name) disk = record {
  jobs = λ r h. h;
  workers = λ r h. h;
  logs = λ r h. h;
}

filled :
    {A : Type 0} (o : Option (List A)) {o' : Option (List A)}
    → o' ≡ or_created o
    → (rows : List A) × (o' ≡ some rows)
filled none e = ([], e)
filled (some rows) e = (rows, e)

module _ (driver : Driver) where
  run_schema-Kept :
      (n : ℕ) (ddls : List Ddl) (disk : Disk) → Kept disk (run_schema driver n ddls disk).1
  unfolding run_schema
  run_schema-Kept n [] disk = Kept-refl disk
  run_schema-Kept n (ddl ∷ rest) disk = elim (Option-cases (driver.schema_fault n)) [
    | inl e ↦
        rw e (Kept-trans (execute-Kept ddl disk) (run_schema-Kept (suc n) rest (execute ddl disk)))
    | inr (fault, e) ↦ rw e (Kept-refl disk)
  ]

  migrated :
      (disk : Disk)
      → (run_migrations driver disk).0 ≡ ok tt
      → ((run_migrations driver disk).1.jobs ≡ or_created disk.jobs)
        × ((run_migrations driver disk).1.workers ≡ or_created disk.workers)
        × ((run_migrations driver disk).1.logs ≡ or_created disk.logs)
  unfolding run_migrations execute
  migrated disk h = ground arith

  pub run_migrations-Kept : (disk : Disk) → Kept disk (run_migrations driver disk).1
  unfolding run_migrations
  run_migrations-Kept disk = run_schema-Kept 0 schema disk

  pub run_migrations_tables :
      (disk : Disk)
      → (run_migrations driver disk).0 ≡ ok tt
      → HasTables (run_migrations driver disk).1
  run_migrations_tables disk h =
      let (jobs, workers, logs) = migrated disk h in
      record {
        jobs = filled disk.jobs jobs;
        workers = filled disk.workers workers;
        logs = filled disk.logs logs;
      }

  -- What a connection has when Connect returns it.
  pub connect_ok :
      (path : String) (handles : ℕ) {db : Handle}
      → (connect driver path handles).0 ≡ ok db
      → (db.path ≡ path)
        × (db.pragmas
            ≡ "PRAGMA journal_mode=WAL;" ∷ "PRAGMA busy_timeout=5000;"
              ∷ "PRAGMA synchronous=NORMAL;" ∷ "PRAGMA foreign_keys=ON;" ∷ [])
        × (db.max_open_conns ≡ 1)
        × ((connect driver path handles).1 ≡ handles + 1)
  unfolding connect run_statements
  connect_ok path handles {db} h = ground arith

  -- An error of Connect leaves no handle open.
  pub connect_err :
      (path : String) (handles : ℕ) {e : Error}
      → (connect driver path handles).0 ≡ err e
      → (connect driver path handles).1 ≡ handles
  unfolding connect run_statements
  connect_err path handles {e} h = ground arith
