-- ===== src/Pool/Progress.antt =====
-- A job from the poll that takes it to its end, on a driver that reports no fault.
pub mod Fails
use queue_ctl.Prelude.{
  ◌≤◌, ◌≡◌, refl, ap, sym, ◌∙◌, subst, String, true, Option, none, some, List, [], ◌∷◌, ◌++◌, arith,
  Bool-cases, inl, inr, ltb, find_row, update_rows, where_rows, order_by, eq_refl,
}
use queue_ctl.Prelude.Lists.Order.{All-where_rows, All-order_by}
use queue_ctl.Prelude.Lists.Rows.{find_row-update_rows}
use queue_ctl.Prelude.Int.{pos, ◌+ℤ◌, wrap64, ◌≤ℤ◌}
use queue_ctl.Domain.Errors.{Result, ok, err}
use queue_ctl.Domain.Job.{Job, running}
use queue_ctl.Domain.ExecutionLog.{ExecutionLog}
use queue_ctl.Domain.Worker.{WorkerStatus, active, validate}
use queue_ctl.Domain.Clocked.{set_status}
use queue_ctl.Store.{Env, World, succeeds}
use queue_ctl.Repository.Jobs as Jobs
use queue_ctl.Repository.Jobs.Lookup.{row_of}
use queue_ctl.Repository.Logs as Logs
use queue_ctl.Repository.Workers as Workers
use queue_ctl.Lifecycle.Table.{Unique}
use queue_ctl.Service.Queue.{Settings, register_worker}
use queue_ctl.Service.Handlers.{execute_job}
use queue_ctl.Service.Fetch.{fetch_next_job}
use queue_ctl.Service.Fetch.Takes.{Taken, fetch_next_job-takes}
use queue_ctl.Service.Fetch.Opens.{IsMonotone, StartedBy, StartedBy-later, fetch_next_job-opens}
use queue_ctl.Service.Outcomes.Success.{Completed, handle_job_success-completes}
use queue_ctl.Service.Outcomes.Calm.{IsCalm, Closable, All-get_last?}
use queue_ctl.Service.Outcomes.Calm.Success.{handle_job_success-succeeds}
use queue_ctl.Pool.{Pool, Task, working, mark, polled, poll_and_dispatch, settle}
use queue_ctl.Pool.Bound.{mark_keeps}

-- The job that a list of goroutines has in front of another one.
first_task : {j k : Job} {ts : List Task} → working j ∷ ts ≡ working k ∷ ts → j ≡ k
first_task e = ground arith

grows : (j : Job) (ts : List Task) → ts ≡ working j ∷ ts → ⊥
grows j [] e = ground arith
grows j (t ∷ ts) e = ground (arith, grows j ts)

module _ (env : Env) where
  mark_tables :
      (status : WorkerStatus) (p : Pool) (w : World)
      → ((mark env status p w).1.db.jobs ≡ w.db.jobs)
        × ((mark env status p w).1.db.logs ≡ w.db.logs)
        × (w.reads ≤ (mark env status p w).1.reads)
        × ((mark env status p w).0.id ≡ p.id)
  unfolding mark set_status register_worker Workers.upsert validate
  mark_tables status p w = (ground arith, ground arith, ground arith, ground arith)

  -- A poll that has started a goroutine for a job has fetched it.
  pub poll_fetched :
      (p : Pool) (w : World) (job : Job)
      → (poll_and_dispatch env p w).0.tasks ≡ working job ∷ p.tasks
      → let fetched = fetch_next_job env p.queue p.id w in
        (fetched.0 ≡ ok (some job))
        × ((poll_and_dispatch env p w).1 ≡ (mark env active p fetched.1).1)
        × ((poll_and_dispatch env p w).0.id ≡ p.id)
  unfolding poll_and_dispatch
  poll_fetched p w job e = elim (Bool-cases (ltb p.slots p.capacity)) [
    | inl free ↦
        let f = fetch_next_job env p.queue p.id w in rw free (go f.0 f.1 refl (rw free at e))
    | inr full ↦ absurd (grows job p.tasks (rw full at e))
  ]
    where
      go :
          (r : Result (Option Job)) (w' : World)
          → fetch_next_job env p.queue p.id w ≡ (r, w')
          → (polled env p (fetch_next_job env p.queue p.id w)).0.tasks ≡ working job ∷ p.tasks
          → ((fetch_next_job env p.queue p.id w).0 ≡ ok (some job))
            × ((polled env p (fetch_next_job env p.queue p.id w)).1
                ≡ (mark env active p (fetch_next_job env p.queue p.id w).1).1)
            × ((polled env p (fetch_next_job env p.queue p.id w)).0.id ≡ p.id)
      go (err x) w' q k = absurd (grows job p.tasks (rw q at k))
      go (ok none) w' q k = absurd (grows job p.tasks (rw q at k))
      go (ok (some found)) w' q k =
          let same : found ≡ job =
            first_task
              (ap (λ ts. working found ∷ ts) (sym (mark_keeps env active p w').2) ∙ (rw q at k)) in
          rw q (ap (λ j. ok (some j)) same, refl, (mark_tables active p w').3)

  -- The row of a job that a fetch has taken.
  fetched_row :
      (p : Pool) (w : World) (job : Job) (after : World)
      → Unique w.db.jobs
      → Taken env p.id p.queue (env.clock w.reads) w.db job after.db
      → (job.status ≡ running) × (row_of job.id after ≡ some job)
  fetched_row p w job after unique taken =
      let t = env.clock w.reads in
      let row = taken.row in
      let found : find_row (Jobs.has_id row.id) w.db.jobs ≡ some row =
        taken.best.found (unique.at row.id) in
      let written : find_row (Jobs.has_id row.id)
            (update_rows (Jobs.has_id row.id) (Jobs.set_running t) w.db.jobs)
          ≡ some (Jobs.set_running t row) =
        find_row-update_rows (Jobs.has_id row.id) (Jobs.has_id row.id) (Jobs.set_running t)
          w.db.jobs (λ x. refl)
        ∙ rw (found, eq_refl row.id) in
      (
        ap (λ j. j.status) taken.returned,
        subst (λ j. row_of j.id after ≡ some j) (sym taken.returned)
            (subst (λ rows. find_row (Jobs.has_id row.id) rows ≡ some (Jobs.set_running t row))
              (sym taken.jobs) written),
      )

  module _ (calm : IsCalm env) (monotone : IsMonotone env) where
    pub closable :
        (id : String) (w : World) → StartedBy (env.clock w.reads) w.db.logs → Closable env calm id w
    unfolding Logs.logs_of
    closable id w started l e n later =
        let now = env.clock w.reads in
        let P = λ (l : ExecutionLog). (Logs.of_job id l ≡ true) × (l.started_at ≤ℤ now) in
        let selected = where_rows (Logs.of_job id) w.db.logs in
        let by =
          (All-get_last? P (order_by Logs.attempted_before selected)
            (All-order_by Logs.attempted_before P selected
              (All-where_rows (λ l. l.started_at ≤ℤ now) (Logs.of_job id) w.db.logs started))
            e).1 in
        let shown = monotone w.reads n later in omega arith

    -- The row and the logs of a job when its goroutine starts.
    pub record Dispatched (p : Pool) (before : World) (job : Job) (w : World) : Type 0 where
      pub is_running : job.status ≡ running
      pub found : row_of job.id w ≡ some job
      pub begun : StartedBy (env.clock w.reads) w.db.logs
      pub log : ExecutionLog
      pub logs : w.db.logs ≡ before.db.logs ++ log ∷ []
      pub log_job : log.job_id ≡ job.id
      pub log_worker : log.worker_id ≡ p.id
      pub log_attempt : log.attempt ≡ wrap64 (job.retries_count +ℤ pos 1)
      pub log_open : log.finished_at ≡ pos 0

    pub poll-Dispatched :
        (p : Pool) (w : World) (job : Job)
        → Unique w.db.jobs
        → StartedBy (env.clock w.reads) w.db.logs
        → (poll_and_dispatch env p w).0.tasks ≡ working job ∷ p.tasks
        → Dispatched p w job (poll_and_dispatch env p w).1
    poll-Dispatched p w job unique started polls =
        let fetched = fetch_next_job env p.queue p.id w in
        let marked = (mark env active p fetched.1).1 in
        let (took, ended, same_id) = poll_fetched p w job polls in
        let (jobs, logs, later, kept) = mark_tables active p fetched.1 in
        let taken = fetch_next_job-takes env p.id p.queue w job took in
        let (is_running, row) = fetched_row p w job fetched.1 unique taken in
        let opened = fetch_next_job-opens env monotone p.queue p.id w job took started in
        let begun : StartedBy (env.clock marked.reads) marked.db.logs =
          subst (StartedBy (env.clock marked.reads)) (sym logs) (
            StartedBy-later (env.clock fetched.1.reads) (env.clock marked.reads) fetched.1.db.logs
              (monotone fetched.1.reads marked.reads later) opened) in
        subst (Dispatched p w job) (sym ended) (record {
          is_running = is_running;
          found = subst (λ rows. find_row (Jobs.has_id job.id) rows ≡ some job) (sym jobs) row;
          begun = begun;
          log = taken.log;
          logs = logs ∙ taken.logs;
          log_job = taken.log_job ∙ ap (λ j. j.id) (sym taken.returned);
          log_worker = taken.log_worker;
          log_attempt =
              taken.log_attempt ∙ ap (λ j. wrap64 (j.retries_count +ℤ pos 1)) (sym taken.returned);
          log_open = taken.log_open;
        })

    -- On a driver without faults a job that the pool takes is run to its end: if a poll has started a
    -- goroutine for a job, whose handler succeeds, the key of the jobs table is unique, the clock never
    -- goes back, and no log in the table has started after the time that it shows, then the row of the
    -- job is running, and what the goroutine does next makes it completed, without an error message;
    -- the rows of all other jobs are as before.
    pub poll-completes :
        (s : Settings) (p : Pool) (w : World) (job : Job)
        → Unique w.db.jobs
        → StartedBy (env.clock w.reads) w.db.logs
        → (poll_and_dispatch env p w).0.tasks ≡ working job ∷ p.tasks
        → execute_job job (poll_and_dispatch env p w).1 ≡ succeeds
        → let (p', w') = poll_and_dispatch env p w in
          Completed env job.id (env.clock w'.reads) w'.db.jobs (settle env s p' job w').db.jobs
    unfolding settle
    poll-completes s p w job unique started polls runs =
        let (p', w') = poll_and_dispatch env p w in
        let d = poll-Dispatched p w job unique started polls in
        let no_error =
          handle_job_success-succeeds env calm job job p'.id w' d.is_running d.found d.is_running
            (closable job.id w' d.begun) in
        rw runs (handle_job_success-completes env job p'.id w' no_error)
