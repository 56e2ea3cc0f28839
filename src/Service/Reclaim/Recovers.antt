-- ===== src/Service/Reclaim/Recovers.antt =====
-- The jobs that ReclaimOrphanedJobs takes from stopped workers.
use queue_ctl.Prelude.{◌+◌, ◌≡◌, ap, sym, subst, Option, some, arith, get_last?, find_row}
use queue_ctl.Prelude.Int.{pos}
use queue_ctl.Domain.Errors.{Result}
use queue_ctl.Domain.Job.{Job, running, status_eq}
use queue_ctl.Domain.ExecutionLog.{ExecutionLog}
use queue_ctl.Domain.Worker.{Worker, stopped, worker_status_eq}
use queue_ctl.Scheduler.{notify}
use queue_ctl.Store.{Env, World}
use queue_ctl.Repository.Jobs.Lookup.{row_of}
use queue_ctl.Repository.Logs as Logs
use queue_ctl.Repository.Workers as Workers
use queue_ctl.Service.Queue.{Settings}
use queue_ctl.Service.Outcomes.{handle_job_failure}
use queue_ctl.Service.Outcomes.Failure.{Failed, handle_job_failure-settles}
use queue_ctl.Service.Outcomes.Calm.{IsCalm, StartedBefore}
use queue_ctl.Service.Outcomes.Calm.Owned.{Owned}
use queue_ctl.Service.Outcomes.Calm.Failure.{handle_job_failure-succeeds}
use queue_ctl.Service.Reclaim.{find_dead_owner, reclaim_one, after_failure, reclaim_error}

module _ (env : Env) (calm : IsCalm env) (s : Settings) where
  after_failure_db :
      (r : Result (Unit {0})) (job : Option Job) (w : World)
      → (after_failure env s r job w).db ≡ w.db
  unfolding notify status_eq
  after_failure_db r job w = ground arith

  gone_owner :
      (job : Job) (w : World) (l : ExecutionLog) (owner : Worker)
      → get_last? (Logs.logs_of job.id w.db.logs) ≡ some l
      → find_row (Workers.has_id l.worker_id) w.db.workers ≡ some owner
      → owner.status ≡ stopped
      → find_dead_owner env job w ≡ (some l.worker_id, record w { calls = w.calls + 1 + 1 })
  unfolding find_dead_owner Logs.get_by_job_id Workers.get_by_id worker_status_eq
  gone_owner job w l owner last row gone = ground (arith, calm w.calls, calm (w.calls + 1))

  the_last :
      (job : Job) (w : World) (l : ExecutionLog)
      → get_last? (Logs.logs_of job.id w.db.logs) ≡ some l
      → l.finished_at ≡ pos 0
      → StartedBefore env calm w.reads l
      → Owned env calm l.worker_id job.id w.reads w.db.logs
  the_last job w l last open_yet started = record {
    owner =
        λ k e. let same : l ≡ k = ground arith in ap (λ (l : ExecutionLog). l.worker_id) (sym same);
    open_yet = λ k e.
        let same : l ≡ k = ground arith in
        subst (λ (k : ExecutionLog). k.finished_at ≡ pos 0) same open_yet;
    started = λ k e.
        let same : l ≡ k = ground arith in subst (StartedBefore env calm w.reads) same started;
  }

  -- On a driver without faults the body of the loop of ReclaimOrphanedJobs recovers the job of a stopped
  -- worker: if the argument and the row of the job are running, and its last log is open, has not
  -- started after a time that the clock still shows, and is that of a worker whose row is stopped, then one
  -- more failure is counted in the row, which is pending and due after the delay of the backoff, or
  -- dead_letter if the count is above max_retries. The rows of all other jobs are as before.
  pub reclaim_one-recovers :
      (job row : Job) (w : World) (l : ExecutionLog) (owner : Worker)
      → job.status ≡ running
      → row_of job.id w ≡ some row
      → row.status ≡ running
      → get_last? (Logs.logs_of job.id w.db.logs) ≡ some l
      → l.finished_at ≡ pos 0
      → StartedBefore env calm w.reads l
      → find_row (Workers.has_id l.worker_id) w.db.workers ≡ some owner
      → owner.status ≡ stopped
      → Failed env s.backoff reclaim_error job.id w.reads w.db.jobs
          (reclaim_one env s job w).db.jobs
  unfolding reclaim_one
  reclaim_one-recovers job row w l owner starts found is_running last open_yet started worker gone =
      let w' = record w { calls = w.calls + 1 + 1 } in
      let settled =
        handle_job_failure-succeeds env calm l.worker_id reclaim_error s job row w' starts found
          is_running (the_last job w l last open_yet started) in
      let failed = handle_job_failure-settles env s job l.worker_id reclaim_error w' settled in
      let h = handle_job_failure env s (some job) l.worker_id (some reclaim_error) w' in
      rw (gone_owner job w l owner last worker gone) (
        subst (λ db. Failed env s.backoff reclaim_error job.id w.reads w.db.jobs db.jobs)
          (sym (after_failure_db h.result h.job h.world)) failed)
