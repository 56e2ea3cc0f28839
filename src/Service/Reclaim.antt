-- ===== src/Service/Reclaim.antt =====
-- internal/service/job_service.go: ReclaimOrphanedJobs.
pub mod Spares
pub mod Recovers
use queue_ctl.Prelude.{String, Bool, Option, none, some, List, [], ◌∷◌, if◌then◌else◌, get_last?}
use queue_ctl.Prelude.Int.{pos}
use queue_ctl.Prelude.Text.{contains}
use queue_ctl.Prelude.{◌*◌}
use queue_ctl.Domain.Errors.{Error, Result, ok, err, msg, error_text}
use queue_ctl.Domain.Job.{Job, pending, running, status_eq}
use queue_ctl.Domain.ExecutionLog.{ExecutionLog}
use queue_ctl.Domain.Worker.{Worker, stopped, worker_status_eq}
use queue_ctl.Retry.Backoff.{second}
use queue_ctl.Scheduler.{notify}
use queue_ctl.Store.{Env, World, Exec, pure, wrapping, ◌>>=◌}
use queue_ctl.Repository.Jobs as Jobs
use queue_ctl.Repository.Logs as Logs
use queue_ctl.Repository.Workers as Workers
use queue_ctl.Service.Queue.{Settings}
use queue_ctl.Service.Outcomes.{handle_job_failure}

-- `none` where the loop goes on to the next job: its worker is alive, or cannot be looked up.
abbrev worker_gone : Result Worker → Bool
worker_gone (ok worker) = worker_status_eq worker.status stopped
worker_gone (err e) = contains (error_text e) "worker not found"

abbrev pub reclaim_error : Error
reclaim_error = msg "worker process terminated unexpectedly"

module _ (env : Env) where
  -- the dead worker's identifier, if the job is stale
  abbrev owner_gone : Option ExecutionLog → World → Option String × World
  owner_gone none w = (some "", w)
  owner_gone (some l) w =
      let (r, w') = Workers.get_by_id env l.worker_id w in
      (if worker_gone r then some l.worker_id else none, w')

  abbrev after_logs : Result (List ExecutionLog) → World → Option String × World
  after_logs (err e) w = (none, w)
  after_logs (ok logs) w = owner_gone (get_last? logs) w

  -- the first part of the loop's body: `deadWorkerID` where `isStale` holds
  unfoldable pub find_dead_owner : Job → World → Option String × World
  unfolding worker_status_eq
  find_dead_owner job w = let (r, w') = Logs.get_by_job_id env job.id w in after_logs r w'

  module _ (s : Settings) where
    abbrev wake_if_pending : Option Job → World → World
    wake_if_pending none w = w
    wake_if_pending (some job) w = if status_eq job.status pending then (notify w).1 else w

    -- every error of HandleJobFailure is only logged
    abbrev pub after_failure : Result (Unit {0}) → Option Job → World → World
    after_failure (err e) job w = w
    after_failure (ok _) job w = wake_if_pending job w

    abbrev pub reclaim : Job → Option String → World → World
    reclaim job none w = w
    reclaim job (some dead_worker) w =
        let h = handle_job_failure env s (some job) dead_worker (some reclaim_error) w in
        after_failure h.result h.job h.world

    -- the loop's body
    unfoldable pub reclaim_one : Job → World → World
    unfolding status_eq
    reclaim_one job w = let (owner, w') = find_dead_owner job w in reclaim job owner w'

    unfoldable pub reclaim_all : List Job → World → World
    reclaim_all [] w = w
    reclaim_all (job ∷ jobs) w = reclaim_all jobs (reclaim_one job w)

    -- ReclaimOrphanedJobs
    unfoldable pub reclaim_orphaned_jobs : Exec (Unit {0})
    reclaim_orphaned_jobs = do
      _ ← wrapping "failed to prune stale workers" (Workers.prune_stale env (pos (30 * second)))
      jobs ← wrapping "failed to list running jobs" (Jobs.list_jobs env "" running "" (pos 1000))
      (λ w. pure tt (reclaim_all jobs w))
