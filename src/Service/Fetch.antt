-- ===== src/Service/Fetch.antt =====
-- internal/service/job_service.go: FetchNextJob, one transaction for the job and its log.
pub mod Atomic
pub mod Takes
pub mod Empty
pub mod Finds
pub mod Opens
use queue_ctl.Prelude.{String, Option, none, some, ◌==◌}
use queue_ctl.Prelude.Int.{pos, ◌+ℤ◌, wrap64}
use queue_ctl.Domain.Errors.{refuse}
use queue_ctl.Domain.Job.{Job}
use queue_ctl.Domain.Clocked.{new_execution_log}
use queue_ctl.Store.{Env, Exec, pure, lift, wrapping, now, new_id, ◌>>=◌, ◌>>◌}
use queue_ctl.Store.Tx.{Ctx, plain, with_tx, tx_error}
use queue_ctl.Repository.Jobs as Jobs
use queue_ctl.Repository.Logs as Logs

module _ (env : Env) where
  abbrev pub log_attempt : String → Option Job → Exec (Option Job)
  log_attempt worker_id none = pure none
  log_attempt worker_id (some job) = do
    id ← new_id env
    t ← now env
    l ←
        wrapping "failed to create execution log domain"
          (new_execution_log env id job.id worker_id (wrap64 (job.retries_count +ℤ pos 1)) t)
    wrapping "failed to write execution log entry" (Logs.insert env l)
    pure (some job)

  -- the function that FetchNextJob runs in its transaction
  unfoldable pub fetch_in_tx : String → String → Ctx → Exec (Option Job)
  fetch_in_tx queue worker_id ctx = do
    job ← Jobs.acquire_next_pending_job env ctx queue
    log_attempt worker_id job

  -- FetchNextJob
  unfoldable pub fetch_next_job : String → String → Exec (Option Job)
  fetch_next_job queue worker_id = do
    lift (refuse (worker_id == "") "worker ID cannot be empty")
    wrapping "failed to fetch next job"
        (λ w. let (r, w') = with_tx env plain (fetch_in_tx queue worker_id) w in (tx_error r, w'))
