-- ===== src/Service/Outcomes/Atomic.antt =====
-- What HandleJobSuccess and HandleJobFailure leave behind when they return an error.
use queue_ctl.Prelude.{String, ◌≡◌, Option, none, some, arith}
use queue_ctl.Domain.Errors.{Error, err}
use queue_ctl.Domain.Job.{Job}
use queue_ctl.Store.{Env, World}
use queue_ctl.Store.Tx.Atomic.{with_tx-rollback}
use queue_ctl.Service.Queue.{Settings}
use queue_ctl.Service.Outcomes.{handle_job_success, handle_job_failure, succeed_in_tx, fail_in_tx}

module _ (env : Env) (w : World) (worker_id : String) where
  -- If HandleJobSuccess returns an error, then all three tables are as they were before the call,
  -- whichever of its statements or checks failed.
  pub handle_job_success-atomic :
      (job : Option Job) {e : Error}
      → (handle_job_success env job worker_id w).result ≡ err e
      → (handle_job_success env job worker_id w).world.db ≡ w.db
  unfolding handle_job_success
  handle_job_success-atomic none h = ground arith
  handle_job_success-atomic (some job) h =
      ground (arith, with_tx-rollback env (succeed_in_tx env job.id worker_id) w)

  -- If HandleJobFailure returns an error, then all three tables are as they were before the call,
  -- whichever of its statements or checks failed.
  pub handle_job_failure-atomic :
      (s : Settings) (job : Option Job) (reason : Option Error) {e : Error}
      → (handle_job_failure env s job worker_id reason w).result ≡ err e
      → (handle_job_failure env s job worker_id reason w).world.db ≡ w.db
  unfolding handle_job_failure
  handle_job_failure-atomic s none reason h = ground arith
  handle_job_failure-atomic s (some job) none h = ground arith
  handle_job_failure-atomic s (some job) (some r) h =
      ground (arith, with_tx-rollback env (fail_in_tx env s job.id worker_id r) w)
