-- ===== src/Domain/Clocked/Valid.antt =====
-- What the constructors of internal/domain build is valid.
use queue_ctl.Prelude.{String, ◌≡◌, ◌≢◌, arith}
use queue_ctl.Prelude.Int.{ℤ, pos, eqb_ℤ_iff}
use queue_ctl.Domain.Errors.{ok}
use queue_ctl.Domain.Job.{Time}
use queue_ctl.Domain.ExecutionLog as ExecutionLog
use queue_ctl.Domain.ExecutionLog.{ExecutionStatus, success, failed}
use queue_ctl.Domain.Worker as Worker
use queue_ctl.Domain.Clocked.{new_worker, new_execution_log, or_now}
use queue_ctl.Store.{Env, World}

module _ (env : Env) (w : World) where
  new_worker-valid :
      (id hostname queue : String) (concurrency : ℤ) {v : Worker.Worker}
      → (new_worker env id hostname queue concurrency w).0 ≡ ok v
      → Worker.validate v ≡ ok tt
  unfolding new_worker Worker.validate
  new_worker-valid id hostname queue concurrency {v} h = ground arith

  new_execution_log-valid :
      (id job_id worker_id : String) (attempt : ℤ) (started_at : Time)
      {l : ExecutionLog.ExecutionLog}
      → env.clock w.reads ≢ pos 0
      → (new_execution_log env id job_id worker_id attempt started_at w).0 ≡ ok l
      → ExecutionLog.validate l ≡ ok tt
  unfolding new_execution_log or_now ExecutionLog.validate
  new_execution_log-valid id job_id worker_id attempt started_at {l} t h =
      ground (arith, eqb_ℤ_iff (env.clock w.reads) (pos 0))
