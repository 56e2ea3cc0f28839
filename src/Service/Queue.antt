-- ===== src/Service/Queue.antt =====
-- internal/service/job_service.go: Enqueue, GetJob, ListJobs, PurgeCompleted and the registration of
-- workers; ValidateJSON of internal/utils/validator.go.
pub mod Enqueue
use queue_ctl.Prelude.{ℕ, String, Bool, true, false, Option, none, some, List, ◌==◌, if◌then◌else◌}
use queue_ctl.Prelude.Int.{ℤ, pos, leb_ℤ}
use queue_ctl.Domain.Errors.{Result, ok, err, msg, refuse, invalid_json}
use queue_ctl.Domain.Job.{Job, JobStatus, Time, Duration}
use queue_ctl.Domain.Worker.{Worker, validate}
use queue_ctl.Domain.Clocked.{or_default, or_now, new_job}
use queue_ctl.Retry.Backoff.{Backoff}
use queue_ctl.Scheduler.{notify}
use queue_ctl.Store.{Env, Exec, pure, raise, lift, wrapping, new_id, ◌>>=◌, ◌>>◌}
use queue_ctl.Repository.Jobs as Jobs
use queue_ctl.Repository.Workers as Workers

-- What the service is built with: cfg.Worker.MaxRetries, the calculator of its retry engine, and
-- whether the scheduler is not nil.
pub record Settings : Type 0 where
  pub max_retries : ℤ
  pub backoff : Backoff
  pub has_scheduler : Bool

abbrev verdict : Bool → Result (Unit {0})
verdict true = ok tt
verdict false = err invalid_json

-- ValidateJSON
unfoldable pub validate_json : Env → String → Result (Unit {0})
validate_json env text = if text == "" then ok tt else verdict (env.valid_json text)

module _ (env : Env) (s : Settings) where
  -- Enqueue
  unfoldable pub enqueue : String → String → String → ℤ → Time → ℤ → Exec Job
  enqueue job_type payload queue priority run_at max_retries = do
    lift (refuse (job_type == "") "job type cannot be empty")
    wrapping "invalid payload" (lift (validate_json env payload))
    run ← or_now env run_at
    let retries = if leb_ℤ max_retries (pos 0) then s.max_retries else max_retries
    id ← new_id env
    job ←
        wrapping "failed to create job entity"
          (new_job env id job_type payload (or_default queue) priority retries run)
    wrapping "failed to enqueue job" (Jobs.insert env job)
    if s.has_scheduler then notify else pure tt
    pure job

module _ (env : Env) where
  -- GetJob
  unfoldable pub get_job : String → Exec Job
  get_job id = do
    lift (refuse (id == "") "job ID cannot be empty")
    wrapping "failed to get job details" (Jobs.get_by_id env id)

  -- ListJobs
  unfoldable pub list_jobs : String → JobStatus → String → ℤ → Exec (List Job)
  list_jobs queue status search limit =
      wrapping "failed to list jobs" (Jobs.list_jobs env queue status search limit)

  -- PurgeCompleted
  unfoldable pub purge_completed : Duration → Exec ℕ
  purge_completed older_than =
      wrapping "failed to purge completed jobs" (Jobs.delete_completed_jobs env older_than)

  -- RegisterWorker, where `none` is a nil pointer
  unfoldable pub register_worker : Option Worker → Exec (Unit {0})
  register_worker none = raise (msg "worker cannot be nil")
  register_worker (some w) = do
    wrapping "invalid worker attributes" (lift (validate w))
    wrapping "failed to register worker node" (Workers.upsert env w)

  -- UnregisterWorker
  unfoldable pub unregister_worker : String → Exec (Unit {0})
  unregister_worker id = do
    lift (refuse (id == "") "worker ID cannot be empty")
    wrapping "failed to unregister worker node" (Workers.delete env id)
