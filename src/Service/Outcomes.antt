-- ===== src/Service/Outcomes.antt =====
-- internal/service/job_service.go: HandleJobSuccess and HandleJobFailure.
pub mod Atomic
pub mod Success
pub mod Settle
pub mod Failure
pub mod Stuck
pub mod Calm
use queue_ctl.Prelude.{
  String, Bool, true, false, not, ◌&&◌, ◌||◌, Option, none, some, ◌==◌, if◌then◌else◌, get_last?,
}
use queue_ctl.Prelude.Text.{◌^^◌}
use queue_ctl.Domain.Errors.{
  Error, Result, ok, err, msg, wrap, already_reclaimed, is_already_reclaimed,
}
use queue_ctl.Domain.Job.{Job, running, completed, status_eq, status_text}
use queue_ctl.Domain.ExecutionLog.{ExecutionLog, ExecutionStatus, success, failed, is_zero}
use queue_ctl.Domain.Clocked.{complete}
use queue_ctl.Retry.Engine.{Verdict, handle_failure}
use queue_ctl.Dlq.{route}
use queue_ctl.Store.{Env, World, Exec, pure, raise, wrapping, now, ◌>>=◌, ◌>>◌}
use queue_ctl.Store.Tx.{Ctx, plain, with_tx, TxResult, done, rejected, uncommitted}
use queue_ctl.Repository.Jobs as Jobs
use queue_ctl.Repository.Logs as Logs
use queue_ctl.Service.Queue.{Settings}

-- What a call of HandleJobSuccess or HandleJobFailure leaves: its error, the job that the caller's
-- pointer names, and the state.
pub record Handled : Type 0 where
  pub result : Result (Unit {0})
  pub job : Option Job
  pub world : World

-- `*job = *latestJob` is the last statement of the function that runs in the transaction, so that
-- it has been made also where the commit fails.
abbrev caller_job : Job → TxResult Job → Job
caller_job job (done j) = j
caller_job job (rejected e) = job
caller_job job (uncommitted j e) = j

abbrev reported : String → Error → Error
reported text e = if is_already_reclaimed e then already_reclaimed else wrap text e

abbrev caller_result : String → TxResult Job → Result (Unit {0})
caller_result text (done j) = ok tt
caller_result text (rejected e) = err (reported text e)
caller_result text (uncommitted j e) = err (reported text e)

abbrev handled : String → Job → TxResult Job × World → Handled
handled text job (r, w) = record {
  result = caller_result text r;
  job = some (caller_job job r);
  world = w;
}

abbrev refused : Option Job → Error → World → Handled
refused job e w = record { result = err e; job = job; world = w }

-- `if latestJob.Status != domain.StatusRunning { return ErrAlreadyReclaimed }`
abbrev pub require_running : Job → Exec (Unit {0})
require_running job = if status_eq job.status running then pure tt else raise already_reclaimed

-- The texts under which the errors of closing a log are wrapped.
abbrev pub complete_failed : ExecutionStatus → String
complete_failed success = "failed to complete execution log structure"
complete_failed _ = "failed to complete execution log failure structure"

abbrev pub write_failed : ExecutionStatus → String
write_failed success = "failed to write completed execution log"
write_failed _ = "failed to write failed execution log"

module _ (env : Env) where
  -- Closing the last log of a job, if it is the worker's and still open.
  abbrev pub close_if : Bool → ExecutionStatus → String → ExecutionLog → Exec (Unit {0})
  close_if false status message l = pure tt
  close_if true status message l = do
    t ← now env
    l' ← wrapping (complete_failed status) (complete env l status t message)
    wrapping (write_failed status) (Logs.update env l')

  abbrev pub close_last : String → Option ExecutionLog → Exec (Unit {0})
  close_last worker_id none = pure tt
  close_last worker_id (some l) =
      close_if (l.worker_id == worker_id && is_zero l.finished_at) success "" l

  -- the function that HandleJobSuccess runs in its transaction
  unfoldable pub succeed_in_tx : String → String → Ctx → Exec Job
  unfolding status_eq
  succeed_in_tx id worker_id ctx = do
    latest ← Jobs.get_by_id env id
    require_running latest
    saved ←
        wrapping "failed to update job success status"
          (Jobs.update env (record latest { status = completed; error_message = "" }))
    logs ← wrapping "failed to retrieve execution log for update" (Logs.get_by_job_id env saved.id)
    close_last worker_id (get_last? logs)
    pure saved

  abbrev success_of_running : Bool → Job → String → World → Handled
  success_of_running false job worker_id w =
      refused (some job)
        (msg (
          "invalid job state transition: cannot complete job in "
          ^^ status_text job.status
          ^^ " state"))
        w
  success_of_running true job worker_id w =
      handled "failed to handle job success" job
        (with_tx env plain (succeed_in_tx job.id worker_id) w)

  -- HandleJobSuccess, where `none` is a nil pointer
  unfoldable pub handle_job_success : Option Job → String → World → Handled
  unfolding status_eq is_already_reclaimed
  handle_job_success none worker_id w = refused none (msg "job cannot be nil") w
  handle_job_success (some job) worker_id w =
      success_of_running (status_eq job.status running) job worker_id w

  abbrev pub owned_by : String → Option ExecutionLog → Exec (Unit {0})
  owned_by worker_id none = pure tt
  owned_by worker_id (some l) =
      if not (l.worker_id == worker_id)
      then raise already_reclaimed
      else if not (is_zero l.finished_at)
      then raise already_reclaimed
      else pure tt

  -- "Ensure the job is still owned by the expected worker (if workerID is not empty)"
  unfoldable pub check_owner : String → Job → Exec (Unit {0})
  check_owner worker_id job =
      if worker_id == ""
      then pure tt
      else do logs ← Logs.get_by_job_id env job.id; owned_by worker_id (get_last? logs)

  -- the DLQ or the queue, as the retry engine says
  abbrev pub dispatch : Verdict → Error → Exec Job
  dispatch v e =
      if v.should_retry
      then wrapping "failed to update job status on failure" (Jobs.update env v.job)
      else wrapping "failed to route job to DLQ" (route env v.job (some e))

  abbrev pub close_failed : String → String → Option ExecutionLog → Exec (Unit {0})
  close_failed worker_id message none = pure tt
  close_failed worker_id message (some l) =
      close_if ((worker_id == "" || l.worker_id == worker_id) && is_zero l.finished_at) failed
        message l

  module _ (s : Settings) where
    -- the function that HandleJobFailure runs in its transaction
    unfoldable pub fail_in_tx : String → String → Error → Ctx → Exec Job
    unfolding status_eq
    fail_in_tx id worker_id e ctx = do
      latest ← Jobs.get_by_id env id
      require_running latest
      check_owner worker_id latest
      v ← wrapping "failed to evaluate retry parameters" (handle_failure env s.backoff latest e)
      saved ← dispatch v e
      logs ←
          wrapping "failed to retrieve execution log for update" (Logs.get_by_job_id env saved.id)
      close_failed worker_id saved.error_message (get_last? logs)
      pure saved

    abbrev failure_of_running : Bool → Job → String → Error → World → Handled
    failure_of_running false job worker_id e w =
        refused (some job)
          (msg (
            "invalid job state transition: cannot fail job in "
            ^^ status_text job.status
            ^^ " state"))
          w
    failure_of_running true job worker_id e w =
        handled "failed to handle job failure" job
          (with_tx env plain (fail_in_tx job.id worker_id e) w)

    -- HandleJobFailure, where `none` is a nil pointer or a nil error
    unfoldable pub handle_job_failure : Option Job → String → Option Error → World → Handled
    unfolding status_eq is_already_reclaimed
    handle_job_failure none worker_id e w = refused none (msg "job cannot be nil") w
    handle_job_failure (some job) worker_id none w =
        refused (some job) (msg "error reason cannot be nil") w
    handle_job_failure (some job) worker_id (some e) w =
        failure_of_running (status_eq job.status running) job worker_id e w
