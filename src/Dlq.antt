-- ===== src/Dlq.antt =====
-- internal/dlq/dlq.go: the router of exhausted jobs, and the commands on the dead letter queue.
pub mod Commands
pub mod Envelope
use queue_ctl.Prelude.{String, Option, none, some, List, ◌==◌, if◌then◌else◌}
use queue_ctl.Prelude.Int.{ℤ, pos}
use queue_ctl.Prelude.Text.{◌^^◌}
use queue_ctl.Domain.Errors.{Error, msg, error_text, refuse}
use queue_ctl.Domain.Job.{Job, Time, pending, dead_letter, status_eq, status_text}
use queue_ctl.Store.{Env, Exec, pure, raise, lift, now, wrapping, ◌>>=◌, ◌>>◌}
use queue_ctl.Repository.Jobs.{get_by_id, update, delete, list_jobs}

abbrev reason : Option Error → String
reason none = "Unknown execution failure"
reason (some e) = error_text e

-- the job that Route writes
unfoldable pub buried : Job → Option Error → Job
buried job e = record job { status = dead_letter; error_message = reason e }

-- the job that Retry writes
abbrev pub revived : Time → Job → Job
revived t job = record job {
  status = pending;
  retries_count = pos 0;
  error_message = "";
  run_at = t;
}

module _ (env : Env) where
  -- Route
  unfoldable pub route : Job → Option Error → Exec Job
  route job e = wrapping ("failed to route job " ^^ job.id ^^ " to DLQ") (update env (buried job e))

  -- `if job.Status != domain.StatusDeadLetter`
  abbrev require_dead : String → Job → Exec (Unit {0})
  require_dead id job =
      if status_eq job.status dead_letter
      then pure tt
      else raise (
          msg ("job " ^^ id ^^ " is not in DLQ status (current: " ^^ status_text job.status ^^ ")"))

  -- what Retry, Delete and Restore begin with
  unfoldable pub fetch_dead : String → Exec Job
  unfolding status_eq
  fetch_dead id = do
    job ← wrapping ("failed to fetch DLQ job " ^^ id) (get_by_id env id)
    require_dead id job
    pure job

  -- List
  unfoldable pub list : String → String → ℤ → Exec (List Job)
  list queue search limit =
      wrapping "failed to list DLQ records" (list_jobs env queue dead_letter search limit)

  -- Retry
  unfoldable pub retry : String → Exec (Unit {0})
  unfolding now
  retry id = do
    job ← fetch_dead id
    t ← now env
    _ ← wrapping ("failed to retry DLQ job " ^^ id) (update env (revived t job))
    pure tt

  -- Delete
  unfoldable pub delete_dead : String → Exec (Unit {0})
  delete_dead id = do
    job ← fetch_dead id
    wrapping ("failed to delete DLQ job " ^^ id) (delete env id)

  -- Restore
  unfoldable pub restore : String → String → Exec (Unit {0})
  unfolding now
  restore id target_queue = do
    lift (refuse (target_queue == "") "target queue name cannot be empty")
    job ← fetch_dead id
    t ← now env
    _ ←
        wrapping ("failed to restore DLQ job " ^^ id)
          (update env (revived t (record job { queue = target_queue })))
    pure tt
