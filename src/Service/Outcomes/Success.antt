-- ===== src/Service/Outcomes/Success.antt =====
-- What HandleJobSuccess does when it returns no error.
use queue_ctl.Prelude.{
  String, ◌+◌, ◌≡◌, refl, sym, true, false, Option, none, some, List, arith, get_last?, Bool, subst,
}
use queue_ctl.Domain.Errors.{ok}
use queue_ctl.Domain.Job.{Job, Time, running, completed, status_eq}
use queue_ctl.Domain.ExecutionLog.{ExecutionLog, ExecutionStatus}
use queue_ctl.Domain.Clocked.{complete}
use queue_ctl.Store.{Env, World, Exec, pure, wrapping, now, ◌>>=◌, ◌>>◌}
use queue_ctl.Store.Keeps.{Keeps, keeps_rules}
use queue_ctl.Store.Bind.{>>=-ok}
use queue_ctl.Store.Tx.{in_tx, plain, with_tx}
use queue_ctl.Store.Tx.Atomic.{with_tx-commit, tx_start, is_done-done}
use queue_ctl.Repository.Jobs as Jobs
use queue_ctl.Repository.Jobs.Lookup.{row_of, get_by_id_ok}
use queue_ctl.Repository.Jobs.Save.{jobs_of, row_in, Written, save-Written}
use queue_ctl.Repository.Logs as Logs
use queue_ctl.Service.Outcomes.{
  handle_job_success, succeed_in_tx, require_running, close_if, close_last,
}

pub require_running_ok :
    (row : Job) (w : World) {u : Unit {0}}
    → (require_running row w).0 ≡ ok u
    → (row.status ≡ running) × ((require_running row w).1 ≡ w)
unfolding status_eq
require_running_ok row w h = ground arith

-- Closing a log touches no job.
module _ (env : Env) where
  pub close_if-Keeps :
      (b : Bool) (status : ExecutionStatus) (text : String) (l : ExecutionLog)
      → Keeps jobs_of (close_if env b status text l)
  unfolding now complete Logs.update
  close_if-Keeps false status text l = search keeps_rules
  close_if-Keeps true status text l = record { at = λ w. ground arith }

  pub close_last-Keeps :
      (worker_id : String) (l : Option ExecutionLog) → Keeps jobs_of (close_last env worker_id l)
  close_last-Keeps worker_id none = search keeps_rules
  close_last-Keeps worker_id (some l) = close_if-Keeps _ _ _ l

  pub get_by_job_id-Keeps : (id : String) → Keeps jobs_of (Logs.get_by_job_id env id)
  unfolding Logs.get_by_job_id
  get_by_job_id-Keeps id = record { at = λ w. ground arith }

  -- the statements that follow the update of the job
  abbrev pub then_close : String → Job → Exec Job
  then_close worker_id saved = do
    logs ← wrapping "failed to retrieve execution log for update" (Logs.get_by_job_id env saved.id)
    close_last env worker_id (get_last? logs)
    pure saved

  then_close-Keeps : (worker_id : String) (saved : Job) → Keeps jobs_of (then_close worker_id saved)
  then_close-Keeps worker_id saved = search (keeps_rules, get_by_job_id-Keeps, close_last-Keeps)

  -- The row of a job that succeeded at a time.
  abbrev pub completed_row : Time → Job → Job
  completed_row t row = record row { status = completed; error_message = ""; updated_at = t }

  -- `latestJob` with its new status and no error message
  abbrev pub completed_job : Job → Job
  completed_job job = record job { status = completed; error_message = "" }

  -- the statements that follow the check of the status
  abbrev pub then_complete : String → Job → Exec Job
  then_complete worker_id latest =
      wrapping "failed to update job success status" (Jobs.update env (completed_job latest))
      >>= then_close worker_id

  abbrev pub then_check : String → Job → Exec Job
  then_check worker_id latest = require_running latest >> then_complete worker_id latest

  -- What a successful call has done with the row of the job.
  pub record Completed (id : String) (t : Time) (before after : List Job) : Type 0 where
    pub row : Job
    pub found : row_in id before ≡ some row
    pub was_running : row.status ≡ running
    pub change : Written id (completed_row t row) before after

  check_ok :
      (worker_id id : String) (row : Job) (w : World) {saved : Job}
      → row.id ≡ id
      → row_of id w ≡ some row
      → (then_check worker_id row w).0 ≡ ok saved
      → (row.status ≡ running)
        × Written id
            (completed_row (env.clock w.reads) row)
            w.db.jobs
            (then_check worker_id row w).1.db.jobs
  check_ok worker_id id row w {saved} same found h =
      let (u, is_running, rest, ended) =
        >>=-ok (require_running row) (λ _. then_complete worker_id row) w h in
      let (running_now, stays) = require_running_ok row w is_running in
      let rest' : (then_complete worker_id row w).0 ≡ ok saved = rw stays at rest in
      let written =
        save-Written env "failed to update job success status" (completed_job row) row
          (then_close worker_id) w (then_close-Keeps worker_id) rest'
          (subst (λ k. row_of k w ≡ some row) (sym same) found) refl in
      (
        running_now,
        rw ended (
            rw stays (
              subst
                (λ k.
                  Written k (completed_row (env.clock w.reads) row) w.db.jobs
                    (then_complete worker_id row w).1.db.jobs)
                same written)),
      )

  succeed_in_tx_ok :
      (id worker_id : String) (w : World) {saved : Job}
      → (succeed_in_tx env id worker_id in_tx w).0 ≡ ok saved
      → Completed id
          (env.clock w.reads)
          w.db.jobs
          (succeed_in_tx env id worker_id in_tx w).1.db.jobs
  unfolding succeed_in_tx
  succeed_in_tx_ok id worker_id w h =
      let (row, got, rest, ended) = >>=-ok (Jobs.get_by_id env id) (then_check worker_id) w h in
      let (found, same, read) = get_by_id_ok env id w got in
      let (was_running, written) =
        check_ok worker_id id row (record w { calls = w.calls + 1 }) same found (rw read at rest) in
      record {
        row = row;
        found = found;
        was_running = was_running;
        change = rw ended (rw read written);
      }

  -- If HandleJobSuccess returns no error, then its argument is a job whose row was running; that row
  -- is now completed, with no error message, and the rows of all other jobs are as before.
  pub handle_job_success-completes :
      (job : Job) (worker_id : String) (w : World)
      → (handle_job_success env (some job) worker_id w).result ≡ ok tt
      → Completed job.id
          (env.clock w.reads)
          w.db.jobs
          (handle_job_success env (some job) worker_id w).world.db.jobs
  unfolding handle_job_success
  handle_job_success-completes job worker_id w h =
      let fn = succeed_in_tx env job.id worker_id in
      let (saved, committed) = is_done-done (with_tx env plain fn w).0 (ground arith) in
      let (ran, ended) = with_tx-commit env fn w saved committed in
      let final : (handle_job_success env (some job) worker_id w).world
          ≡ (with_tx env plain fn w).1 =
        ground arith in
      let done_in_tx = succeed_in_tx_ok job.id worker_id (tx_start w) ran in
      rw final (rw ended done_in_tx)
