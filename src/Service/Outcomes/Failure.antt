-- ===== src/Service/Outcomes/Failure.antt =====
-- What HandleJobFailure does when it returns no error.
use queue_ctl.Prelude.{String, ℕ, ◌+◌, ◌≡◌, some, List, arith}
use queue_ctl.Domain.Errors.{Error, ok}
use queue_ctl.Domain.Job.{Job, running}
use queue_ctl.Retry.Backoff.{Backoff}
use queue_ctl.Store.{Env, World}
use queue_ctl.Store.Bind.{>>=-ok}
use queue_ctl.Store.Tx.{in_tx, plain, with_tx}
use queue_ctl.Store.Tx.Atomic.{with_tx-commit, tx_start, is_done-done}
use queue_ctl.Repository.Jobs as Jobs
use queue_ctl.Repository.Jobs.{updated_row}
use queue_ctl.Repository.Jobs.Lookup.{get_by_id_ok}
use queue_ctl.Repository.Jobs.Save.{row_in, Written}
use queue_ctl.Service.Queue.{Settings}
use queue_ctl.Service.Outcomes.{handle_job_failure, fail_in_tx}
use queue_ctl.Service.Outcomes.Settle.{failed_row, then_check, check_ok}

module _ (env : Env) where
  -- What a call that returns no error has done with the row of the job.
  pub record Failed (b : Backoff) (e : Error) (id : String) (reads : ℕ) (before after : List Job)
      : Type 0 where
    pub row : Job
    pub found : row_in id before ≡ some row
    pub was_running : row.status ≡ running
    pub change : Written id (failed_row env b e reads row) before after

  module _ (s : Settings) where
    fail_in_tx_ok :
        (id worker_id : String) (e : Error) (w : World) {saved : Job}
        → (fail_in_tx env s id worker_id e in_tx w).0 ≡ ok saved
        → Failed s.backoff e id w.reads w.db.jobs
            (fail_in_tx env s id worker_id e in_tx w).1.db.jobs
    unfolding fail_in_tx
    fail_in_tx_ok id worker_id e w h =
        let (row, got, rest, ended) =
          >>=-ok (Jobs.get_by_id env id) (then_check env s.backoff worker_id e) w h in
        let (found, same, read) = get_by_id_ok env id w got in
        let (was_running, written) =
          check_ok env s.backoff worker_id e id row (record w { calls = w.calls + 1 }) same found
            (rw read at rest) in
        record {
          row = row;
          found = found;
          was_running = was_running;
          change = rw ended (rw read written);
        }

    -- If HandleJobFailure returns no error, then its argument is a job whose row was running. In that
    -- row one more failure is counted and the error's text is kept; it is dead_letter if the count is
    -- above max_retries, else pending and due after the delay of the backoff. The rows of all other
    -- jobs are as before.
    pub handle_job_failure-settles :
        (job : Job) (worker_id : String) (e : Error) (w : World)
        → (handle_job_failure env s (some job) worker_id (some e) w).result ≡ ok tt
        → Failed s.backoff e job.id w.reads w.db.jobs
            (handle_job_failure env s (some job) worker_id (some e) w).world.db.jobs
    unfolding handle_job_failure
    handle_job_failure-settles job worker_id e w h =
        let fn = fail_in_tx env s job.id worker_id e in
        let (saved, committed) = is_done-done (with_tx env plain fn w).0 (ground arith) in
        let (ran, ended) = with_tx-commit env fn w saved committed in
        let final : (handle_job_failure env s (some job) worker_id (some e) w).world
            ≡ (with_tx env plain fn w).1 =
          ground arith in
        let done_in_tx = fail_in_tx_ok job.id worker_id e (tx_start w) ran in
        rw final (rw ended done_in_tx)
