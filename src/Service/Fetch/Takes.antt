-- ===== src/Service/Fetch/Takes.antt =====
-- What FetchNextJob takes, and the log that it opens.
use queue_ctl.Prelude.{
  String, ◌≡◌, refl, sym, ap, ◌∙◌, ◌+◌, Option, none, some, [], ◌∷◌, ◌++◌, arith, update_rows,
  if◌then◌else◌,
}
use queue_ctl.Prelude.Int.{pos, ◌+ℤ◌, wrap64}
use queue_ctl.Domain.Errors.{Result, ok, err}
use queue_ctl.Domain.Job.{Job, Time}
use queue_ctl.Domain.ExecutionLog.{ExecutionLog, failed, is_zero}
use queue_ctl.Domain.Clocked.{new_execution_log}
use queue_ctl.Store.{Env, World, Db, now, new_id}
use queue_ctl.Store.Tx.{in_tx, plain, with_tx, done}
use queue_ctl.Store.Tx.Atomic.{with_tx-commit, tx_start}
use queue_ctl.Repository.Jobs.{has_id, set_running, acquire_in_tx, acquire_next_pending_job}
use queue_ctl.Repository.Jobs.Acquire.{IsBest, acquired_row}
use queue_ctl.Repository.Logs as Logs
use queue_ctl.Service.Fetch.{log_attempt, fetch_in_tx, fetch_next_job}

module _ (env : Env) (worker_id : String) where
  -- The log of the attempt that starts in a state.
  abbrev pub opened_log : Job → World → ExecutionLog
  opened_log job w = record {
    id = env.uuid w.ids;
    job_id = job.id;
    worker_id = worker_id;
    attempt = wrap64 (job.retries_count +ℤ pos 1);
    status = failed;
    started_at = if is_zero (env.clock w.reads) then env.clock (w.reads + 1) else env.clock w.reads;
    finished_at = pos 0;
    error_message = "";
  }

  pub log_attempt_ok :
      (job : Job) (w : World) {r : Option Job}
      → (log_attempt env worker_id (some job) w).0 ≡ ok r
      → (r ≡ some job)
        × ((log_attempt env worker_id (some job) w).1.db
            ≡ record w.db { logs = w.db.logs ++ opened_log job w ∷ [] })
  unfolding new_id now new_execution_log Logs.insert
  log_attempt_ok job w h = ground arith

  -- What a fetch that takes a job at a time has made of the tables.
  pub record Taken (queue : String) (t : Time) (before : Db) (job : Job) (after : Db) : Type 0 where
    pub row : Job
    pub best : IsBest queue t before.jobs row
    pub returned : job ≡ set_running t row
    pub jobs : after.jobs ≡ update_rows (has_id row.id) (set_running t) before.jobs
    pub log : ExecutionLog
    pub logs : after.logs ≡ before.logs ++ log ∷ []
    pub log_job : log.job_id ≡ row.id
    pub log_worker : log.worker_id ≡ worker_id
    pub log_attempt : log.attempt ≡ wrap64 (row.retries_count +ℤ pos 1)
    pub log_open : log.finished_at ≡ pos 0
    pub workers : after.workers ≡ before.workers

  Taken-from :
      (queue : String) (w w' : World) (found job : Job)
      → acquire_in_tx env queue w ≡ (ok (some found), w')
      → (log_attempt env worker_id (some found) w').0 ≡ ok (some job)
      → Taken queue (env.clock w.reads) w.db job (log_attempt env worker_id (some found) w').1.db
  Taken-from queue w w' found job q h =
      let (row, best, returned, db) = acquired_row env queue w (ap (λ p. p.0) q) in
      let (same, logged) = log_attempt_ok found w' h in
      let same_job : job ≡ found = cc same in
      let db' : w'.db ≡ record w.db {
        jobs = update_rows (has_id row.id) (set_running (env.clock w.reads)) w.db.jobs;
      } =
        ap (λ p. p.1.db) (sym q) ∙ db in
      record {
        row = row;
        best = best;
        returned = same_job ∙ returned;
        jobs = ap (λ d. d.jobs) logged ∙ ap (λ d. d.jobs) db';
        log = opened_log found w';
        logs = ap (λ d. d.logs) logged ∙ ap (λ d. d.logs ++ opened_log found w' ∷ []) db';
        log_job = ap (λ j. j.id) returned;
        log_worker = refl;
        log_attempt = ap (λ j. wrap64 (j.retries_count +ℤ pos 1)) returned;
        log_open = refl;
        workers = ap (λ d. d.workers) logged ∙ ap (λ d. d.workers) db';
      }

  fetch_in_tx_ok :
      (queue : String) (w : World) (job : Job)
      → (fetch_in_tx env queue worker_id in_tx w).0 ≡ ok (some job)
      → Taken queue (env.clock w.reads) w.db job (fetch_in_tx env queue worker_id in_tx w).1.db
  unfolding fetch_in_tx acquire_next_pending_job with_tx
  fetch_in_tx_ok queue w job h = go (acquire_in_tx env queue w).0 (acquire_in_tx env queue w).1 refl
    where
      go :
          (r : Result (Option Job)) (w' : World)
          → acquire_in_tx env queue w ≡ (r, w')
          → Taken queue (env.clock w.reads) w.db job (fetch_in_tx env queue worker_id in_tx w).1.db
      go (err e) w' q = absurd (let k = h in ground arith)
      go (ok none) w' q = absurd (ground arith)
      go (ok (some found)) w' q = rw q (Taken-from queue w w' found job q (rw q at h))

  -- If FetchNextJob returns a job, then it was a row of the table that was pending in the queue and
  -- due, and no other such row comes before it by priority, due time and time of creation. The row
  -- is now running, and a log of this attempt by this worker, not finished, has been added; no
  -- other row of any table has changed.
  pub fetch_next_job-takes :
      (queue : String) (w : World) (job : Job)
      → (fetch_next_job env queue worker_id w).0 ≡ ok (some job)
      → Taken queue (env.clock w.reads) w.db job (fetch_next_job env queue worker_id w).1.db
  unfolding fetch_next_job
  fetch_next_job-takes queue w job h =
      let fn = fetch_in_tx env queue worker_id in
      let committed : (with_tx env plain fn w).0 ≡ done (some job) = ground arith in
      let (ran, ended) = with_tx-commit env fn w (some job) committed in
      let final : (fetch_next_job env queue worker_id w).1.db ≡ (fn in_tx (tx_start w)).1.db =
        ground arith in
      rw final (fetch_in_tx_ok queue (tx_start w) job ran)
