-- ===== src/Service/Fetch/Opens.antt =====
-- When the logs in the table have started, before and after FetchNextJob has taken a job.
use queue_ctl.Prelude.{
  ℕ, String, ◌+◌, ◌≤◌, ◌≡◌, refl, sym, Option, none, some, List, arith, All, subst,
}
use queue_ctl.Prelude.Int.{◌≤ℤ◌}
use queue_ctl.Prelude.Lists.Order.{All-map}
use queue_ctl.Prelude.Lists.Keys.{All-append}
use queue_ctl.Domain.Errors.{Result, ok, err}
use queue_ctl.Domain.Job.{Job, Time}
use queue_ctl.Domain.ExecutionLog.{ExecutionLog}
use queue_ctl.Domain.Clocked.{new_execution_log, or_now}
use queue_ctl.Store.{Env, World, new_id, now}
use queue_ctl.Store.Tx.{in_tx, plain, with_tx, done}
use queue_ctl.Store.Tx.Atomic.{with_tx-commit, tx_start}
use queue_ctl.Repository.Jobs.{acquire_in_tx, acquire_next_pending_job}
use queue_ctl.Repository.Logs as Logs
use queue_ctl.Service.Fetch.{log_attempt, fetch_in_tx, fetch_next_job}
use queue_ctl.Service.Fetch.Takes.{opened_log, log_attempt_ok}

-- The clock never goes back.
abbrev pub IsMonotone : Env → Type 0
IsMonotone env = (m n : ℕ) → m ≤ n → env.clock m ≤ℤ env.clock n

abbrev pub StartedBy : Time → List ExecutionLog → Type 0
StartedBy t logs = All (λ l. l.started_at ≤ℤ t) logs

pub StartedBy-later :
    (t u : Time) (logs : List ExecutionLog) → t ≤ℤ u → StartedBy t logs → StartedBy u logs
StartedBy-later t u logs k h = All-map logs (λ l s. omega arith) h

module _ (env : Env) (monotone : IsMonotone env) (queue worker_id : String) where
  log_starts :
      (job : Job) (w : World) {r : Option Job}
      → (log_attempt env worker_id (some job) w).0 ≡ ok r
      → let after = (log_attempt env worker_id (some job) w).1 in
        (w.reads ≤ after.reads)
        × ((opened_log env worker_id job w).started_at ≤ℤ env.clock after.reads)
  unfolding new_id now new_execution_log or_now Logs.insert
  log_starts job w h = (
    ground arith,
    ground (
      arith,
      monotone w.reads (w.reads + 1) (omega arith),
      monotone (w.reads + 1) (w.reads + 1 + 1) (omega arith),
    ),
  )

  log_opens :
      (job : Job) (w : World) {r : Option Job}
      → (log_attempt env worker_id (some job) w).0 ≡ ok r
      → StartedBy (env.clock w.reads) w.db.logs
      → let after = (log_attempt env worker_id (some job) w).1 in
        StartedBy (env.clock after.reads) after.db.logs
  log_opens job w h started =
      let after = (log_attempt env worker_id (some job) w).1 in
      let (later, opened) = log_starts job w h in
      let (same, db) = log_attempt_ok env worker_id job w h in
      subst (λ d. StartedBy (env.clock after.reads) d.logs) (sym db)
        (All-append (λ l. l.started_at ≤ℤ env.clock after.reads) w.db.logs
          (opened_log env worker_id job w)
          (StartedBy-later (env.clock w.reads) (env.clock after.reads) w.db.logs
            (monotone w.reads after.reads later) started)
          opened)

  acquire_keeps :
      (w : World)
      → ((acquire_in_tx env queue w).1.db.logs ≡ w.db.logs)
        × (w.reads ≤ (acquire_in_tx env queue w).1.reads)
  unfolding acquire_in_tx
  acquire_keeps w = (ground arith, ground arith)

  fetch_opens :
      (w : World) (job : Job)
      → (fetch_in_tx env queue worker_id in_tx w).0 ≡ ok (some job)
      → StartedBy (env.clock w.reads) w.db.logs
      → let after = (fetch_in_tx env queue worker_id in_tx w).1 in
        StartedBy (env.clock after.reads) after.db.logs
  unfolding fetch_in_tx acquire_next_pending_job with_tx
  fetch_opens w job h started =
      let got = acquire_in_tx env queue w in
      let (same, later) = acquire_keeps w in
      go got.0 got.1 refl (
        subst (StartedBy (env.clock got.1.reads)) (sym same) (
          StartedBy-later (env.clock w.reads) (env.clock got.1.reads) w.db.logs
            (monotone w.reads got.1.reads later) started))
    where
      go :
          (r : Result (Option Job)) (w' : World)
          → acquire_in_tx env queue w ≡ (r, w')
          → StartedBy (env.clock w'.reads) w'.db.logs
          → let after = (fetch_in_tx env queue worker_id in_tx w).1 in
            StartedBy (env.clock after.reads) after.db.logs
      go (err e) w' q k = absurd (let k = h in ground arith)
      go (ok none) w' q k = absurd (ground arith)
      go (ok (some found)) w' q k = rw q (log_opens found w' (rw q at h) k)

  pub fetch_next_job-opens :
      (w : World) (job : Job)
      → (fetch_next_job env queue worker_id w).0 ≡ ok (some job)
      → StartedBy (env.clock w.reads) w.db.logs
      → let after = (fetch_next_job env queue worker_id w).1 in
        StartedBy (env.clock after.reads) after.db.logs
  unfolding fetch_next_job
  fetch_next_job-opens w job h started =
      let fn = fetch_in_tx env queue worker_id in
      let committed : (with_tx env plain fn w).0 ≡ done (some job) = ground arith in
      let (ran, ended) = with_tx-commit env fn w (some job) committed in
      let logs : (fetch_next_job env queue worker_id w).1.db ≡ (fn in_tx (tx_start w)).1.db =
        ground arith in
      let reads : (fetch_next_job env queue worker_id w).1.reads ≡ (fn in_tx (tx_start w)).1.reads =
        ground arith in
      rw (logs, reads) (fetch_opens (tx_start w) job ran started)
