-- ===== src/Service/Fetch/Finds.antt =====
-- FetchNextJob where there is a job to take, on a driver that reports no fault.
use queue_ctl.Prelude.{
  String, true, ◌+◌, ◌<◌, ◌^◌, ◌≡◌, refl, false, some, arith, All, ◌==◌, where_rows, order_by,
  first_row, count_rows, Option-cases, inl, inr,
}
use queue_ctl.Prelude.Int.{ℤ, pos, negsuc, pos_part, ◌+ℤ◌, wrap64, wrap64_next, ltb_ℤ, leb_ℤ}
use queue_ctl.Prelude.Lists.Order.{All-first_row, All-order_by, All-where_rows}
use queue_ctl.Domain.Errors.{ok}
use queue_ctl.Domain.Job as Job
use queue_ctl.Domain.Job.{Job}
use queue_ctl.Domain.Clocked.{new_execution_log, or_now}
use queue_ctl.Store.{Env, World, new_id, now}
use queue_ctl.Store.Tx.{in_tx, with_tx}
use queue_ctl.Store.Tx.Atomic.{tx_start}
use queue_ctl.Repository.Jobs.{
  is_eligible, acquired_before, set_running, acquire_in_tx, acquire_next_pending_job,
}
use queue_ctl.Repository.Jobs.Acquire.{selected_none}
use queue_ctl.Repository.Logs as Logs
use queue_ctl.Service.Outcomes.Calm.{IsCalm, with_tx_calm, >>=-run}
use queue_ctl.Service.Fetch.{log_attempt, fetch_in_tx, fetch_next_job}

-- A valid row whose count of failures can be raised in 64 bits.
abbrev pub CanStart : Job → Type 0
CanStart j = (Job.validate j ≡ ok tt) × (pos_part j.retries_count + 1 < 2 ^ 63)

next_attempt :
    (a : ℤ)
    → ltb_ℤ a (pos 0) ≡ false
    → pos_part a + 1 < 2 ^ 63
    → leb_ℤ (wrap64 (a +ℤ pos 1)) (pos 0) ≡ false
next_attempt (pos n) h k = rw (wrap64_next n k) (ground arith)
next_attempt (negsuc n) h k = absurd (ground arith)

start_checks :
    (j : Job)
    → CanStart j
    → ((j.id == "") ≡ false) × (leb_ℤ (wrap64 (j.retries_count +ℤ pos 1)) (pos 0) ≡ false)
unfolding Job.validate
start_checks j (valid, small) = (ground arith, next_attempt j.retries_count (ground arith) small)

module _ (env : Env) (calm : IsCalm env) (queue worker_id : String) where
  log_runs :
      (job : Job) (w : World)
      → (job.id == "") ≡ false
      → leb_ℤ (wrap64 (job.retries_count +ℤ pos 1)) (pos 0) ≡ false
      → (worker_id == "") ≡ false
      → (env.uuid w.ids == "") ≡ false
      → count_rows (Logs.has_id (env.uuid w.ids)) w.db.logs ≡ 0
      → (log_attempt env worker_id (some job) w).0 ≡ ok (some job)
  unfolding new_id now new_execution_log or_now Logs.insert
  log_runs job w named attempt worker fresh unused = ground (arith, calm w.calls)

  acquire_runs :
      (row : Job) (w : World)
      → first_row
          (order_by acquired_before (where_rows (is_eligible queue (env.clock w.reads)) w.db.jobs))
        ≡ some row
      → ((acquire_in_tx env queue w).0 ≡ ok (some (set_running (env.clock w.reads) row)))
        × ((acquire_in_tx env queue w).1.ids ≡ w.ids)
        × ((acquire_in_tx env queue w).1.db.logs ≡ w.db.logs)
  unfolding acquire_in_tx
  acquire_runs row w first = (
    ground (arith, calm w.calls, calm (w.calls + 1)),
    ground (arith, calm w.calls, calm (w.calls + 1)),
    ground (arith, calm w.calls, calm (w.calls + 1)),
  )

  fetch_runs :
      (row : Job) (w : World)
      → first_row
          (order_by acquired_before (where_rows (is_eligible queue (env.clock w.reads)) w.db.jobs))
        ≡ some row
      → CanStart row
      → (worker_id == "") ≡ false
      → (env.uuid w.ids == "") ≡ false
      → count_rows (Logs.has_id (env.uuid w.ids)) w.db.logs ≡ 0
      → (fetch_in_tx env queue worker_id in_tx w).0
        ≡ ok (some (set_running (env.clock w.reads) row))
  unfolding fetch_in_tx acquire_next_pending_job with_tx
  fetch_runs row w first start worker fresh unused =
      let acquire = acquire_next_pending_job env in_tx queue in
      let (acquired, ids, logs) = acquire_runs row w first in
      let (named, attempt) = start_checks row start in
      let got : (acquire w).0 ≡ ok (some (set_running (env.clock w.reads) row)) =
        rw acquired refl in
      >>=-run acquire (log_attempt env worker_id) w got (
        log_runs (set_running (env.clock w.reads) row) (acquire w).1 named attempt worker
          (rw ids fresh) (rw (ids, logs) unused))

  -- On a driver without faults FetchNextJob returns a job where there is one: if some row of the
  -- queue is pending and due, each row is valid and its count of failures can be raised in 64 bits,
  -- the worker has an identifier, and the identifier of the new log is not empty and not in use,
  -- then it returns a job and no error.
  pub fetch_next_job-finds :
      (w : World)
      → ¬ All (λ j. is_eligible queue (env.clock w.reads) j ≡ false) w.db.jobs
      → All CanStart w.db.jobs
      → (worker_id == "") ≡ false
      → (env.uuid w.ids == "") ≡ false
      → count_rows (Logs.has_id (env.uuid w.ids)) w.db.logs ≡ 0
      → (job : Job) × ((fetch_next_job env queue worker_id w).0 ≡ ok (some job))
  unfolding fetch_next_job
  fetch_next_job-finds w some_due start worker fresh unused =
      let p = is_eligible queue (env.clock w.reads) in
      elim (Option-cases (first_row (order_by acquired_before (where_rows p w.db.jobs)))) [
        | inl e ↦ absurd (some_due (selected_none queue (env.clock w.reads) w.db.jobs e))
        | inr (row, e) ↦
            let can =
              All-first_row (λ j. (p j ≡ true) × CanStart j)
                (order_by acquired_before (where_rows p w.db.jobs)) e
                (All-order_by acquired_before (λ j. (p j ≡ true) × CanStart j)
                  (where_rows p w.db.jobs) (All-where_rows CanStart p w.db.jobs start)) in
            let ran = fetch_runs row (tx_start w) e can.1 worker fresh unused in
            let committed = with_tx_calm env calm (fetch_in_tx env queue worker_id) w ran in
            (set_running (env.clock w.reads) row, rw (worker, committed) refl)
      ]
