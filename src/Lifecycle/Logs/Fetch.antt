-- ===== src/Lifecycle/Logs/Fetch.antt =====
-- FetchNextJob keeps the invariant of the logs.
use queue_ctl.Prelude.{
  String, ◌≡◌, ◌⊎◌, refl, ap, sym, subst, inl, inr, Option, none, some, arith, Bool-cases, ◌==◌,
  count_rows, ◌∷◌, [], ◌++◌,
}
use queue_ctl.Domain.Errors.{Result, ok, err}
use queue_ctl.Domain.Job.{Job}
use queue_ctl.Domain.ExecutionLog.{ExecutionLog}
use queue_ctl.Domain.Clocked.{new_execution_log, or_now}
use queue_ctl.Prelude.Int.{pos}
use queue_ctl.Store.{Env, Db, World, now, new_id}
use queue_ctl.Store.Keeps.{Keeps}
use queue_ctl.Store.Preserves.{Preserves-bind, Preserves-with_tx}
use queue_ctl.Store.Tx.{in_tx, with_tx}
use queue_ctl.Repository.Jobs as Jobs
use queue_ctl.Repository.Logs as Logs
use queue_ctl.Service.Fetch.{log_attempt, fetch_in_tx, fetch_next_job}
use queue_ctl.Service.Fetch.Takes.{opened_log, log_attempt_ok}
use queue_ctl.Lifecycle.Logs.{LogsSound, append-LogsSound}
use queue_ctl.Lifecycle.Logs.Outcomes.{logs_in, KeepsSound, quiet}

module _ (env : Env) where
  -- A log that is inserted has a new identifier and is open.
  attempt_cases :
      (worker_id : String) (job : Job) (w : World)
      → let after = (log_attempt env worker_id (some job) w).1.db.logs in
        (after ≡ w.db.logs)
        ⊎ ((l : ExecutionLog) × (count_rows (Logs.has_id l.id) w.db.logs ≡ 0)
            × (l.finished_at ≡ pos 0)
            × (after ≡ w.db.logs ++ l ∷ []))
  unfolding new_id now new_execution_log or_now Logs.insert
  attempt_cases worker_id job w = go (log_attempt env worker_id (some job) w).0 refl
    where
      go :
          (r : Result (Option Job))
          → (log_attempt env worker_id (some job) w).0 ≡ r
          → let after = (log_attempt env worker_id (some job) w).1.db.logs in
            (after ≡ w.db.logs)
            ⊎ ((l : ExecutionLog) × (count_rows (Logs.has_id l.id) w.db.logs ≡ 0)
                × (l.finished_at ≡ pos 0)
                × (after ≡ w.db.logs ++ l ∷ []))
      go (err e) q = inl (ground arith)
      go (ok r) q = inr (
        opened_log env worker_id job w,
        ground arith,
        refl,
        ap (λ (d : Db). d.logs) (log_attempt_ok env worker_id job w q).1,
      )

  log_attempt-KeepsSound :
      (worker_id : String) (found : Option Job) → KeepsSound (log_attempt env worker_id found)
  log_attempt-KeepsSound worker_id none = record { at = λ w h. h }
  log_attempt-KeepsSound worker_id (some job) = record {
    at = λ w h. elim (attempt_cases worker_id job w) [
      | inl same ↦ subst LogsSound (sym same) h
      | inr (l, new, open_yet, added) ↦
          subst LogsSound (sym added) (append-LogsSound l w.db.logs new open_yet h)
    ];
  }

  acquire-Keeps : (queue : String) → Keeps logs_in (Jobs.acquire_next_pending_job env in_tx queue)
  unfolding Jobs.acquire_next_pending_job Jobs.acquire_in_tx with_tx
  acquire-Keeps queue = record { at = λ w. ground arith }

  fetch_in_tx-KeepsSound :
      (queue worker_id : String) → KeepsSound (fetch_in_tx env queue worker_id in_tx)
  unfolding fetch_in_tx
  fetch_in_tx-KeepsSound queue worker_id =
      Preserves-bind (λ (w : World). LogsSound w.db.logs) _ _ (quiet env _ (acquire-Keeps queue))
        (log_attempt-KeepsSound worker_id)

  pub fetch-LogsSound :
      (queue worker_id : String) (w : World)
      → LogsSound w.db.logs
      → LogsSound (fetch_next_job env queue worker_id w).1.db.logs
  unfolding fetch_next_job
  fetch-LogsSound queue worker_id w h =
      let kept =
        Preserves-with_tx env (λ d. LogsSound d.logs) (fetch_in_tx env queue worker_id)
          (fetch_in_tx-KeepsSound queue worker_id) w h in
      elim (Bool-cases (worker_id == "")) [ inl q ↦ rw q h | inr q ↦ rw q kept ]
