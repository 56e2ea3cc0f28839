-- ===== src/Lifecycle/Logs/Outcomes.antt =====
-- HandleJobSuccess and HandleJobFailure keep the invariant of the logs.
use queue_ctl.Prelude.{
  String, ◌≡◌, ap, sym, subst, ◌∙◌, inl, inr, Option, none, some, List, arith, get_last?,
  Bool-cases,
}
use queue_ctl.Domain.Errors.{Error, ok}
use queue_ctl.Domain.Job.{Job, running, status_eq}
use queue_ctl.Domain.ExecutionLog.{ExecutionLog}
use queue_ctl.Retry.Backoff.{Backoff}
use queue_ctl.Retry.Engine.{Verdict, handle_failure}
use queue_ctl.Dlq.{route}
use queue_ctl.Store.{Env, Db, World, Exec, pure, wrapping, ◌>>=◌, ◌>>◌}
use queue_ctl.Store.Bind.{>>=-cases}
use queue_ctl.Store.Keeps.{Keeps, Keeps-wrapping, keeps_rules}
use queue_ctl.Store.Preserves.{Preserves, Keeps-Preserves, Preserves-bind, Preserves-with_tx}
use queue_ctl.Store.Tx.{in_tx}
use queue_ctl.Repository.Jobs as Jobs
use queue_ctl.Repository.Logs as Logs
use queue_ctl.Service.Queue.{Settings}
use queue_ctl.Service.Outcomes.{
  close_last, close_failed, require_running, check_owner, dispatch, succeed_in_tx, fail_in_tx,
  handle_job_success, handle_job_failure,
}
use queue_ctl.Lifecycle.Logs.{LogsSound, last_found, close_if-LogsSound}

abbrev pub logs_in : World → List ExecutionLog
logs_in w = w.db.logs

abbrev pub KeepsSound : {A : Type 0} → Exec A → Type 0
KeepsSound m = Preserves (λ w. LogsSound w.db.logs) m

module _ (env : Env) where
  read_logs :
      (text job_id : String) (w : World)
      → let m = wrapping text (Logs.get_by_job_id env job_id) in
        ((m w).1.db ≡ w.db)
        × ((logs : List ExecutionLog) → (m w).0 ≡ ok logs → logs ≡ Logs.logs_of job_id w.db.logs)
  unfolding Logs.get_by_job_id
  read_logs text job_id w = (ground arith, λ logs h. ground arith)

  then_pure : (m : Exec (Unit {0})) (saved : Job) (w : World) → ((m >> pure saved) w).1 ≡ (m w).1
  then_pure m saved w = elim (>>=-cases m (λ _. pure saved) w) [
    | inl (e, stopped, ended) ↦ ended
    | inr (u, ran, ended) ↦ ended
  ]

  -- The log that is closed is the last one of the job in the table.
  close_logs :
      (text job_id : String) (close : Option ExecutionLog → Exec (Unit {0})) (saved : Job)
      → ((last : Option ExecutionLog) (w : World)
          → get_last? (Logs.logs_of job_id w.db.logs) ≡ last
          → LogsSound w.db.logs
          → LogsSound (close last w).1.db.logs)
      → KeepsSound (do
        logs ← wrapping text (Logs.get_by_job_id env job_id)
        close (get_last? logs)
        pure saved)
  close_logs text job_id close saved sound = record {
    at = λ w h.
        let m = wrapping text (Logs.get_by_job_id env job_id) in
        let (same, read) = read_logs text job_id w in
        let still : LogsSound (m w).1.db.logs = subst (λ (d : Db). LogsSound d.logs) (sym same) h in
        elim (>>=-cases m (λ logs. close (get_last? logs) >> pure saved) w) [
          | inl (e, stopped, ended) ↦ subst (λ (v : World). LogsSound v.db.logs) (sym ended) still
          | inr (logs, got, ended) ↦
              let last : get_last? (Logs.logs_of job_id (m w).1.db.logs) ≡ get_last? logs =
                ap (λ (d : Db). get_last? (Logs.logs_of job_id d.logs)) same
                ∙ ap get_last? (sym (read logs got)) in
              subst (λ (v : World). LogsSound v.db.logs)
                (sym (ended ∙ then_pure (close (get_last? logs)) saved (m w).1))
                (sound (get_last? logs) (m w).1 last still)
        ];
  }

  close_last-LogsSound :
      (worker_id job_id : String) (last : Option ExecutionLog) (w : World)
      → get_last? (Logs.logs_of job_id w.db.logs) ≡ last
      → LogsSound w.db.logs
      → LogsSound (close_last env worker_id last w).1.db.logs
  close_last-LogsSound worker_id job_id none w e h = h
  close_last-LogsSound worker_id job_id (some l) w e h =
      close_if-LogsSound env _ _ _ l w (last_found job_id w.db.logs h e) h

  close_failed-LogsSound :
      (worker_id text job_id : String) (last : Option ExecutionLog) (w : World)
      → get_last? (Logs.logs_of job_id w.db.logs) ≡ last
      → LogsSound w.db.logs
      → LogsSound (close_failed env worker_id text last w).1.db.logs
  close_failed-LogsSound worker_id text job_id none w e h = h
  close_failed-LogsSound worker_id text job_id (some l) w e h =
      close_if-LogsSound env _ _ _ l w (last_found job_id w.db.logs h e) h

  -- The other statements leave the logs alone.
  get_by_id-Keeps : (id : String) → Keeps logs_in (Jobs.get_by_id env id)
  unfolding Jobs.get_by_id
  get_by_id-Keeps id = record { at = λ w. ground arith }

  update-Keeps : (job : Job) → Keeps logs_in (Jobs.update env job)
  unfolding Jobs.update
  update-Keeps job = record { at = λ w. ground arith }

  require-Keeps : (job : Job) → Keeps logs_in (require_running job)
  require-Keeps job = search keeps_rules

  check_owner-Keeps :
      (worker_id : String) (job : Job) → Keeps logs_in (check_owner env worker_id job)
  unfolding check_owner Logs.get_by_job_id
  check_owner-Keeps worker_id job = record { at = λ w. ground arith }

  dispatch-Keeps : (v : Verdict) (e : Error) → Keeps logs_in (dispatch env v e)
  unfolding route
  dispatch-Keeps v e = search (keeps_rules, update-Keeps)

  handle_failure-Keeps :
      (b : Backoff) (job : Job) (e : Error) → Keeps logs_in (handle_failure env b job e)
  unfolding handle_failure
  handle_failure-Keeps b job e = record { at = λ w. ground arith }

  pub quiet : {A : Type 0} (m : Exec A) → Keeps logs_in m → KeepsSound m
  quiet m k = Keeps-Preserves LogsSound m k

  succeed_in_tx-KeepsSound :
      (id worker_id : String) → KeepsSound (succeed_in_tx env id worker_id in_tx)
  unfolding succeed_in_tx
  succeed_in_tx-KeepsSound id worker_id =
      let P = λ (w : World). LogsSound w.db.logs in
      Preserves-bind P _ _ (quiet _ (get_by_id-Keeps id)) λ latest.
        Preserves-bind P _ _ (quiet _ (require-Keeps latest)) λ u.
          Preserves-bind P _ _ (quiet _ (Keeps-wrapping _ _ (update-Keeps _))) λ saved.
            close_logs _ saved.id (close_last env worker_id) saved
              (close_last-LogsSound worker_id saved.id)

  module _ (s : Settings) where
    fail_in_tx-KeepsSound :
        (id worker_id : String) (e : Error) → KeepsSound (fail_in_tx env s id worker_id e in_tx)
    unfolding fail_in_tx
    fail_in_tx-KeepsSound id worker_id e =
        let P = λ (w : World). LogsSound w.db.logs in
        Preserves-bind P _ _ (quiet _ (get_by_id-Keeps id)) λ latest.
          Preserves-bind P _ _ (quiet _ (require-Keeps latest)) λ u.
            Preserves-bind P _ _ (quiet _ (check_owner-Keeps worker_id latest)) λ u.
              Preserves-bind P _ _ (quiet _ (Keeps-wrapping _ _ (handle_failure-Keeps _ latest e)))
                λ v. Preserves-bind P _ _ (quiet _ (dispatch-Keeps v e)) λ saved.
                  close_logs _ saved.id (close_failed env worker_id saved.error_message) saved
                    (close_failed-LogsSound worker_id saved.error_message saved.id)

    pub failure-LogsSound :
        (job : Job) (worker_id : String) (e : Error) (w : World)
        → LogsSound w.db.logs
        → LogsSound (handle_job_failure env s (some job) worker_id (some e) w).world.db.logs
    unfolding handle_job_failure
    failure-LogsSound job worker_id e w h =
        let kept =
          Preserves-with_tx env (λ d. LogsSound d.logs) (fail_in_tx env s job.id worker_id e)
            (fail_in_tx-KeepsSound job.id worker_id e) w h in
        elim (Bool-cases (status_eq job.status running)) [ inl q ↦ rw q kept | inr q ↦ rw q h ]

  pub success-LogsSound :
      (job : Job) (worker_id : String) (w : World)
      → LogsSound w.db.logs
      → LogsSound (handle_job_success env (some job) worker_id w).world.db.logs
  unfolding handle_job_success
  success-LogsSound job worker_id w h =
      let kept =
        Preserves-with_tx env (λ d. LogsSound d.logs) (succeed_in_tx env job.id worker_id)
          (succeed_in_tx-KeepsSound job.id worker_id) w h in
      elim (Bool-cases (status_eq job.status running)) [ inl q ↦ rw q kept | inr q ↦ rw q h ]
