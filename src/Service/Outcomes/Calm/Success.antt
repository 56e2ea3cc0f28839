-- ===== src/Service/Outcomes/Calm/Success.antt =====
-- HandleJobSuccess on a driver that reports no fault.
use queue_ctl.Prelude.{
  String, ◌+◌, ◌<◌, ◌≡◌, refl, sym, subst, Option, none, some, get_last?, arith, ◌==◌, count_rows,
  ◌&&◌, inl,
}
use queue_ctl.Domain.Errors.{ok}
use queue_ctl.Domain.Job.{Job, running, status_eq}
use queue_ctl.Domain.ExecutionLog.{ExecutionLog, success, is_zero}
use queue_ctl.Store.{Env, World, wrapping}
use queue_ctl.Store.Tx.{in_tx}
use queue_ctl.Store.Tx.Atomic.{tx_start}
use queue_ctl.Repository.Jobs as Jobs
use queue_ctl.Repository.Jobs.{same_version}
use queue_ctl.Repository.Jobs.Lookup.{row_of, row_of-id}
use queue_ctl.Repository.Logs as Logs
use queue_ctl.Service.Outcomes.Success.{then_close, then_complete, then_check, completed_job}
use queue_ctl.Service.Outcomes.{handle_job_success, succeed_in_tx, close_last}
use queue_ctl.Service.Outcomes.Calm.{
  IsCalm, StartedBefore, StartedBefore-later, Closable, last_log_counted, >>=-run, get_by_id_calm,
  get_by_job_id_calm, with_tx_calm, close_if_calm, update_found_calm, require_running_calm,
}

module _ (env : Env) (calm : IsCalm env) where
  close_last_calm :
      (worker_id job_id : String) (o : Option ExecutionLog) (w : World)
      → ((l : ExecutionLog)
          → o ≡ some l
          → StartedBefore env calm w.reads l × (0 < count_rows (Logs.has_id l.id) w.db.logs))
      → (close_last env worker_id o w).0 ≡ ok tt
  close_last_calm worker_id job_id none w h = refl
  close_last_calm worker_id job_id (some l) w h =
      let (started, there) = h l refl in
      close_if_calm env calm (l.worker_id == worker_id && is_zero l.finished_at) success "" l w
        (inl refl) started there

  -- the statements that follow the update of the job
  then_close_calm :
      (worker_id : String) (saved : Job) (w : World)
      → ((l : ExecutionLog)
          → get_last? (Logs.logs_of saved.id w.db.logs) ≡ some l
          → StartedBefore env calm w.reads l)
      → (then_close env worker_id saved w).0 ≡ ok saved
  then_close_calm worker_id saved w started =
      let read = get_by_job_id_calm env calm saved.id w in
      let last = get_last? (Logs.logs_of saved.id w.db.logs) in
      let closed =
        close_last_calm worker_id saved.id last (record w { calls = w.calls + 1 })
          (λ l e. (started l e, last_log_counted saved.id w.db.logs e)) in
      rw read (rw closed refl)

  then_complete_calm :
      (worker_id : String) (row : Job) (w : World)
      → row_of row.id w ≡ some row
      → Closable env calm row.id w
      → (then_complete env worker_id row w).0
        ≡ ok (record (completed_job env row) { updated_at = env.clock w.reads })
  then_complete_calm worker_id row w found closable =
      let text : String = "failed to update job success status" in
      let job = completed_job env row in
      let saved = record job { updated_at = env.clock w.reads } in
      let m = wrapping text (Jobs.update env job) in
      let (updated, same_logs, later) = update_found_calm env calm text job row w refl refl found in
      >>=-run m (then_close env worker_id) w updated (
        then_close_calm worker_id saved (m w).1 (λ l e.
          StartedBefore-later env calm l (omega (arith, later)) (
            closable l
              (subst (λ logs. get_last? (Logs.logs_of row.id logs) ≡ some l) same_logs e))))

  succeed_calm :
      (id worker_id : String) (row : Job) (w : World)
      → row_of id w ≡ some row
      → row.id ≡ id
      → row.status ≡ running
      → Closable env calm id w
      → (succeed_in_tx env id worker_id in_tx w).0
        ≡ ok (record (completed_job env row) { updated_at = env.clock w.reads })
  unfolding succeed_in_tx
  succeed_calm id worker_id row w found same is_running closable =
      let w' = record w { calls = w.calls + 1 } in
      let completes =
        then_complete_calm worker_id row w' (subst (λ k. row_of k w ≡ some row) (sym same) found)
          (subst (λ k. Closable env calm k w) (sym same) closable) in
      let checked : (then_check env worker_id row w').0
          ≡ ok (record (completed_job env row) { updated_at = env.clock w.reads }) =
        rw (require_running_calm env calm row w' is_running) completes in
      rw (get_by_id_calm env calm id w found) checked

  -- On a driver without faults HandleJobSuccess succeeds: if the argument and the row of the job are
  -- running, and the clock no longer shows a time before the start of the last log of the job, then
  -- it returns no error.
  pub handle_job_success-succeeds :
      (job row : Job) (worker_id : String) (w : World)
      → job.status ≡ running
      → row_of job.id w ≡ some row
      → row.status ≡ running
      → Closable env calm job.id w
      → (handle_job_success env (some job) worker_id w).result ≡ ok tt
  unfolding handle_job_success status_eq
  handle_job_success-succeeds job row worker_id w starts found is_running closable =
      let ran =
        succeed_calm job.id worker_id row (tx_start w) found (row_of-id job.id w.db.jobs found)
          is_running closable in
      let committed = with_tx_calm env calm (succeed_in_tx env job.id worker_id) w ran in
      rw starts (rw committed refl)
