-- ===== src/Service/Outcomes/Stuck.antt =====
-- HandleJobFailure where the last log of the job, in the order of GetByJobID, is closed.
use queue_ctl.Prelude.{String, ◌≡◌, ◌≢◌, ◌∙◌, false, some, arith, ap, get_last?, ◌==◌, eq_iff, ◌+◌}
use queue_ctl.Prelude.Int.{pos}
use queue_ctl.Domain.Errors.{Error, ok}
use queue_ctl.Domain.Job.{Job}
use queue_ctl.Domain.ExecutionLog.{ExecutionLog, is_zero}
use queue_ctl.Store.{Env, World}
use queue_ctl.Store.Bind.{>>=-ok}
use queue_ctl.Store.Tx.{in_tx, plain, with_tx}
use queue_ctl.Store.Tx.Atomic.{with_tx-commit, tx_start, is_done-done}
use queue_ctl.Repository.Jobs as Jobs
use queue_ctl.Repository.Jobs.Lookup.{get_by_id_ok}
use queue_ctl.Repository.Logs as Logs
use queue_ctl.Service.Queue.{Settings}
use queue_ctl.Service.Outcomes.{handle_job_failure, fail_in_tx, require_running, check_owner}
use queue_ctl.Service.Outcomes.Success.{require_running_ok}
use queue_ctl.Service.Outcomes.Settle.{then_check, then_own, then_decide}

module _ (env : Env) (s : Settings) (worker_id : String) (e : Error) where
  owner_refuses :
      (row : Job) (w : World) (l : ExecutionLog) {u : Unit {0}}
      → (worker_id == "") ≡ false
      → get_last? (Logs.logs_of row.id w.db.logs) ≡ some l
      → is_zero l.finished_at ≡ false
      → (check_owner env worker_id row w).0 ≢ ok u
  unfolding check_owner Logs.get_by_job_id
  owner_refuses row w l named last closed h = ground arith

  refuses_in_tx :
      (id : String) (w : World) (l : ExecutionLog) {saved : Job}
      → (worker_id == "") ≡ false
      → get_last? (Logs.logs_of id w.db.logs) ≡ some l
      → is_zero l.finished_at ≡ false
      → (fail_in_tx env s id worker_id e in_tx w).0 ≢ ok saved
  unfolding fail_in_tx
  refuses_in_tx id w l {saved} named last closed h =
      let (row, got, rest, ended) =
        >>=-ok (Jobs.get_by_id env id) (then_check env s.backoff worker_id e) w h in
      let (found, same, read) = get_by_id_ok env id w got in
      let w' = record w { calls = w.calls + 1 } in
      let (u, is_running, rest', ended') =
        >>=-ok (require_running row) (λ _. then_own env s.backoff worker_id e row) w'
          (rw read at rest) in
      let (running_now, stays) = require_running_ok row w' is_running in
      let (u', owned, rest'', ended'') =
        >>=-ok (check_owner env worker_id row) (λ _. then_decide env s.backoff worker_id e row) w'
          (rw stays at rest') in
      owner_refuses row w' l named (ap (λ k. get_last? (Logs.logs_of k w.db.logs)) same ∙ last)
        closed owned

  -- If the last log of a job, by the number of its attempt, is closed, then a HandleJobFailure by a
  -- named worker returns an error, whatever the row of the job is.
  pub handle_job_failure-stuck :
      (job : Job) (w : World) (l : ExecutionLog)
      → worker_id ≢ ""
      → get_last? (Logs.logs_of job.id w.db.logs) ≡ some l
      → l.finished_at ≢ pos 0
      → (handle_job_failure env s (some job) worker_id (some e) w).result ≢ ok tt
  unfolding handle_job_failure
  handle_job_failure-stuck job w l named last closed h =
      let fn = fail_in_tx env s job.id worker_id e in
      let (saved, committed) = is_done-done (with_tx env plain fn w).0 (ground arith) in
      let (ran, ended) = with_tx-commit env fn w saved committed in
      refuses_in_tx job.id (tx_start w) l (ground (arith, eq_iff worker_id "")) last (ground arith)
        ran
