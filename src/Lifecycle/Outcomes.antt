-- ===== src/Lifecycle/Outcomes.antt =====
-- HandleJobSuccess and HandleJobFailure as steps of the contract.
use queue_ctl.Prelude.{
  String, ℕ, ◌≡◌, refl, ap, Option, none, some, arith, count_rows, inl, inr, Bool-cases,
}
use queue_ctl.Prelude.Int.{ltb_ℤ, wrap64, ◌+ℤ◌, pos}
use queue_ctl.Prelude.Lists.Rows.{count_rows-update_rows}
use queue_ctl.Domain.Errors.{Error, Result, ok, err, error_text}
use queue_ctl.Domain.Job.{Job, running}
use queue_ctl.Domain.ExecutionLog.{ExecutionLog}
use queue_ctl.Store.{Env, World, Exec}
use queue_ctl.Store.Keeps.{Keeps, keeps_rules}
use queue_ctl.Store.Tx.{in_tx, plain, with_tx}
use queue_ctl.Store.Tx.Atomic.{with_tx-commit, tx_start, is_done-done}
use queue_ctl.Repository.Jobs as Jobs
use queue_ctl.Repository.Jobs.{has_id, same_version, updated_row}
use queue_ctl.Repository.Jobs.Lookup.{update_jobs}
use queue_ctl.Repository.Jobs.Save.{jobs_of}
use queue_ctl.Repository.Logs as Logs
use queue_ctl.Retry.Engine.{handle_failure, Verdict}
use queue_ctl.Dlq.{route}
use queue_ctl.Service.Queue.{Settings}
use queue_ctl.Service.Outcomes.{
  handle_job_success, handle_job_failure, succeed_in_tx, fail_in_tx, require_running, check_owner,
  owned_by, dispatch, close_last, close_failed,
}
use queue_ctl.Service.Outcomes.Atomic.{handle_job_success-atomic, handle_job_failure-atomic}
use queue_ctl.Service.Outcomes.Success.{get_by_job_id-Keeps, handle_job_success-completes}
use queue_ctl.Service.Outcomes.Success as Success
use queue_ctl.Service.Outcomes.Settle as Settle
use queue_ctl.Service.Outcomes.Failure.{handle_job_failure-settles}
use queue_ctl.Service.Outcomes.Settle.{failed_row}
use queue_ctl.Lifecycle.{Move, completes, retries, dies}
use queue_ctl.Lifecycle.Table.{Refines, Refines-same, Refines-Written}

abbrev copies : String → World → ℕ
copies id w = count_rows (has_id id) w.db.jobs

-- Whatever leaves the jobs alone leaves their number alone.
through_jobs : {A : Type 0} (id : String) (m : Exec A) → Keeps jobs_of m → Keeps (copies id) m
through_jobs id m k = record { at = λ w. ap (count_rows (has_id id)) (k.at w) }

module _ (env : Env) (id : String) where
  update-copies : (job : Job) → Keeps (copies id) (Jobs.update env job)
  update-copies job = record {
    at = λ w. elim (update_jobs env job w) [
      | inl e ↦ rw e refl
      | inr e ↦ rw e (
          count_rows-update_rows (same_version job) (has_id id)
            (updated_row job (env.clock w.reads)) w.db.jobs (λ x. refl))
    ];
  }

  get_by_id-copies : (key : String) → Keeps (copies id) (Jobs.get_by_id env key)
  unfolding Jobs.get_by_id
  get_by_id-copies key = record { at = λ w. ground arith }

  require_running-copies : (job : Job) → Keeps (copies id) (require_running job)
  require_running-copies job = search keeps_rules

  logs-copies : (key : String) → Keeps (copies id) (Logs.get_by_job_id env key)
  logs-copies key = through_jobs id (Logs.get_by_job_id env key) (get_by_job_id-Keeps env key)

  close_last-copies :
      (worker_id : String) (l : Option ExecutionLog)
      → Keeps (copies id) (close_last env worker_id l)
  close_last-copies worker_id l =
      through_jobs id (close_last env worker_id l) (Success.close_last-Keeps env worker_id l)

  close_failed-copies :
      (worker_id text : String) (l : Option ExecutionLog)
      → Keeps (copies id) (close_failed env worker_id text l)
  close_failed-copies worker_id text l =
      through_jobs id (close_failed env worker_id text l)
        (Settle.close_failed-Keeps env worker_id text l)

  owned_by-copies :
      (worker_id : String) (l : Option ExecutionLog) → Keeps (copies id) (owned_by env worker_id l)
  owned_by-copies worker_id none = search keeps_rules
  owned_by-copies worker_id (some l) = search keeps_rules

  check_owner-copies :
      (worker_id : String) (job : Job) → Keeps (copies id) (check_owner env worker_id job)
  unfolding check_owner
  check_owner-copies worker_id job = search (keeps_rules, logs-copies, owned_by-copies)

  succeed-copies :
      (key worker_id : String) → Keeps (copies id) (succeed_in_tx env key worker_id in_tx)
  unfolding succeed_in_tx
  succeed-copies key worker_id =
      search
        (
          keeps_rules, get_by_id-copies, require_running-copies, update-copies, logs-copies,
          close_last-copies,
        )
        depth 14

  failure-copies :
      (s : Settings) (job : Job) (e : Error)
      → Keeps (copies id) (handle_failure env s.backoff job e)
  unfolding handle_failure
  failure-copies s job e = record { at = λ w. ground arith }

  dispatch-copies : (v : Verdict) (e : Error) → Keeps (copies id) (dispatch env v e)
  unfolding route
  dispatch-copies v e = search (keeps_rules, update-copies)

  fail-copies :
      (s : Settings) (key worker_id : String) (e : Error)
      → Keeps (copies id) (fail_in_tx env s key worker_id e in_tx)
  unfolding fail_in_tx
  fail-copies s key worker_id e =
      search
        (
          keeps_rules, get_by_id-copies, require_running-copies, check_owner-copies, failure-copies,
          dispatch-copies, logs-copies, close_failed-copies,
        )
        depth 18

module _ (env : Env) (worker_id : String) (w : World) where
  success_counts :
      (job : Job) (id : String)
      → (handle_job_success env (some job) worker_id w).result ≡ ok tt
      → copies id (handle_job_success env (some job) worker_id w).world ≡ copies id w
  unfolding handle_job_success
  success_counts job id h =
      let fn = succeed_in_tx env job.id worker_id in
      let (saved, committed) = is_done-done (with_tx env plain fn w).0 (ground arith) in
      let (ran, ended) = with_tx-commit env fn w saved committed in
      let final : (handle_job_success env (some job) worker_id w).world
          ≡ (with_tx env plain fn w).1 =
        ground arith in
      rw final (rw ended ((succeed-copies env id job.id worker_id).at (tx_start w)))

  -- HandleJobSuccess keeps the contract.
  pub success_Refines :
      (job : Job) → Refines w.db.jobs (handle_job_success env (some job) worker_id w).world.db.jobs
  success_Refines job = go (handle_job_success env (some job) worker_id w).result refl
    where
      go :
          (r : Result (Unit {0}))
          → (handle_job_success env (some job) worker_id w).result ≡ r
          → Refines w.db.jobs (handle_job_success env (some job) worker_id w).world.db.jobs
      go (err e) h =
          Refines-same (ap (λ d. d.jobs) (handle_job_success-atomic env w worker_id (some job) h))
      go (ok tt) h =
          let c = handle_job_success-completes env job worker_id w h in
          Refines-Written (completes c.row (env.clock w.reads) c.was_running) c.found c.change
            (λ id. success_counts job id h)

  module _ (s : Settings) (e : Error) where
    failed_row-Move :
        (row : Job) → row.status ≡ running → Move row (failed_row env s.backoff e w.reads row)
    failed_row-Move row r =
        let n = wrap64 (row.retries_count +ℤ pos 1) in
        elim (Bool-cases (ltb_ℤ row.max_retries n)) [
          | inl k ↦ rw k (dies row (error_text e) (env.clock w.reads) r (ground arith))
          | inr k ↦ rw k (retries row (error_text e) _ _ r (ground arith))
        ]

    failure_counts :
        (job : Job) (id : String)
        → (handle_job_failure env s (some job) worker_id (some e) w).result ≡ ok tt
        → copies id (handle_job_failure env s (some job) worker_id (some e) w).world ≡ copies id w
    unfolding handle_job_failure
    failure_counts job id h =
        let fn = fail_in_tx env s job.id worker_id e in
        let (saved, committed) = is_done-done (with_tx env plain fn w).0 (ground arith) in
        let (ran, ended) = with_tx-commit env fn w saved committed in
        let final : (handle_job_failure env s (some job) worker_id (some e) w).world
            ≡ (with_tx env plain fn w).1 =
          ground arith in
        rw final (rw ended ((fail-copies env id s job.id worker_id e).at (tx_start w)))

    -- HandleJobFailure keeps the contract.
    pub failure_Refines :
        (job : Job)
        → Refines w.db.jobs (handle_job_failure env s (some job) worker_id (some e) w).world.db.jobs
    failure_Refines job = go (handle_job_failure env s (some job) worker_id (some e) w).result refl
      where
        go :
            (r : Result (Unit {0}))
            → (handle_job_failure env s (some job) worker_id (some e) w).result ≡ r
            → Refines w.db.jobs
                (handle_job_failure env s (some job) worker_id (some e) w).world.db.jobs
        go (err x) h =
            Refines-same
              (ap (λ d. d.jobs) (handle_job_failure-atomic env w worker_id s (some job) (some e) h))
        go (ok tt) h =
            let c = handle_job_failure-settles env s job worker_id e w h in
            Refines-Written (failed_row-Move c.row c.was_running) c.found c.change
              (λ id. failure_counts job id h)
