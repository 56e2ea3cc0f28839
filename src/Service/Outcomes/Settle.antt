-- ===== src/Service/Outcomes/Settle.antt =====
-- The statements of HandleJobFailure in its transaction, from the last ones to the first.
use queue_ctl.Prelude.{
  String, ℕ, ◌+◌, ◌≡◌, ap, sym, ◌∙◌, Option, none, some, arith, get_last?, subst, if◌then◌else◌,
}
use queue_ctl.Prelude.Int.{pos, ltb_ℤ, ◌+ℤ◌, wrap64}
use queue_ctl.Domain.Errors.{Error, ok, error_text}
use queue_ctl.Domain.Job.{Job, running, pending, dead_letter}
use queue_ctl.Domain.ExecutionLog.{ExecutionLog}
use queue_ctl.Retry.Backoff.{Backoff, calculate}
use queue_ctl.Retry.Engine.{Verdict, counted, handle_failure}
use queue_ctl.Dlq.{route, buried}
use queue_ctl.Store.{Env, World, Exec, pure, wrapping, ◌>>=◌, ◌>>◌}
use queue_ctl.Store.Keeps.{Keeps, keeps_rules}
use queue_ctl.Store.Bind.{>>=-ok, wrapping-ok}
use queue_ctl.Repository.Jobs as Jobs
use queue_ctl.Repository.Jobs.{updated_row}
use queue_ctl.Repository.Jobs.Lookup.{row_of}
use queue_ctl.Repository.Jobs.Save.{jobs_of, row_in, Written, Written-keeps, update-Written}
use queue_ctl.Repository.Logs as Logs
use queue_ctl.Service.Outcomes.{require_running, close_failed, check_owner, dispatch}
use queue_ctl.Service.Outcomes.Success.{require_running_ok, close_if-Keeps, get_by_job_id-Keeps}

-- The row of a job that failed, where the clock is read from `reads` on: one more failure is
-- counted, and the job is dead above its maximum, else pending again after the delay.
abbrev pub failed_row : Env → Backoff → Error → ℕ → Job → Job
failed_row env b e reads row =
    let n = wrap64 (row.retries_count +ℤ pos 1) in
    if ltb_ℤ row.max_retries n
    then record row {
      status = dead_letter;
      retries_count = n;
      error_message = error_text e;
      updated_at = env.clock reads;
    }
    else record row {
      status = pending;
      retries_count = n;
      error_message = error_text e;
      run_at = env.clock reads +ℤ calculate env.int64_overflow b n;
      updated_at = env.clock (reads + 1);
    }

module _ (env : Env) where
  pub close_failed-Keeps :
      (worker_id text : String) (l : Option ExecutionLog)
      → Keeps jobs_of (close_failed env worker_id text l)
  close_failed-Keeps worker_id text none = search keeps_rules
  close_failed-Keeps worker_id text (some l) = close_if-Keeps env _ _ _ l

  -- the statements that follow the update of the job
  abbrev pub then_close : String → Job → Exec Job
  then_close worker_id saved = do
    logs ← wrapping "failed to retrieve execution log for update" (Logs.get_by_job_id env saved.id)
    close_failed env worker_id saved.error_message (get_last? logs)
    pure saved

  then_close-Keeps : (worker_id : String) (saved : Job) → Keeps jobs_of (then_close worker_id saved)
  then_close-Keeps worker_id saved =
      search (keeps_rules, get_by_job_id-Keeps env, close_failed-Keeps)

  -- the job that is written
  abbrev target : Verdict → Error → Job
  target v e = if v.should_retry then v.job else buried v.job (some e)

  dispatch_ok :
      (v : Verdict) (e : Error) (w : World) {saved : Job}
      → (dispatch env v e w).0 ≡ ok saved
      → ((Jobs.update env (target v e) w).0 ≡ ok saved)
        × ((dispatch env v e w).1 ≡ (Jobs.update env (target v e) w).1)
  unfolding route
  dispatch_ok v e w h = ground arith

  target-id : (v : Verdict) (e : Error) → (target v e).id ≡ v.job.id
  unfolding buried
  target-id v e = ground arith

  target-updated_at : (v : Verdict) (e : Error) → (target v e).updated_at ≡ v.job.updated_at
  unfolding buried
  target-updated_at v e = ground arith

  settle_ok :
      (worker_id : String) (v : Verdict) (e : Error) (row : Job) (w : World) {saved : Job}
      → ((dispatch env v e >>= then_close worker_id) w).0 ≡ ok saved
      → row_of v.job.id w ≡ some row
      → row.updated_at ≡ v.job.updated_at
      → Written v.job.id
          (updated_row (target v e) (env.clock w.reads) row)
          w.db.jobs
          ((dispatch env v e >>= then_close worker_id) w).1.db.jobs
  settle_ok worker_id v e row w h found version =
      let (saved, sent, rest, ended) = >>=-ok (dispatch env v e) (then_close worker_id) w h in
      let (updated, same) = dispatch_ok v e w sent in
      let written =
        update-Written env (target v e) row w updated
          (subst (λ k. row_of k w ≡ some row) (sym (target-id v e)) found)
          (version ∙ sym (target-updated_at v e)) in
      Written-keeps v.job.id (updated_row (target v e) (env.clock w.reads) row)
        (subst
          (λ k.
            Written k (updated_row (target v e) (env.clock w.reads) row) w.db.jobs
              (Jobs.update env (target v e) w).1.db.jobs)
          (target-id v e) written)
        (ap jobs_of ended
          ∙ (then_close-Keeps worker_id saved).at (dispatch env v e w).1
          ∙ ap jobs_of same)

  module _ (b : Backoff) (worker_id : String) (e : Error) where
    abbrev pub then_decide : Job → Exec Job
    then_decide row =
        wrapping "failed to evaluate retry parameters" (handle_failure env b row e)
        >>= (λ v. dispatch env v e >>= then_close worker_id)

    abbrev pub then_own : Job → Exec Job
    then_own row = check_owner env worker_id row >> then_decide row

    abbrev pub then_check : Job → Exec Job
    then_check row = require_running row >> then_own row

    -- What the verdict makes of the row, and that it is about this row.
    verdict_ok :
        (row : Job) (w : World) {v : Verdict}
        → (handle_failure env b row e w).0 ≡ ok v
        → (v.job.id ≡ row.id)
          × (v.job.updated_at ≡ row.updated_at)
          × (updated_row (target v e) (env.clock (handle_failure env b row e w).1.reads) row
              ≡ failed_row env b e w.reads row)
          × ((handle_failure env b row e w).1.db ≡ w.db)
    unfolding handle_failure counted buried
    verdict_ok row w h = (ground arith, ground arith, ground arith, ground arith)

    decide_ok :
        (row : Job) (w : World) {saved : Job}
        → (then_decide row w).0 ≡ ok saved
        → row_of row.id w ≡ some row
        → Written row.id (failed_row env b e w.reads row) w.db.jobs (then_decide row w).1.db.jobs
    decide_ok row w h found =
        let fails = handle_failure env b row e in
        let text : String = "failed to evaluate retry parameters" in
        let (v, judged, rest, ended) =
          >>=-ok (wrapping text fails) (λ v. dispatch env v e >>= then_close worker_id) w h in
        let (same_id, same_version, target_row, same_db) =
          verdict_ok row w (wrapping-ok text fails w judged) in
        let w' = (fails w).1 in
        let settled =
          settle_ok worker_id v e row w' rest
            (subst (λ k. row_of k w' ≡ some row) (sym same_id)
              (ap (λ d. row_in row.id d.jobs) same_db ∙ found))
            (sym same_version) in
        Written-keeps row.id (failed_row env b e w.reads row)
          (subst
            (λ d.
              Written row.id (failed_row env b e w.reads row) d.jobs
                ((dispatch env v e >>= then_close worker_id) w').1.db.jobs)
            same_db
            (subst
              (λ r.
                Written row.id r w'.db.jobs
                  ((dispatch env v e >>= then_close worker_id) w').1.db.jobs)
              target_row
              (subst
                (λ k.
                  Written k (updated_row (target v e) (env.clock w'.reads) row) w'.db.jobs
                    ((dispatch env v e >>= then_close worker_id) w').1.db.jobs)
                same_id settled)))
          (ap jobs_of ended)

    -- Looking at the owner changes neither the jobs nor the clock.
    pub owner_keeps :
        (row : Job) (w : World)
        → ((check_owner env worker_id row w).1.db ≡ w.db)
          × ((check_owner env worker_id row w).1.reads ≡ w.reads)
    unfolding check_owner Logs.get_by_job_id
    owner_keeps row w = (ground arith, ground arith)

    own_ok :
        (row : Job) (w : World) {saved : Job}
        → (then_own row w).0 ≡ ok saved
        → row_of row.id w ≡ some row
        → Written row.id (failed_row env b e w.reads row) w.db.jobs (then_own row w).1.db.jobs
    own_ok row w h found =
        let (u, owned, rest, ended) =
          >>=-ok (check_owner env worker_id row) (λ _. then_decide row) w h in
        let (same_db, same_reads) = owner_keeps row w in
        let w' = (check_owner env worker_id row w).1 in
        let decided = decide_ok row w' rest (ap (λ d. row_in row.id d.jobs) same_db ∙ found) in
        Written-keeps row.id (failed_row env b e w.reads row)
          (subst
            (λ d.
              Written row.id (failed_row env b e w.reads row) d.jobs (then_decide row w').1.db.jobs)
            same_db
            (subst
              (λ n.
                Written row.id (failed_row env b e n row) w'.db.jobs (then_decide row w').1.db.jobs)
              same_reads decided))
          (ap jobs_of ended)

    pub check_ok :
        (id : String) (row : Job) (w : World) {saved : Job}
        → row.id ≡ id
        → row_of id w ≡ some row
        → (then_check row w).0 ≡ ok saved
        → (row.status ≡ running)
          × Written id (failed_row env b e w.reads row) w.db.jobs (then_check row w).1.db.jobs
    check_ok id row w {saved} same found h =
        let (u, is_running, rest, ended) = >>=-ok (require_running row) (λ _. then_own row) w h in
        let (running_now, stays) = require_running_ok row w is_running in
        let rest' : (then_own row w).0 ≡ ok saved = rw stays at rest in
        let written = own_ok row w rest' (subst (λ k. row_of k w ≡ some row) (sym same) found) in
        (
          running_now,
          rw ended (
              rw stays (
                subst
                  (λ k.
                    Written k (failed_row env b e w.reads row) w.db.jobs (then_own row w).1.db.jobs)
                  same written)),
        )
