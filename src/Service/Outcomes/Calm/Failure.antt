-- ===== src/Service/Outcomes/Calm/Failure.antt =====
-- HandleJobFailure on a driver that reports no fault.
use queue_ctl.Prelude.{
  String, ◌+◌, ◌≤◌, ◌≡◌, refl, ap, sym, ◌∙◌, subst, Bool, true, false, some, arith, inl, inr,
  Bool-cases,
}
use queue_ctl.Prelude.Int.{pos, ◌+ℤ◌, ltb_ℤ}
use queue_ctl.Domain.Errors.{Error, ok}
use queue_ctl.Domain.Job.{Job, Duration, pending, running, status_eq}
use queue_ctl.Retry.Backoff.{Backoff, calculate}
use queue_ctl.Retry.Engine.{Verdict, counted, handle_failure}
use queue_ctl.Dlq.{route, buried}
use queue_ctl.Store.{Env, World, ◌>>=◌, wrapping}
use queue_ctl.Store.Tx.{in_tx}
use queue_ctl.Store.Tx.Atomic.{tx_start}
use queue_ctl.Repository.Jobs as Jobs
use queue_ctl.Repository.Jobs.Lookup.{row_of, row_of-id}
use queue_ctl.Repository.Jobs.Save.{row_in}
use queue_ctl.Prelude.Text.{◌^^◌}
use queue_ctl.Service.Queue.{Settings}
use queue_ctl.Service.Outcomes.{handle_job_failure, fail_in_tx, check_owner, dispatch}
use queue_ctl.Service.Outcomes.Settle.{then_close, then_decide, then_own, then_check, owner_keeps}
use queue_ctl.Service.Outcomes.Calm.{
  IsCalm, >>=-run, get_by_id_calm, with_tx_calm, update_found_calm, require_running_calm,
}
use queue_ctl.Service.Outcomes.Calm.Owned.{Owned, Owned-later, check_owner_calm, then_close_calm}

module _ (env : Env) (calm : IsCalm env) (worker_id : String) (e : Error) where
  settle_calm :
      (job row : Job) (delay : Duration) (b : Bool) (w : World)
      → job.id ≡ row.id
      → job.updated_at ≡ row.updated_at
      → row_of row.id w ≡ some row
      → Owned env calm worker_id row.id w.reads w.db.logs
      → let v : Verdict = record { job = job; delay = delay; should_retry = b } in
        (saved : Job) × (((dispatch env v e >>= then_close env worker_id) w).0 ≡ ok saved)
  unfolding route buried
  settle_calm job row delay true w same version found o =
      let text : String = "failed to update job status on failure" in
      let m = wrapping text (Jobs.update env job) in
      let (updated, same_logs, later) =
        update_found_calm env calm text job row w same version found in
      let saved = record job { updated_at = env.clock w.reads } in
      (
        saved,
        >>=-run m (then_close env worker_id) w updated (
            then_close_calm env calm worker_id saved (m w).1 (
              Owned-later env calm worker_id _ _ (omega (arith, later)) (
                subst (λ k. Owned env calm worker_id k w.reads (m w).1.db.logs) (sym same)
                  (subst (λ logs. Owned env calm worker_id row.id w.reads logs) (sym same_logs)
                    o)))),
      )
  settle_calm job row delay false w same version found o =
      let dead = buried job (some e) in
      let text : String = "failed to route job " ^^ job.id ^^ " to DLQ" in
      let m = wrapping text (Jobs.update env dead) in
      let outer = wrapping "failed to route job to DLQ" m in
      let (updated, same_logs, later) =
        update_found_calm env calm text dead row w same version found in
      let saved = record dead { updated_at = env.clock w.reads } in
      let routed : (outer w).0 ≡ ok saved = rw updated refl in
      (
        saved,
        >>=-run outer (then_close env worker_id) w routed (
            then_close_calm env calm worker_id saved (outer w).1 (
              Owned-later env calm worker_id _ _ (omega (arith, later)) (
                subst (λ k. Owned env calm worker_id k w.reads (m w).1.db.logs) (sym same)
                  (subst (λ logs. Owned env calm worker_id row.id w.reads logs) (sym same_logs)
                    o)))),
      )

  module _ (b : Backoff) where
    -- The retry engine always gives a verdict, about the job that it was given.
    verdict_runs :
        (row : Job) (w : World)
        → (job : Job) × (delay : Duration) × (again : Bool) × ((handle_failure env b row e w).0
            ≡ ok (record { job = job; delay = delay; should_retry = again }))
          × (job.id ≡ row.id)
          × (job.updated_at ≡ row.updated_at)
          × ((handle_failure env b row e w).1.db ≡ w.db)
          × (w.reads ≤ (handle_failure env b row e w).1.reads)
    unfolding handle_failure counted
    verdict_runs row w =
        let j = counted row e in
        elim (Bool-cases (ltb_ℤ j.max_retries j.retries_count)) [
          | inl x ↦ (j, pos 0, false, ground arith, refl, refl, ground arith, ground arith)
          | inr x ↦ (
            record j {
              status = pending;
              run_at = env.clock w.reads +ℤ calculate env.int64_overflow b j.retries_count;
            },
            calculate env.int64_overflow b j.retries_count,
            true,
            ground arith,
            refl,
            refl,
            ground arith,
            ground arith,
          )
        ]

    decide_calm :
        (row : Job) (w : World)
        → row_of row.id w ≡ some row
        → Owned env calm worker_id row.id w.reads w.db.logs
        → (saved : Job) × ((then_decide env b worker_id e row w).0 ≡ ok saved)
    decide_calm row w found o =
        let fails = handle_failure env b row e in
        let text : String = "failed to evaluate retry parameters" in
        let (job, delay, again, judged, same, version, same_db, later) = verdict_runs row w in
        let v : Verdict = record { job = job; delay = delay; should_retry = again } in
        let w' = (fails w).1 in
        let (saved, settled) =
          settle_calm job row delay again w' same version
            (ap (λ d. row_in row.id d.jobs) same_db ∙ found)
            (Owned-later env calm worker_id _ _ later
              (subst (λ d. Owned env calm worker_id row.id w.reads d.logs) (sym same_db) o)) in
        let wrapped : (wrapping text fails w).0 ≡ ok v = rw judged refl in
        (
          saved,
          >>=-run (wrapping text fails) (λ v. dispatch env v e >>= then_close env worker_id) w
              wrapped settled,
        )

    own_calm :
        (row : Job) (w : World)
        → row_of row.id w ≡ some row
        → Owned env calm worker_id row.id w.reads w.db.logs
        → (saved : Job) × ((then_own env b worker_id e row w).0 ≡ ok saved)
    own_calm row w found o =
        let check = check_owner env worker_id row in
        let (same_db, same_reads) = owner_keeps env b worker_id e row w in
        let (saved, decided) =
          decide_calm row (check w).1 (ap (λ d. row_in row.id d.jobs) same_db ∙ found) (
            Owned-later env calm worker_id _ _ (omega (arith, same_reads))
              (subst (λ d. Owned env calm worker_id row.id w.reads d.logs) (sym same_db) o)) in
        (
          saved,
          >>=-run check (λ _. then_decide env b worker_id e row) w
              (check_owner_calm env calm worker_id row w o) decided,
        )

  module _ (s : Settings) where
    fail_calm :
        (id : String) (row : Job) (w : World)
        → row_of id w ≡ some row
        → row.id ≡ id
        → row.status ≡ running
        → Owned env calm worker_id id w.reads w.db.logs
        → (saved : Job) × ((fail_in_tx env s id worker_id e in_tx w).0 ≡ ok saved)
    unfolding fail_in_tx
    fail_calm id row w found same is_running o =
        let w' = record w { calls = w.calls + 1 } in
        let (saved, owned) =
          own_calm s.backoff row w' (subst (λ k. row_of k w ≡ some row) (sym same) found)
            (subst (λ k. Owned env calm worker_id k w.reads w.db.logs) (sym same) o) in
        let checked : (then_check env s.backoff worker_id e row w').0 ≡ ok saved =
          rw (require_running_calm env calm row w' is_running) owned in
        (saved, rw (get_by_id_calm env calm id w found) checked)

    -- On a driver without faults HandleJobFailure by the owner succeeds: if the argument and the row
    -- of the job are running, and the last log of the job, if there is one, is open, is the worker's
    -- and did not start after a time that the clock still shows, then it returns no error.
    pub handle_job_failure-succeeds :
        (job row : Job) (w : World)
        → job.status ≡ running
        → row_of job.id w ≡ some row
        → row.status ≡ running
        → Owned env calm worker_id job.id w.reads w.db.logs
        → (handle_job_failure env s (some job) worker_id (some e) w).result ≡ ok tt
    unfolding handle_job_failure status_eq
    handle_job_failure-succeeds job row w starts found is_running o =
        let (saved, ran) =
          fail_calm job.id row (tx_start w) found (row_of-id job.id w.db.jobs found) is_running o in
        let committed = with_tx_calm env calm (fail_in_tx env s job.id worker_id e) w ran in
        rw starts (rw committed refl)
