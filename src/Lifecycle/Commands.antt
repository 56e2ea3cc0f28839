-- ===== src/Lifecycle/Commands.antt =====
-- The commands on the dead letter queue and PurgeCompleted as steps of the contract.
use queue_ctl.Prelude.{
  String, ◌+◌, ◌≡◌, refl, ap, sym, ◌∙◌, false, not, some, arith, eq_iff, ◌==◌, ◌⊎◌, inl, inr,
  where_rows, subst, Bool-cases,
}
use queue_ctl.Prelude.Int.{eqb_ℤ_iff, ◌-ℤ◌}
use queue_ctl.Prelude.Lists.Keys.{some_passes, All-found}
use queue_ctl.Prelude.Text.{◌^^◌}
use queue_ctl.Domain.Job.{Job, Time, Duration, completed, dead_letter, status_eq}
use queue_ctl.Store.{Env, Db, World, Exec, wrapping, now, ◌>>=◌}
use queue_ctl.Store.Bind.{>>=-cases}
use queue_ctl.Repository.Jobs as Jobs
use queue_ctl.Repository.Jobs.{has_id, same_version, updated_row, is_purged}
use queue_ctl.Repository.Jobs.Lookup.{row_of, row_of-id, update_jobs}
use queue_ctl.Repository.Jobs.Update.{update_stale}
use queue_ctl.Dlq.{fetch_dead, revived, retry, restore, delete_dead}
use queue_ctl.Dlq.Commands.{fetch_dead_ok, revive}
use queue_ctl.Service.Queue.{purge_completed}
use queue_ctl.Lifecycle.{revives}
use queue_ctl.Lifecycle.Table.{Refines, Refines-given, Refines-same, Refines-set, Refines-delete}

fetch_dead_jobs : (env : Env) (id : String) (w : World) → (fetch_dead env id w).1.db ≡ w.db
unfolding fetch_dead Jobs.get_by_id
fetch_dead_jobs env id w = ground arith

module _ (env : Env) where
  -- The write of a dead job as pending, whether or not an error is returned.
  pub revive-Refines :
      (text id : String) (j row : Job) (w : World)
      → j.id ≡ row.id
      → j.updated_at ≡ row.updated_at
      → row_of row.id w ≡ some row
      → row.status ≡ dead_letter
      → Refines w.db.jobs (revive env text j w).1.db.jobs
  unfolding now
  revive-Refines text id j row w same version found dead =
      let t = env.clock w.reads in
      let j' = revived t j in
      let w' = record w { reads = w.reads + 1 } in
      let last : (revive env text j w).1 ≡ (Jobs.update env j' w').1 = ground arith in
      rw last (elim (update_jobs env j' w') [
        | inl e ↦ Refines-same e
        | inr e ↦ rw e (
            Refines-set (same_version j') (updated_row j' (env.clock (w.reads + 1))) row.id
              w.db.jobs {row = row} (λ x p. ground (arith, eq_iff x.id j.id)) (λ x. refl)
              (λ u. found)
              (ground (arith, eq_iff row.id j.id, eqb_ℤ_iff row.updated_at j.updated_at))
              (revives row t (env.clock (w.reads + 1)) dead))
      ])

  -- The same where the row may have changed since it was read, but is dead if it has the same version.
  pub revive_later-Refines :
      (text : String) (j : Job) (w : World)
      → ((row : Job)
          → row_of j.id w ≡ some row
          → row.updated_at ≡ j.updated_at
          → row.status ≡ dead_letter)
      → Refines w.db.jobs (revive env text j w).1.db.jobs
  unfolding now
  revive_later-Refines text j w dead = Refines-given λ u.
      let t = env.clock w.reads in
      let j' = revived t j in
      let w' = record w { reads = w.reads + 1 } in
      let last : (revive env text j w).1 ≡ (Jobs.update env j' w').1 = ground arith in
      elim (some_passes (same_version j') w.db.jobs (All-found (λ (j : Job). j.id) w.db.jobs)) [
        | inl none_left ↦
            rw last (Refines-same (ap (λ (d : Db). d.jobs) (update_stale env j' w' none_left).0))
        | inr (row, passes, only) ↦
            let same : row.id ≡ j.id = ground (arith, eq_iff row.id j.id) in
            let version : row.updated_at ≡ j.updated_at =
              ground (arith, eqb_ℤ_iff row.updated_at j.updated_at) in
            let found : row_of row.id w ≡ some row = only (u.at row.id) in
            revive-Refines text j.id j row w (sym same) (sym version) found
              (dead row (subst (λ k. row_of k w ≡ some row) same found) version)
      ]

  -- What follows the fetching of a dead job.
  after_dead :
      (id : String) (f : Job → Exec (Unit {0})) (w : World)
      → ((job : Job) (w' : World)
          → job.id ≡ id
          → row_of job.id w' ≡ some job
          → job.status ≡ dead_letter
          → Refines w'.db.jobs (f job w').1.db.jobs)
      → Refines w.db.jobs ((fetch_dead env id >>= f) w).1.db.jobs
  after_dead id f w rest = elim (>>=-cases (fetch_dead env id) f w) [
    | inl (e, failed, ended) ↦
        Refines-same (ap (λ v. v.db.jobs) ended ∙ ap (λ d. d.jobs) (fetch_dead_jobs env id w))
    | inr (job, fetched, ended) ↦
        let (found, same, dead, read) = fetch_dead_ok env id w fetched in
        rw ended (
          rw read (
            rest job (record w { calls = w.calls + 1 }) same
              (subst (λ k. row_of k w ≡ some job) (sym same) found) dead))
  ]

  -- Retry keeps the contract, whether or not it returns an error.
  pub retry-Refines : (id : String) (w : World) → Refines w.db.jobs (retry env id w).1.db.jobs
  unfolding retry
  retry-Refines id w =
      let text : String = "failed to retry DLQ job " ^^ id in
      after_dead id (revive env text) w
        (λ job w' same found dead. revive-Refines text id job job w' refl refl found dead)

  -- Restore keeps the contract, whether or not it returns an error.
  pub restore-Refines :
      (id target : String) (w : World) → Refines w.db.jobs (restore env id target w).1.db.jobs
  unfolding restore
  restore-Refines id target w =
      let text : String = "failed to restore DLQ job " ^^ id in
      let f = λ (job : Job). revive env text (record job { queue = target }) in
      elim (Bool-cases (target == ""))
        as (λ x. Refines w.db.jobs (restore env id target w).1.db.jobs) [
          | inl e ↦ rw e (Refines-same refl)
          | inr e ↦ rw e (
              after_dead id f w (λ job w' same found dead.
                revive-Refines text id (record job { queue = target }) job w' refl refl found dead))
        ]

  deleted_jobs :
      (id : String) (w : World)
      → ((Jobs.delete env id w).1.db.jobs ≡ w.db.jobs)
        ⊎ ((Jobs.delete env id w).1.db.jobs ≡ where_rows (λ j. not (has_id id j)) w.db.jobs)
  unfolding Jobs.delete
  deleted_jobs id w = ground arith

  pub delete-Refines :
      (id : String) (w : World)
      → ((row : Job) → row_of id w ≡ some row → row.status ≡ dead_letter)
      → Refines w.db.jobs (Jobs.delete env id w).1.db.jobs
  delete-Refines id w dead = elim (deleted_jobs id w) [
    | inl e ↦ Refines-same e
    | inr e ↦ rw e (
        Refines-delete (λ j. not (has_id id j)) w.db.jobs
          (λ other j at gone.
            let same : other ≡ id = ground (arith, row_of-id other w.db.jobs at, eq_iff j.id id) in
            inr (dead j (subst (λ k. row_of k w ≡ some j) same at))))
  ]

  -- Delete keeps the contract, whether or not it returns an error.
  pub delete_dead-Refines :
      (id : String) (w : World) → Refines w.db.jobs (delete_dead env id w).1.db.jobs
  unfolding delete_dead
  delete_dead-Refines id w =
      let text : String = "failed to delete DLQ job " ^^ id in
      after_dead id (λ job. wrapping text (Jobs.delete env id)) w
        (λ job w' same found dead. delete-Refines id w' (λ row at.
          let found' = subst (λ k. row_of k w' ≡ some job) same found in
          let it : row ≡ job = ground arith in
          subst (λ (j : Job). j.status ≡ dead_letter) (sym it) dead))

  purged_jobs :
      (d : Duration) (w : World)
      → ((purge_completed env d w).1.db.jobs ≡ w.db.jobs)
        ⊎ ((purge_completed env d w).1.db.jobs
            ≡ where_rows (λ j. not (is_purged env (env.clock w.reads -ℤ d) j)) w.db.jobs)
  unfolding purge_completed Jobs.delete_completed_jobs
  purged_jobs d w = ground arith

  is_purged-completed :
      (t : Time) (j : Job) → not (is_purged env t j) ≡ false → j.status ≡ completed
  unfolding status_eq
  is_purged-completed t j h = ground arith

  -- PurgeCompleted keeps the contract, whether or not it returns an error.
  pub purge_Refines :
      (d : Duration) (w : World) → Refines w.db.jobs (purge_completed env d w).1.db.jobs
  purge_Refines d w = elim (purged_jobs d w) [
    | inl e ↦ Refines-same e
    | inr e ↦ rw e (
        Refines-delete (λ j. not (is_purged env (env.clock w.reads -ℤ d) j)) w.db.jobs
          (λ other j at gone. inl (is_purged-completed (env.clock w.reads -ℤ d) j gone)))
  ]
