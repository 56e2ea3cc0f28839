-- ===== src/Lifecycle/Enqueue.antt =====
-- Enqueue as a step of the contract.
use queue_ctl.Prelude.{
  String, ◌+◌, ◌<◌, ◌^◌, ◌≡◌, refl, ap, ◌∙◌, [], ◌∷◌, ◌++◌, arith, eq_iff, ◌==◌, ◌⊎◌, inl, inr,
  count_rows, subst, if◌then◌else◌,
}
use queue_ctl.Prelude.Int.{ℤ, pos, pos_part, leb_ℤ}
use queue_ctl.Domain.Errors.{ok, refuse}
use queue_ctl.Domain.Job.{Job, Time}
use queue_ctl.Domain.Clocked.{new_job, or_now, or_default}
use queue_ctl.Store.{Env, World, Exec, new_id, lift, wrapping, ◌>>=◌}
use queue_ctl.Store.Bind.{>>=-cases, wrapping-ok}
use queue_ctl.Repository.Jobs as Jobs
use queue_ctl.Repository.Jobs.{has_id, same_version, updated_row, is_purged}
use queue_ctl.Service.Queue.Enqueue.{
  or_default-named, then_insert, then_insert_jobs, then_create, then_name, then_date, then_validate,
}
use queue_ctl.Service.Queue.{Settings, enqueue, validate_json}
use queue_ctl.Lifecycle.{IsNew}
use queue_ctl.Lifecycle.Table.{Refines, Refines-same, Refines-append}

module _ (env : Env) where
  appended_jobs :
      (job : Job) (w : World)
      → ((Jobs.insert env job w).1.db.jobs ≡ w.db.jobs)
        ⊎ ((count_rows (has_id job.id) w.db.jobs ≡ 0)
            × ((Jobs.insert env job w).1.db.jobs ≡ w.db.jobs ++ job ∷ []))
  unfolding Jobs.insert
  appended_jobs job w = ground arith

  new_job_ok :
      (id job_type payload queue : String) (priority max : ℤ) (run_at : Time) (w : World)
      {job : Job}
      → (new_job env id job_type payload queue priority max run_at w).0 ≡ ok job
      → pos_part max + 1 < 2 ^ 63
      → IsNew job × ((new_job env id job_type payload queue priority max run_at w).1.db ≡ w.db)
  unfolding new_job or_now
  new_job_ok id job_type payload queue priority max run_at w {job} h b =
      let made : or_default queue ≡ job.queue = ground arith in
      (
        record {
          has_id = ground (arith, eq_iff id "");
          has_type = ground (arith, eq_iff job_type "");
          has_queue = λ k. or_default-named queue (made ∙ k);
          is_pending = ground arith;
          not_tried = ground arith;
          max_known = ground arith;
          max_bounded = ground arith;
        },
        ground arith,
      )

  -- What follows an action that leaves the jobs alone.
  pub after_keeping_jobs :
      {A B : Type 0} (m : Exec A) (f : A → Exec B) (w : World)
      → (m w).1.db.jobs ≡ w.db.jobs
      → ((a : A) → (m w).0 ≡ ok a → Refines (m w).1.db.jobs (f a (m w).1).1.db.jobs)
      → Refines w.db.jobs ((m >>= f) w).1.db.jobs
  after_keeping_jobs m f w keeps rest = elim (>>=-cases m f w) [
    | inl (e, failed, ended) ↦ Refines-same (ap (λ v. v.db.jobs) ended ∙ keeps)
    | inr (a, went, ended) ↦
        rw ended (subst (λ d. Refines d (f a (m w).1).1.db.jobs) keeps (rest a went))
  ]

  after_keeping :
      {A B : Type 0} (m : Exec A) (f : A → Exec B) (w : World)
      → (m w).1.db ≡ w.db
      → ((a : A) → (m w).0 ≡ ok a → Refines (m w).1.db.jobs (f a (m w).1).1.db.jobs)
      → Refines w.db.jobs ((m >>= f) w).1.db.jobs
  after_keeping m f w keeps rest = after_keeping_jobs m f w (ap (λ d. d.jobs) keeps) rest

  module _ (s : Settings) where
    then_insert-Refines :
        (job : Job) (w : World) → IsNew job → Refines w.db.jobs (then_insert env s job w).1.db.jobs
    then_insert-Refines job w new = rw (then_insert_jobs env s job w) (elim (appended_jobs job w) [
      | inl e ↦ Refines-same e
      | inr (free, e) ↦ rw e (Refines-append job w.db.jobs free new)
    ])

    or_now_jobs : (t : Time) (w : World) → (or_now env t w).1.db ≡ w.db
    unfolding or_now
    or_now_jobs t w = ground arith

    new_job_jobs :
        (id job_type payload queue : String) (priority max : ℤ) (run_at : Time) (w : World)
        → (new_job env id job_type payload queue priority max run_at w).1.db ≡ w.db
    unfolding new_job or_now
    new_job_jobs id job_type payload queue priority max run_at w = ground arith

    module _ (job_type payload queue : String) (priority max : ℤ) (run_at : Time) where
      module _ (bound : pos_part max + 1 < 2 ^ 63) where
        then_create-Refines :
            (run : Time) (id : String) (w : World)
            → Refines w.db.jobs
                (then_create env s job_type payload queue priority max run_at run id w).1.db.jobs
        then_create-Refines run id w =
            let make = new_job env id job_type payload queue priority max run in
            after_keeping (wrapping "failed to create job entity" make) (then_insert env s) w
              (new_job_jobs id job_type payload queue priority max run w)
              (λ job made.
                then_insert-Refines job (make w).1
                  (new_job_ok id job_type payload queue priority max run w
                    (wrapping-ok "failed to create job entity" make w made) bound).0)

        then_name-Refines :
            (run : Time) (w : World)
            → Refines w.db.jobs
                (then_name env s job_type payload queue priority max run_at run w).1.db.jobs
        unfolding new_id
        then_name-Refines run w =
            after_keeping (new_id env)
              (then_create env s job_type payload queue priority max run_at run) w refl
              (λ id named. then_create-Refines run id (new_id env w).1)

        then_date-Refines :
            (w : World)
            → Refines w.db.jobs
                (then_date env s job_type payload queue priority max run_at w).1.db.jobs
        then_date-Refines w =
            after_keeping (or_now env run_at)
              (then_name env s job_type payload queue priority max run_at) w (or_now_jobs run_at w)
              (λ run dated. then_name-Refines run (or_now env run_at w).1)

        then_validate-Refines :
            (w : World)
            → Refines w.db.jobs
                (then_validate env s job_type payload queue priority max run_at w).1.db.jobs
        then_validate-Refines w =
            after_keeping (wrapping "invalid payload" (lift (validate_json env payload)))
              (λ _. then_date env s job_type payload queue priority max run_at) w refl
              (λ u valid. then_date-Refines w)

    -- Enqueue keeps the contract, if its max_retries is below the largest int64.
    pub enqueue-Refines :
        (job_type payload queue : String) (priority : ℤ) (run_at : Time) (max : ℤ) (w : World)
        → pos_part max + 1 < 2 ^ 63
        → pos_part s.max_retries + 1 < 2 ^ 63
        → Refines w.db.jobs (enqueue env s job_type payload queue priority run_at max w).1.db.jobs
    unfolding enqueue
    enqueue-Refines job_type payload queue priority run_at max w b b' =
        let retries = if leb_ℤ max (pos 0) then s.max_retries else max in
        let bound : pos_part retries + 1 < 2 ^ 63 = ground arith in
        after_keeping (lift (refuse (job_type == "") "job type cannot be empty"))
          (λ _. then_validate env s job_type payload (or_default queue) priority retries run_at) w
          refl
          (λ u named.
            then_validate-Refines job_type payload (or_default queue) priority retries run_at bound
              w)
