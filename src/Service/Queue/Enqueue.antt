-- ===== src/Service/Queue/Enqueue.antt =====
-- What Enqueue stores, and that GetJob reads it back.
use queue_ctl.Prelude.{
  String, Bool-cases, inl, inr, ◌≡◌, ◌≢◌, ap, ◌∙◌, false, none, some, [], ◌∷◌, ◌++◌, arith, eq_iff,
  eq_refl, ◌==◌, count_rows, find_row, if◌then◌else◌, subst,
}
use queue_ctl.Prelude.Int.{ℤ, pos, leb_ℤ}
use queue_ctl.Prelude.Lists.Rows.{find_row-append_none, find_row-none}
use queue_ctl.Domain.Errors.{ok, refuse}
use queue_ctl.Domain.Job.{Job, Time, pending}
use queue_ctl.Domain.Clocked.{new_job, or_now, or_default}
use queue_ctl.Scheduler.{notify}
use queue_ctl.Store.{Env, World, Exec, new_id, lift, wrapping, pure, ◌>>=◌, ◌>>◌}
use queue_ctl.Store.Bind.{>>=-ok, wrapping-ok}
use queue_ctl.Repository.Jobs as Jobs
use queue_ctl.Repository.Jobs.{has_id}
use queue_ctl.Repository.Jobs.Lookup.{row_of}
use queue_ctl.Service.Queue.{Settings, enqueue, get_job, validate_json}

pub or_default-named : (queue : String) → or_default queue ≢ ""
or_default-named queue h = elim (Bool-cases (queue == "")) [
  | inl e ↦ let k : ◌≡◌ {A = String} "default" "" = rw e at h in cc
  | inr e ↦ let k : queue ≡ "" = rw e at h in ground (arith, eq_iff queue "")
]

module _ (env : Env) where
  get_job_reads :
      (id : String) (w : World) {job : Job}
      → row_of id w ≡ some job
      → env.fault w.calls ≡ none
      → id ≢ ""
      → (get_job env id w).0 ≡ ok job
  unfolding get_job Jobs.get_by_id
  get_job_reads id w found calm named = ground (arith, eq_iff id "")

  insert_ok :
      (job : Job) (w : World) {u : Unit {0}}
      → (Jobs.insert env job w).0 ≡ ok u
      → (count_rows (has_id job.id) w.db.jobs ≡ 0)
        × ((Jobs.insert env job w).1.db ≡ record w.db { jobs = w.db.jobs ++ job ∷ [] })
  unfolding Jobs.insert
  insert_ok job w h = (ground arith, ground arith)

  -- A job as Enqueue makes it of its arguments.
  pub record Made (job_type payload queue : String) (priority retries : ℤ) (job : Job)
      : Type 0 where
    pub named : job.id ≢ ""
    pub typed : job.job_type ≡ job_type
    pub loaded : job.payload ≡ payload
    pub queued : job.queue ≡ queue
    pub ranked : job.priority ≡ priority
    pub limited : job.max_retries ≡ retries
    pub is_pending : job.status ≡ pending
    pub not_tried : job.retries_count ≡ pos 0

  new_job-Made :
      (id job_type payload queue : String) (priority max : ℤ) (run_at : Time) (w : World)
      {job : Job}
      → (queue == "") ≡ false
      → (new_job env id job_type payload queue priority max run_at w).0 ≡ ok job
      → Made job_type payload queue priority max job
  unfolding new_job or_now
  new_job-Made id job_type payload queue priority max run_at w {job} named h = record {
    named = ground (arith, eq_iff id "");
    typed = ground arith;
    loaded = ground arith;
    queued = ground arith;
    ranked = ground arith;
    limited = ground arith;
    is_pending = ground arith;
    not_tried = ground arith;
  }

  insert_found :
      (job : Job) (w : World) {u : Unit {0}}
      → (Jobs.insert env job w).0 ≡ ok u
      → row_of job.id (Jobs.insert env job w).1 ≡ some job
  unfolding find_row
  insert_found job w h =
      let (free, stored) = insert_ok job w h in
      ap (λ d. find_row (has_id job.id) d.jobs) stored
      ∙ find_row-append_none (has_id job.id) w.db.jobs (job ∷ [])
          (find_row-none (has_id job.id) w.db.jobs free)
      ∙ ground (arith, eq_refl job.id)

  module _ (s : Settings) where
    -- the statements of Enqueue that follow NewJob
    abbrev pub then_insert : Job → Exec Job
    then_insert job =
        wrapping "failed to enqueue job" (Jobs.insert env job)
        >> ((if s.has_scheduler then notify else pure tt) >> pure job)

    pub then_insert_jobs :
        (job : Job) (w : World) → (then_insert job w).1.db ≡ (Jobs.insert env job w).1.db
    unfolding notify
    then_insert_jobs job w = ground arith

    then_insert_ok :
        (job : Job) (w : World) {made : Job}
        → (then_insert job w).0 ≡ ok made
        → (job ≡ made) × ((Jobs.insert env job w).0 ≡ ok tt)
    unfolding notify
    then_insert_ok job w h = ground arith

    module _ (job_type payload queue : String) (priority max : ℤ) (run_at : Time) where
      -- the statements of Enqueue, from the last ones to the first
      abbrev pub then_create : Time → String → Exec Job
      then_create run id =
          wrapping "failed to create job entity"
            (new_job env id job_type payload queue priority max run)
          >>= then_insert

      abbrev pub then_name : Time → Exec Job
      then_name run = new_id env >>= then_create run

      abbrev pub then_date : Exec Job
      then_date = or_now env run_at >>= then_name

      abbrev pub then_validate : Exec Job
      then_validate = wrapping "invalid payload" (lift (validate_json env payload)) >> then_date

      -- The job is stored as it was made of the arguments.
      abbrev Stored : Job → World → Type 0
      Stored job w = Made job_type payload queue priority max job × (row_of job.id w ≡ some job)

      then_create_ok :
          (run : Time) (id : String) (w : World) {job : Job}
          → (queue == "") ≡ false
          → (then_create run id w).0 ≡ ok job
          → Stored job (then_create run id w).1
      then_create_ok run id w {job} named h =
          let make = new_job env id job_type payload queue priority max run in
          let text : String = "failed to create job entity" in
          let (new, made, rest, ended) = >>=-ok (wrapping text make) then_insert w h in
          let (same, inserted) = then_insert_ok new (make w).1 rest in
          let found = insert_found new (make w).1 inserted in
          subst (λ j. Stored j (then_create run id w).1) same
            (
              new_job-Made id job_type payload queue priority max run w named
                  (wrapping-ok text make w made),
              rw ended (
                  ap (λ d. find_row (has_id new.id) d.jobs) (then_insert_jobs new (make w).1)
                  ∙ found),
            )

      then_validate_ok :
          (w : World) {job : Job}
          → (queue == "") ≡ false
          → (then_validate w).0 ≡ ok job
          → Stored job (then_validate w).1
      unfolding new_id
      then_validate_ok w named h =
          let (u, valid, dated, ended) =
            >>=-ok (wrapping "invalid payload" (lift (validate_json env payload))) (λ _. then_date)
              w h in
          let (run, read, rest, ended') = >>=-ok (or_now env run_at) then_name w dated in
          rw ended (rw ended' (then_create_ok run _ _ named rest))

    -- If Enqueue returns a job, then it is pending and has not failed, has the type, the payload and
    -- the priority of the arguments, the given queue or the default one, and the given maximum of
    -- retries or the configured one if that is not positive; its row is stored. A GetJob with its
    -- identifier then returns it, if the driver reports no fault.
    pub enqueue_get :
        (job_type payload queue : String) (priority : ℤ) (run_at : Time) (max : ℤ) (w : World)
        {job : Job}
        → (enqueue env s job_type payload queue priority run_at max w).0 ≡ ok job
        → let w' = (enqueue env s job_type payload queue priority run_at max w).1 in
          Made job_type payload
            (or_default queue)
            priority
            (if leb_ℤ max (pos 0) then s.max_retries else max)
            job
          × (row_of job.id w' ≡ some job)
          × (env.fault w'.calls ≡ none → (get_job env job.id w').0 ≡ ok job)
    unfolding enqueue
    enqueue_get job_type payload queue priority run_at max w {job} h =
        let retries = if leb_ℤ max (pos 0) then s.max_retries else max in
        let q = or_default queue in
        let named : (q == "") ≡ false =
          (let n = or_default-named queue in ground (arith, eq_iff q "")) in
        let tail = then_validate job_type payload q priority retries run_at in
        let (u, typed, rest, ended) =
          >>=-ok (lift (refuse (job_type == "") "job type cannot be empty")) (λ _. tail) w h in
        let (made, found) =
          then_validate_ok job_type payload q priority retries run_at w named rest in
        let found' : row_of job.id (enqueue env s job_type payload queue priority run_at max w).1
            ≡ some job =
          rw ended found in
        (made, found', λ calm. get_job_reads job.id _ found' calm made.named)
