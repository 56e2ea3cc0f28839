-- ===== src/Service/Handlers/Registry.antt =====
-- RegisterHandler and ExecuteJob together.
use queue_ctl.Prelude.{String, ◌≡◌, ◌≢◌, some, arith, eq_iff, eq_refl}
use queue_ctl.Domain.Errors.{ok, err, handler_not_found, handler_already_registered, detail}
use queue_ctl.Domain.Job.{Job}
use queue_ctl.Store.{World, fails}
use queue_ctl.Service.Handlers.{Handler, handler_of, register_handler, execute_job}

-- After a RegisterHandler without an error, ExecuteJob runs that handler on the payloads of the jobs
-- of its type, and runs every other job as before. The type had no handler before, so that a job of
-- it was refused; a second registration of the type is refused and changes nothing.
pub register_handler-runs :
    (job_type : String) (h : Handler) (w : World)
    → (register_handler job_type (some h) w).0 ≡ ok tt
    → let w' = (register_handler job_type (some h) w).1 in
      ((job : Job) → job.job_type ≡ job_type → execute_job job w' ≡ h job.payload)
      × ((job : Job) → job.job_type ≢ job_type → execute_job job w' ≡ execute_job job w)
      × ((job : Job)
          → job.job_type ≡ job_type
          → execute_job job w ≡ fails (detail handler_not_found job_type))
      × ((again : Handler)
          → register_handler job_type (some again) w'
            ≡ (err (detail handler_already_registered job_type), w'))
unfolding register_handler execute_job handler_of
register_handler-runs job_type h w done = (
  (λ job same. ground (arith, eq_iff job_type job.job_type)),
  (λ job other. ground (arith, eq_iff job_type job.job_type)),
  (λ job same. ground arith),
  (λ again. ground (arith, eq_refl job_type, eq_iff job_type "")),
)
