-- ===== src/Service/Handlers.antt =====
-- internal/service/job_service.go: RegisterHandler and ExecuteJob. The lock around the map makes
-- each of them one step.
pub mod Registry
use queue_ctl.Prelude.{String, Option, none, some, List, [], ◌∷◌, ◌==◌, if◌then◌else◌}
use queue_ctl.Domain.Errors.{msg, refuse, detail, handler_already_registered, handler_not_found}
use queue_ctl.Domain.Job.{Job}
use queue_ctl.Store.{World, Exec, Outcome, fails, pure, raise, lift, gets, ◌>>=◌, ◌>>◌}
use queue_ctl.Domain.Errors.{ok}

abbrev pub Handler : Type 0
Handler = String → Outcome

-- handlers[jobType]
unfoldable pub handler_of : String → List (String × Handler) → Option Handler
handler_of job_type [] = none
handler_of job_type ((t, h) ∷ rest) = if t == job_type then some h else handler_of job_type rest

abbrev add_handler : String → Handler → Option Handler → Exec (Unit {0})
add_handler job_type h (some _) w = raise (detail handler_already_registered job_type) w
add_handler job_type h none w = (ok tt, record w { handlers = (job_type, h) ∷ w.handlers })

abbrev non_nil : Option Handler → Exec Handler
non_nil none = raise (msg "handler function cannot be nil")
non_nil (some h) = pure h

-- RegisterHandler, where `none` is a nil function
unfoldable pub register_handler : String → Option Handler → Exec (Unit {0})
unfolding handler_of
register_handler job_type handler = do
  lift (refuse (job_type == "") "handler job type cannot be empty")
  h ← non_nil handler
  old ← gets (λ w. handler_of job_type w.handlers)
  add_handler job_type h old

abbrev run_handler : Job → Option Handler → Outcome
run_handler job none = fails (detail handler_not_found job.job_type)
run_handler job (some h) = h job.payload

-- ExecuteJob; it may also panic, as its handler does
unfoldable pub execute_job : Job → World → Outcome
unfolding handler_of
execute_job job w = run_handler job (handler_of job.job_type w.handlers)
