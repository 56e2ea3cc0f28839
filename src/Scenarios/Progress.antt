-- ===== src/Scenarios/Progress.antt =====
-- The theorems on a job that is fetched and run to its end, at a concrete state.
use queue_ctl.Prelude.{
  ◌≡◌, refl, ◌∷◌, [], false, some, All, arith, count_rows, find_row, update_rows, where_rows,
  order_by, insert_row, ◌==◌, eq_iff,
}
use queue_ctl.Prelude.Int.{pos, wrap64, ◌+ℤ◌}
use queue_ctl.Domain.Errors.{ok}
use queue_ctl.Domain.Job as Job
use queue_ctl.Domain.Job.{Job, status_eq}
use queue_ctl.Domain.Worker as Worker
use queue_ctl.Domain.Worker.{worker_status_eq}
use queue_ctl.Domain.Clocked.{new_execution_log, or_now, set_status}
use queue_ctl.Store.{World, succeeds, fails, now, new_id, driver_call}
use queue_ctl.Store.Tx.{with_tx}
use queue_ctl.Repository.Jobs as Jobs
use queue_ctl.Repository.Jobs.{
  is_eligible, acquired_before, acquire_in_tx, acquire_next_pending_job,
}
use queue_ctl.Repository.Logs as Logs
use queue_ctl.Repository.Workers as Workers
use queue_ctl.Lifecycle.Table.{Unique}
use queue_ctl.Service.Queue.{register_worker}
use queue_ctl.Service.Handlers.{Handler, handler_of, execute_job}
use queue_ctl.Service.Fetch.{fetch_in_tx, fetch_next_job}
use queue_ctl.Service.Fetch.Finds.{CanStart, fetch_next_job-finds}
use queue_ctl.Service.Fetch.Opens.{IsMonotone}
use queue_ctl.Service.Outcomes.Failure.{Failed}
use queue_ctl.Service.Outcomes.Success.{Completed}
use queue_ctl.Pool.{Pool, working, mark, poll_and_dispatch, settle}
use queue_ctl.Pool.Progress.{poll-completes}
use queue_ctl.Pool.Progress.Fails.{poll-fails}
use queue_ctl.Scenarios.Pools.{fresh_pool}
use queue_ctl.Scenarios.Sample.{
  calm_env, calm_env-IsCalm, sample_settings, urgent_job, waiting_world, boom,
}

abbrev good : Handler
good payload = succeeds

abbrev bad : Handler
bad payload = fails boom

-- The two jobs wait, with a handler for their type.
abbrev handled : Handler → World
handled h = record waiting_world { handlers = ("email", h) ∷ [] }

abbrev ready_world : World
ready_world = handled good

one_due : ¬ All (λ j. is_eligible "default" (pos 1000) j ≡ false) ready_world.db.jobs
unfolding status_eq
one_due h = let k = h.0 in ground arith

both-CanStart : All CanStart ready_world.db.jobs
unfolding Job.validate
both-CanStart = ((refl, omega arith), ((refl, omega arith), tt))

no_log : count_rows (Logs.has_id "id-0") ready_world.db.logs ≡ 0
unfolding count_rows
no_log = refl

fetch_next_job-finds_example :
    (job : Job) × ((fetch_next_job calm_env "default" "id-0" ready_world).0 ≡ ok (some job))
fetch_next_job-finds_example =
    fetch_next_job-finds calm_env calm_env-IsCalm "default" "id-0" ready_world one_due both-CanStart
      refl refl no_log

advances : IsMonotone calm_env
advances m n h = omega arith

ids_differ : "job-1" == "job-2" ≡ false
ids_differ = refl

different : Unique ready_world.db.jobs
unfolding count_rows
different = record {
  at = λ key.
      ground (arith, eq_iff "job-1" key, eq_iff "job-2" key, ids_differ, eq_iff "job-1" "job-2");
}

abbrev taken_job : Job
taken_job = Jobs.set_running (pos 1000) urgent_job

abbrev polled : Handler → Pool × World
polled h = poll_and_dispatch calm_env fresh_pool (handled h)

poll_runs :
    (h : Handler)
    → ((polled h).0.tasks ≡ working taken_job ∷ []) × (execute_job taken_job (polled h).1 ≡ h "{}")
unfolding execute_job handler_of poll_and_dispatch mark set_status register_worker Worker.validate
    Workers.upsert Workers.upserted worker_status_eq fetch_next_job fetch_in_tx
    acquire_next_pending_job acquire_in_tx acquired_before new_execution_log or_now new_id wrap64
    ◌+ℤ◌ with_tx driver_call now status_eq Logs.insert find_row count_rows update_rows where_rows
    order_by insert_row
poll_runs h = (refl, refl)

poll-completes_example :
    Completed calm_env "job-2"
      (calm_env.clock (polled good).1.reads)
      (polled good).1.db.jobs
      (settle calm_env sample_settings (polled good).0 taken_job (polled good).1).db.jobs
poll-completes_example =
    poll-completes calm_env calm_env-IsCalm advances sample_settings fresh_pool (handled good)
      taken_job different tt (poll_runs good).0 (poll_runs good).1

poll-fails_example :
    Failed calm_env sample_settings.backoff boom "job-2"
      (polled bad).1.reads
      (polled bad).1.db.jobs
      (settle calm_env sample_settings (polled bad).0 taken_job (polled bad).1).db.jobs
poll-fails_example =
    poll-fails calm_env calm_env-IsCalm advances sample_settings fresh_pool (handled bad) taken_job
      boom different tt tt (poll_runs bad).0 (poll_runs bad).1
