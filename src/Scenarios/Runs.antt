-- ===== src/Scenarios/Runs.antt =====
-- Runs of the operations whose result is known.
use mathlib.Core.Option
use queue_ctl.Prelude.{
  String, ◌≡◌, refl, Option, none, some, [], ◌∷◌, count_rows, find_row, update_rows, where_rows,
  order_by, insert_row,
}
use queue_ctl.Prelude.Int.{pos, wrap64, ◌+ℤ◌}
use queue_ctl.Domain.Errors.{err, msg, already_reclaimed, error_text, is_already_reclaimed}
use queue_ctl.Domain.Job.{Job, JobStatus, dead_letter, status_eq, status_text}
use queue_ctl.Domain.Clocked.{complete, or_now}
use queue_ctl.Retry.Backoff.{calculate}
use queue_ctl.Retry.Float.{to_float, scale_duration}
use queue_ctl.Retry.Engine.{counted, handle_failure}
use queue_ctl.Store.{World, now, driver_call}
use queue_ctl.Store.Tx.{with_tx}
use queue_ctl.Repository.Jobs as Jobs
use queue_ctl.Repository.Logs as Logs
use queue_ctl.Dlq.{buried, route, fetch_dead, delete_dead}
use queue_ctl.Service.Outcomes.{handle_job_success, handle_job_failure, fail_in_tx, check_owner}
use queue_ctl.Scenarios.Sample.{
  calm_env, sample_settings, waiting_job, running_job, running_world, dead_world, stuck_world,
  world_of, open_log, boom,
}

-- The state of a row.
abbrev status_of : String → World → Option JobStatus
status_of id w = Option.map (λ (j : Job). j.status) (find_row (Jobs.has_id id) w.db.jobs)

-- A success of a job that does not run is refused by the first check.
success_of_waiting :
    (handle_job_success calm_env (some waiting_job) "worker-1" running_world).result
    ≡ err (msg "invalid job state transition: cannot complete job in pending state")
unfolding handle_job_success status_eq status_text
success_of_waiting = refl

abbrev last_run : World
last_run = world_of (record running_job { retries_count = pos 1 } ∷ []) (open_log ∷ [])

-- The failure of the last run that max_retries allows.
failure_of_last_run :
    status_of "job-1"
      (handle_job_failure calm_env sample_settings
        (some running_job)
        "worker-1"
        (some boom)
        last_run).world
    ≡ some dead_letter
unfolding handle_job_failure fail_in_tx check_owner handle_failure counted wrap64 ◌+ℤ◌ calculate
    scale_duration to_float buried route error_text with_tx driver_call now status_eq Jobs.get_by_id
    Jobs.update Logs.get_by_job_id Logs.logs_of Logs.update complete or_now find_row count_rows
    update_rows where_rows order_by insert_row
failure_of_last_run = refl

-- The failure by a worker that does not own the last log.
failure_by_other :
    (handle_job_failure calm_env sample_settings
      (some running_job)
      "worker-2"
      (some boom)
      running_world).result
    ≡ err already_reclaimed
unfolding handle_job_failure fail_in_tx is_already_reclaimed check_owner with_tx driver_call now
    status_eq error_text Jobs.get_by_id Logs.get_by_job_id Logs.logs_of find_row where_rows order_by
    insert_row handle_failure counted wrap64 ◌+ℤ◌ calculate scale_duration to_float buried route
    Jobs.update Logs.update complete or_now count_rows update_rows
failure_by_other = refl

-- The failure of a revived job by its own worker, while the log of an earlier run is the last one.
failure_of_revived :
    (handle_job_failure calm_env sample_settings
      (some running_job)
      "worker-1"
      (some boom)
      stuck_world).result
    ≡ err already_reclaimed
unfolding handle_job_failure fail_in_tx is_already_reclaimed check_owner with_tx driver_call now
    status_eq error_text Jobs.get_by_id Logs.get_by_job_id Logs.logs_of find_row where_rows order_by
    insert_row handle_failure counted wrap64 ◌+ℤ◌ calculate scale_duration to_float buried route
    Jobs.update Logs.update complete or_now count_rows update_rows
failure_of_revived = refl

-- The deletion of a dead job.
delete_of_dead : status_of "job-1" (delete_dead calm_env "job-1" dead_world).1 ≡ none
unfolding delete_dead fetch_dead Jobs.get_by_id Jobs.delete driver_call status_eq status_text
    find_row count_rows where_rows
delete_of_dead = refl
