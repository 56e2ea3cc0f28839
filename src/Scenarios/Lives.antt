-- ===== src/Scenarios/Lives.antt =====
-- The theorems on the lives of jobs at concrete states.
use queue_ctl.Prelude.{
  String, ◌≡◌, ◌≢◌, refl, some, get_last?, where_rows, update_rows, count_rows, find_row,
  insert_row, order_by, arith,
}
use queue_ctl.Prelude.Int.{pos, ◌+ℤ◌, wrap64}
use queue_ctl.Domain.Errors.{Error, driver, wrap, ok, err, error_text, is_already_reclaimed}
use queue_ctl.Domain.Job.{status_eq}
use queue_ctl.Domain.Clocked.{or_now, new_execution_log, complete}
use queue_ctl.Retry.Float.{to_float, scale_duration}
use queue_ctl.Retry.Backoff.{calculate}
use queue_ctl.Retry.Engine.{counted, handle_failure}
use queue_ctl.Store.{now, new_id, driver_call}
use queue_ctl.Store.Tx.{with_tx}
use queue_ctl.Repository.Jobs as Jobs
use queue_ctl.Repository.Jobs.{has_id, acquired_before, acquire_in_tx, acquire_next_pending_job}
use queue_ctl.Repository.Logs as Logs
use queue_ctl.Dlq.{buried, route}
use queue_ctl.Service.Fetch.{fetch_in_tx, fetch_next_job}
use queue_ctl.Service.Fetch.Atomic.{fetch_next_job-atomic}
use queue_ctl.Service.Fetch.Takes.{Taken, fetch_next_job-takes}
use queue_ctl.Service.Outcomes.{
  succeed_in_tx, handle_job_success, check_owner, fail_in_tx, handle_job_failure,
}
use queue_ctl.Service.Outcomes.Atomic.{handle_job_success-atomic, handle_job_failure-atomic}
use queue_ctl.Service.Outcomes.Success.{Completed, handle_job_success-completes}
use queue_ctl.Service.Outcomes.Failure.{Failed, handle_job_failure-settles}
use queue_ctl.Service.Outcomes.Stuck.{handle_job_failure-stuck}
use queue_ctl.Scenarios.Sample.{
  calm_env, broken_env, sample_settings, urgent_job, running_job, waiting_world, running_world,
  stuck_world, closed_log, boom,
}

-- The worker's job ends well.
success_runs :
    (handle_job_success calm_env (some running_job) "worker-1" running_world).result ≡ ok tt
unfolding handle_job_success succeed_in_tx with_tx driver_call now status_eq Jobs.get_by_id
    Jobs.update Logs.get_by_job_id Logs.logs_of Logs.update complete or_now find_row count_rows
    update_rows where_rows order_by insert_row
success_runs = refl

handle_job_success-completes_example :
    Completed calm_env "job-1"
      (pos 1000)
      running_world.db.jobs
      (handle_job_success calm_env (some running_job) "worker-1" running_world).world.db.jobs
handle_job_success-completes_example =
    handle_job_success-completes calm_env running_job "worker-1" running_world success_runs

-- The worker's job fails once more.
failure_runs :
    (handle_job_failure calm_env sample_settings
      (some running_job)
      "worker-1"
      (some boom)
      running_world).result
    ≡ ok tt
unfolding handle_job_failure fail_in_tx check_owner handle_failure counted wrap64 ◌+ℤ◌ calculate
    scale_duration to_float buried route error_text with_tx driver_call now status_eq Jobs.get_by_id
    Jobs.update Logs.get_by_job_id Logs.logs_of Logs.update complete or_now find_row count_rows
    update_rows where_rows order_by insert_row
failure_runs = refl

handle_job_failure-settles_example :
    Failed calm_env sample_settings.backoff boom "job-1" 0 running_world.db.jobs
      (handle_job_failure calm_env sample_settings
        (some running_job)
        "worker-1"
        (some boom)
        running_world).world.db.jobs
handle_job_failure-settles_example =
    handle_job_failure-settles calm_env sample_settings running_job "worker-1" boom running_world
      failure_runs

-- The job of the highest priority is fetched.
fetch_runs :
    (fetch_next_job calm_env "default" "worker-1" waiting_world).0
    ≡ ok (some (Jobs.set_running (pos 1000) urgent_job))
unfolding fetch_next_job fetch_in_tx acquire_next_pending_job acquire_in_tx acquired_before
    new_execution_log or_now new_id wrap64 ◌+ℤ◌ with_tx driver_call now status_eq Logs.insert
    find_row count_rows update_rows where_rows order_by insert_row
fetch_runs = refl

fetch_next_job-takes_example :
    Taken calm_env "worker-1" "default"
      (pos 1000)
      waiting_world.db
      (Jobs.set_running (pos 1000) urgent_job)
      (fetch_next_job calm_env "default" "worker-1" waiting_world).1.db
fetch_next_job-takes_example =
    fetch_next_job-takes calm_env "worker-1" "default" waiting_world
      (Jobs.set_running (pos 1000) urgent_job) fetch_runs

abbrev disk_error : Error
disk_error = driver "disk I/O error"

-- A fault of the UPDATE statement undoes a success, a failure and a fetch.
success_breaks :
    (handle_job_success (broken_env 3) (some running_job) "worker-1" running_world).result
    ≡ err (
        wrap "failed to handle job success" (
          wrap "failed to update job success status"
            (wrap "failed to update job job-1" disk_error)))
unfolding handle_job_success succeed_in_tx is_already_reclaimed with_tx driver_call now status_eq
    Jobs.get_by_id Jobs.update Logs.get_by_job_id Logs.logs_of Logs.update complete or_now find_row
    count_rows update_rows where_rows order_by insert_row error_text
success_breaks = refl

handle_job_success-atomic_example :
    (handle_job_success (broken_env 3) (some running_job) "worker-1" running_world).world.db
    ≡ running_world.db
handle_job_success-atomic_example =
    handle_job_success-atomic (broken_env 3) running_world "worker-1" (some running_job)
      success_breaks

failure_breaks :
    (handle_job_failure
      (broken_env 4)
      sample_settings
      (some running_job)
      "worker-1"
      (some boom)
      running_world).result
    ≡ err (
        wrap "failed to handle job failure" (
          wrap "failed to update job status on failure"
            (wrap "failed to update job job-1" disk_error)))
unfolding handle_job_failure fail_in_tx is_already_reclaimed check_owner handle_failure counted
    wrap64 ◌+ℤ◌ calculate scale_duration to_float buried route error_text with_tx driver_call now
    status_eq Jobs.get_by_id Jobs.update Logs.get_by_job_id Logs.logs_of Logs.update complete or_now
    find_row count_rows update_rows where_rows order_by insert_row
failure_breaks = refl

handle_job_failure-atomic_example :
    (handle_job_failure
      (broken_env 4)
      sample_settings
      (some running_job)
      "worker-1"
      (some boom)
      running_world).world.db
    ≡ running_world.db
handle_job_failure-atomic_example =
    handle_job_failure-atomic (broken_env 4) running_world "worker-1" sample_settings
      (some running_job) (some boom) failure_breaks

fetch_breaks :
    (fetch_next_job (broken_env 2) "default" "worker-1" waiting_world).0
    ≡ err (
        wrap "failed to fetch next job" (
          wrap "failed to acquire next pending job"
            (wrap "failed to fetch pending job" disk_error)))
unfolding fetch_next_job fetch_in_tx acquire_next_pending_job acquire_in_tx acquired_before
    new_execution_log or_now new_id wrap64 ◌+ℤ◌ with_tx driver_call now status_eq Logs.insert
    find_row count_rows update_rows where_rows order_by insert_row error_text
fetch_breaks = refl

fetch_next_job-atomic_example :
    (fetch_next_job (broken_env 2) "default" "worker-1" waiting_world).1.db ≡ waiting_world.db
fetch_next_job-atomic_example =
    fetch_next_job-atomic (broken_env 2) waiting_world "default" "worker-1" fetch_breaks

-- A job that was revived and is run again as attempt 1, while its closed log has attempt 2.
last_log_closed : get_last? (Logs.logs_of "job-1" stuck_world.db.logs) ≡ some closed_log
unfolding Logs.logs_of where_rows order_by insert_row
last_log_closed = refl

named : ◌≢◌ {A = String} "worker-1" ""
named h = cc

closed : closed_log.finished_at ≢ pos 0
closed h = ground arith

handle_job_failure-stuck_example :
    (handle_job_failure calm_env sample_settings
      (some running_job)
      "worker-1"
      (some boom)
      stuck_world).result
    ≢ ok tt
handle_job_failure-stuck_example =
    handle_job_failure-stuck calm_env sample_settings "worker-1" boom running_job stuck_world
      closed_log named last_log_closed closed
