-- ===== src/Scenarios/Histories.antt =====
-- The theorems on sequences of operations at a concrete one.
use queue_ctl.Prelude.{
  ◌+◌, ◌≤◌, ◌<◌, All, ◌^◌, ◌≡◌, ◌≢◌, refl, some, List, [], ◌∷◌, where_rows, update_rows, count_rows,
  find_row, insert_row, order_by, arith,
}
use queue_ctl.Prelude.Int.{pos, pos_part, ◌≤ℤ◌, ◌+ℤ◌, wrap64}
use queue_ctl.Domain.Errors.{ok, error_text, is_already_reclaimed}
use queue_ctl.Domain.Job.{Job, pending, running, status_eq, dead_letter, validate}
use queue_ctl.Domain.Clocked.{or_now, new_job, new_execution_log, complete}
use queue_ctl.Retry.Float.{to_float, scale_duration}
use queue_ctl.Retry.Backoff.{calculate}
use queue_ctl.Retry.Engine.{counted, handle_failure}
use queue_ctl.Scheduler.{notify}
use queue_ctl.Store.{now, new_id, driver_call}
use queue_ctl.Store.Tx.{with_tx}
use queue_ctl.Repository.Jobs as Jobs
use queue_ctl.Repository.Jobs.{has_id, acquired_before, acquire_in_tx, acquire_next_pending_job}
use queue_ctl.Repository.Jobs.Save.{row_in}
use queue_ctl.Repository.Logs as Logs
use queue_ctl.Dlq.{buried, route}
use queue_ctl.Service.Queue.{enqueue, validate_json}
use queue_ctl.Service.Fetch.{fetch_in_tx, fetch_next_job}
use queue_ctl.Service.Outcomes.{check_owner, fail_in_tx, handle_job_failure}
use queue_ctl.Lifecycle.Logs.{LogsSound}
use queue_ctl.Lifecycle.Logs.Histories.{history-LogsSound}
use queue_ctl.Lifecycle.Histories.{
  Operation, IsBounded, enqueuing, fetching, failing, perform, history, history-IsSound,
}
use queue_ctl.Scenarios.Sample.{calm_env, sample_settings, waiting_job, empty_world, boom}

-- A job is enqueued, fetched by a worker, and fails.
abbrev fetched_job : Job
fetched_job = record waiting_job {
  id = "id-0";
  status = running;
  max_retries = pos 3;
  created_at = pos 1000;
  updated_at = pos 1001;
}

abbrev failed_once_job : Job
failed_once_job = record fetched_job {
  status = pending;
  retries_count = pos 1;
  error_message = "boom";
  run_at = pos 2000001003;
  updated_at = pos 1004;
}

abbrev short_life : List Operation
short_life =
    enqueuing "email" "{}" "" (pos 1) (pos 500) (pos 0)
    ∷ fetching "default" "worker-1"
    ∷ failing fetched_job "worker-1" boom
    ∷ []

short_life-IsBounded : All IsBounded short_life
short_life-IsBounded = (omega arith, (tt, (tt, tt)))

default_bounded : pos_part sample_settings.max_retries + 1 < 2 ^ 63
default_bounded = omega arith

short_life_runs :
    row_in "id-0" (history calm_env sample_settings short_life empty_world).db.jobs
    ≡ some failed_once_job
unfolding history perform enqueue validate_json new_job notify Jobs.insert fetch_next_job
    fetch_in_tx acquire_next_pending_job acquire_in_tx acquired_before new_execution_log new_id
    Logs.insert handle_job_failure fail_in_tx is_already_reclaimed check_owner handle_failure
    counted wrap64 ◌+ℤ◌ calculate scale_duration to_float buried route error_text with_tx
    driver_call now status_eq Jobs.get_by_id Jobs.update Logs.get_by_job_id Logs.logs_of Logs.update
    complete or_now find_row count_rows update_rows where_rows order_by insert_row
short_life_runs = refl

history-IsSound_example :
    (count_rows (has_id "id-0") (history calm_env sample_settings short_life empty_world).db.jobs
      ≤ 1)
    × (validate failed_once_job ≡ ok tt)
    × (failed_once_job.status ≢ dead_letter
        → failed_once_job.retries_count ≤ℤ failed_once_job.max_retries)
    × (failed_once_job.status ≡ dead_letter
        → failed_once_job.retries_count ≡ pos (pos_part failed_once_job.max_retries + 1))
history-IsSound_example =
    history-IsSound calm_env sample_settings short_life empty_world "id-0" {row = failed_once_job}
      short_life-IsBounded default_bounded refl short_life_runs

no_logs : LogsSound empty_world.db.logs
unfolding count_rows
no_logs = record { unique = λ id. omega arith; ordered = tt }

history-LogsSound_example :
    LogsSound (history calm_env sample_settings short_life empty_world).db.logs
history-LogsSound_example =
    history-LogsSound calm_env sample_settings short_life empty_world no_logs
