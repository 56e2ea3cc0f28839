-- ===== src/Scenarios/Parts.antt =====
-- The theorems on the components at concrete inputs.

use mathlib.Core.Option
use queue_ctl.Prelude.{
  String, suc, ◌+◌, ◌^◌, ◌*◌, ◌<◌, ◌≡◌, ◌≢◌, ◌↔◌, refl, none, some, [], ◌∷◌, update_rows,
  count_rows, find_row, arith, ltb, if◌then◌else◌,
}
use queue_ctl.Prelude.Int.{pos, negsuc}
use queue_ctl.Domain.Errors.{ok, err, concurrency_conflict}
use queue_ctl.Domain.Job.{Job, dead_letter, status_eq}
use queue_ctl.Domain.Clocked.{or_now, new_job}
use queue_ctl.Retry.Backoff.{calculate}
use queue_ctl.Retry.Backoff.Bounds.{calculate_exact, calculate_exact_iff}
use queue_ctl.Retry.Engine.Attempts.{executions, executions_lem}
use queue_ctl.Scheduler.{notify}
use queue_ctl.Store.{now, new_id, driver_call}
use queue_ctl.Repository.Jobs as Jobs
use queue_ctl.Repository.Jobs.{has_id, is_listed, listed_before, update, list_jobs}
use queue_ctl.Repository.Jobs.Update.{update_conflict}
use queue_ctl.Repository.Jobs.Lookup.{row_of}
use queue_ctl.Dlq.{fetch_dead, retry, restore}
use queue_ctl.Dlq.Commands.{retried, retry_revives, restore_keeps_queue}
use queue_ctl.Service.Queue.{enqueue, get_job, validate_json}
use queue_ctl.Service.Queue.Enqueue.{Made, enqueue_get}
use queue_ctl.Scenarios.Sample.{
  calm_env, sample_settings, waiting_job, running_job, empty_world, running_world, dead_world, boom,
}

calculate_exact_example :
    calculate
      (negsuc 0)
      (record { base_delay = pos 2000000000; max_delay = pos 30000000000 })
      (pos (suc 3))
    ≡ pos (if ltb 30000000000 (2000000000 * 2 ^ 3) then 30000000000 else 2000000000 * 2 ^ 3)
calculate_exact_example =
    calculate_exact (negsuc 0) 2000000000 30000000000 3 (omega arith) (omega arith) (omega arith)

calculate_exact_iff_example :
    (calculate
        (negsuc 9223372036854775807)
        (record { base_delay = pos 2000000000; max_delay = pos 30000000000 })
        (pos (suc 33))
      ≡ pos (if ltb 30000000000 (2000000000 * 2 ^ 33) then 30000000000 else 2000000000 * 2 ^ 33))
    ↔ (2000000000 * 2 ^ 33 < 2 ^ 63)
calculate_exact_iff_example =
    calculate_exact_iff (negsuc 9223372036854775807) 2000000000 30000000000 33 (omega arith)
      (omega arith) (omega arith)

-- A job of one retry that fails three times over.
executions_lem_example :
    executions calm_env sample_settings.backoff (boom ∷ boom ∷ boom ∷ []) running_job empty_world
    ≡ suc 1
executions_lem_example =
    executions_lem calm_env sample_settings.backoff (boom ∷ boom ∷ boom ∷ []) running_job
      empty_world 1 refl refl (omega arith) (omega arith)

update_runs :
    (update calm_env running_job running_world).0
    ≡ ok (record running_job { updated_at = pos 1000 })
unfolding update driver_call now count_rows update_rows
update_runs = refl

clock_moved : calm_env.clock 0 ≢ running_job.updated_at
clock_moved h = ground arith

update_conflict_example :
    let w' = (update calm_env running_job running_world).1 in
    ((update calm_env running_job w').1.db ≡ w'.db)
    × ((j : Job) → (update calm_env running_job w').0 ≢ ok j)
    × (calm_env.fault w'.calls ≡ none
        → calm_env.fault (w'.calls + 1) ≡ none
        → calm_env.fault (w'.calls + 1 + 1) ≡ none
        → (update calm_env running_job w').0 ≡ err concurrency_conflict)
update_conflict_example =
    update_conflict calm_env running_job running_job running_world refl refl clock_moved update_runs

abbrev enqueued_job : Job
enqueued_job = record waiting_job {
  id = "id-0";
  max_retries = pos 3;
  created_at = pos 1000;
  updated_at = pos 1000;
}

enqueue_runs :
    (enqueue calm_env sample_settings "email" "{}" "" (pos 1) (pos 500) (pos 0) empty_world).0
    ≡ ok enqueued_job
unfolding enqueue validate_json or_now new_id new_job now notify Jobs.insert driver_call count_rows
enqueue_runs = refl

enqueue_get_example :
    let w' =
      (enqueue calm_env sample_settings "email" "{}" "" (pos 1) (pos 500) (pos 0) empty_world).1 in
    Made calm_env "email" "{}" "default" (pos 1) (pos 3) enqueued_job
    × (row_of "id-0" w' ≡ some enqueued_job)
    × (calm_env.fault w'.calls ≡ none → (get_job calm_env "id-0" w').0 ≡ ok enqueued_job)
enqueue_get_example =
    enqueue_get calm_env sample_settings "email" "{}" "" (pos 1) (pos 500) (pos 0) empty_world
      enqueue_runs

retry_runs : (retry calm_env "job-1" dead_world).0 ≡ ok tt
unfolding retry fetch_dead now update driver_call status_eq count_rows update_rows find_row
    Jobs.get_by_id
retry_runs = refl

retry_revives_example :
    (row : Job) × (row_of "job-1" dead_world ≡ some row)
    × (row.status ≡ dead_letter)
    × (row_of "job-1" (retry calm_env "job-1" dead_world).1
        ≡ some (retried calm_env (pos 1000) (pos 1001) row))
    × ((other : String)
        → other ≢ "job-1"
        → row_of other (retry calm_env "job-1" dead_world).1 ≡ row_of other dead_world)
retry_revives_example = retry_revives calm_env "job-1" dead_world retry_runs

restore_runs : (restore calm_env "job-1" "slow" dead_world).0 ≡ ok tt
unfolding restore fetch_dead now update driver_call status_eq count_rows update_rows find_row
    Jobs.get_by_id
restore_runs = refl

restore_keeps_queue_example :
    (row : Job) × (row_of "job-1" dead_world ≡ some row)
    × (row.status ≡ dead_letter)
    × ◌≢◌ {A = String} "slow" ""
    × (row_of "job-1" (restore calm_env "job-1" "slow" dead_world).1
        ≡ some (retried calm_env (pos 1000) (pos 1001) row))
    × (Option.map
          (λ (j : Job). j.queue)
          (row_of "job-1" (restore calm_env "job-1" "slow" dead_world).1)
        ≡ some row.queue)
restore_keeps_queue_example = restore_keeps_queue calm_env "job-1" "slow" dead_world restore_runs
