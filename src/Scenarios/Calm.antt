-- ===== src/Scenarios/Calm.antt =====
-- The theorems on a driver without faults, and on an empty queue, at concrete states.
use queue_ctl.Prelude.{
  ◌∷◌, [], ◌≡◌, refl, false, none, some, All, arith, get_last?, find_row, where_rows, order_by,
  insert_row,
}
use queue_ctl.Prelude.Int.{pos}
use queue_ctl.Domain.Errors.{ok}
use queue_ctl.Domain.Job.{status_eq}
use queue_ctl.Domain.ExecutionLog.{ExecutionLog}
use queue_ctl.Store.{World, now, driver_call}
use queue_ctl.Store.Tx.{with_tx}
use queue_ctl.Repository.Jobs.{is_eligible, acquire_in_tx, acquire_next_pending_job}
use queue_ctl.Repository.Jobs.Lookup.{row_of}
use queue_ctl.Repository.Logs as Logs
use queue_ctl.Service.Fetch.{fetch_in_tx, fetch_next_job}
use queue_ctl.Service.Fetch.Empty.{fetch_next_job-none}
use queue_ctl.Service.Outcomes.Calm.{StartedBefore}
use queue_ctl.Repository.Workers as Workers
use queue_ctl.Domain.Worker.{Worker, stopped}
use queue_ctl.Service.Outcomes.Failure.{Failed}
use queue_ctl.Service.Reclaim.{reclaim_one, reclaim_error}
use queue_ctl.Service.Reclaim.Recovers.{reclaim_one-recovers}
use queue_ctl.Scenarios.Sample.{
  sample_worker, calm_env, calm_env-IsCalm, sample_settings, running_job, waiting_world,
  running_world, open_log,
}

last_log : get_last? (Logs.logs_of "job-1" running_world.db.logs) ≡ some open_log
unfolding Logs.logs_of where_rows order_by insert_row
last_log = refl

the_log :
    (l : ExecutionLog)
    → get_last? (Logs.logs_of "job-1" running_world.db.logs) ≡ some l
    → open_log ≡ l
unfolding Logs.logs_of where_rows order_by insert_row
the_log l e = ground arith

started :
    (l : ExecutionLog)
    → get_last? (Logs.logs_of "job-1" running_world.db.logs) ≡ some l
    → StartedBefore calm_env calm_env-IsCalm running_world.reads l
started l e n h = rw (← the_log l e) (omega arith)

row_found : row_of "job-1" running_world ≡ some running_job
unfolding find_row
row_found = refl

fetch_none : (fetch_next_job calm_env "slow" "worker-1" waiting_world).0 ≡ ok none
unfolding fetch_next_job fetch_in_tx acquire_next_pending_job acquire_in_tx with_tx driver_call now
    status_eq where_rows order_by
fetch_none = refl

fetch_next_job-none_example :
    All (λ j. is_eligible "slow" (pos 1000) j ≡ false) waiting_world.db.jobs
    × ((fetch_next_job calm_env "slow" "worker-1" waiting_world).1.db ≡ waiting_world.db)
fetch_next_job-none_example =
    fetch_next_job-none calm_env "slow" "worker-1" waiting_world fetch_none

abbrev gone_worker : Worker
gone_worker = record sample_worker { status = stopped }

-- The state after the worker of the running job was pruned.
abbrev abandoned_world : World
abandoned_world = record running_world {
  db = record running_world.db { workers = gone_worker ∷ [] };
}

gone_found : find_row (Workers.has_id "worker-1") abandoned_world.db.workers ≡ some gone_worker
unfolding find_row
gone_found = refl

reclaim_one-recovers_example :
    Failed calm_env sample_settings.backoff reclaim_error "job-1" 0 abandoned_world.db.jobs
      (reclaim_one calm_env sample_settings running_job abandoned_world).db.jobs
reclaim_one-recovers_example =
    reclaim_one-recovers calm_env calm_env-IsCalm sample_settings running_job running_job
      abandoned_world open_log gone_worker refl row_found refl last_log refl
      (started open_log last_log) gone_found refl
