-- ===== src/Scenarios/Pools.antt =====
-- The theorems on the pool of workers at a concrete run.
use queue_ctl.Prelude.{
  ◌≡◌, refl, [], count_rows, find_row, update_rows, where_rows, order_by, insert_row,
}
use queue_ctl.Prelude.Int.{pos, ◌≤ℤ◌, ◌-ℤ◌}
use queue_ctl.Domain.Errors.{ok}
use queue_ctl.Domain.Worker as Worker
use queue_ctl.Domain.Worker.{idle, worker_status_eq}
use queue_ctl.Domain.Job.{status_eq}
use queue_ctl.Domain.Clocked.{new_worker, set_status}
use queue_ctl.Store.{World, now, new_id, driver_call}
use queue_ctl.Repository.Jobs as Jobs
use queue_ctl.Repository.Jobs.{is_listed, listed_before}
use queue_ctl.Repository.Workers as Workers
use queue_ctl.Service.Queue.{register_worker}
use queue_ctl.Service.Reclaim.{reclaim_all, reclaim_orphaned_jobs}
use queue_ctl.Pool.{Pool, start, poll_and_dispatch}
use queue_ctl.Pool.Steps.{PoolRun, polls, stop, next}
use queue_ctl.Pool.Bound.{holders, start-bound}
use queue_ctl.Scenarios.Sample.{calm_env, sample_settings, waiting_world}

abbrev pub fresh_pool : Pool
fresh_pool = record {
  id = "id-0";
  queue = "default";
  capacity = 2;
  slots = 0;
  node = record {
    id = "id-0";
    hostname = "host";
    queue = "default";
    concurrency = pos 2;
    status = idle;
    started_at = pos 1000;
    last_heartbeat = pos 1001;
  };
  tasks = [];
}

pub start_runs : (start calm_env sample_settings "host" "" (pos 2) waiting_world).0 ≡ ok fresh_pool
unfolding start new_id new_worker set_status now register_worker Worker.validate Workers.upsert
    Workers.upserted driver_call reclaim_orphaned_jobs reclaim_all Workers.prune_stale
    Jobs.list_jobs is_listed listed_before status_eq worker_status_eq ◌-ℤ◌ count_rows update_rows
    where_rows order_by insert_row find_row
start_runs = refl

abbrev pub started_world : World
started_world = (start calm_env sample_settings "host" "" (pos 2) waiting_world).1

abbrev pub poll : Pool × World
poll = poll_and_dispatch calm_env fresh_pool started_world

-- One poll after the start.
abbrev one_poll : PoolRun calm_env sample_settings fresh_pool started_world poll.0 poll.1
one_poll =
    next fresh_pool poll.0 poll.0 started_world poll.1 poll.1 (polls fresh_pool started_world)
      (stop poll.0 poll.1)

start-bound_example : (poll.0.slots ≡ holders poll.0.tasks) × (pos poll.0.slots ≤ℤ pos 2)
start-bound_example =
    start-bound calm_env sample_settings "host" "" (pos 2) waiting_world start_runs one_poll
