-- ===== src/Scenarios/Shutdowns.antt =====
-- The theorems on the end of a pool at a concrete run.
use queue_ctl.Prelude.{
  ◌≡◌, refl, [], ◌∷◌, All, inr, count_rows, update_rows, where_rows, order_by, insert_row, find_row,
}
use queue_ctl.Prelude.Int.{pos, ◌-ℤ◌, ◌+ℤ◌, wrap64}
use queue_ctl.Domain.Job.{Job, running, status_eq}
use queue_ctl.Domain.Worker.{validate, worker_status_eq}
use queue_ctl.Store.{now, new_id, driver_call}
use queue_ctl.Domain.Clocked.{new_worker, set_status, new_execution_log, or_now}
use queue_ctl.Store.Tx.{with_tx}
use queue_ctl.Repository.Jobs as Jobs
use queue_ctl.Repository.Jobs.{
  is_listed, listed_before, acquire_next_pending_job, acquire_in_tx, acquired_before,
}
use queue_ctl.Repository.Logs as Logs
use queue_ctl.Repository.Workers as Workers
use queue_ctl.Service.Queue.{register_worker}
use queue_ctl.Service.Fetch.{fetch_next_job, fetch_in_tx}
use queue_ctl.Service.Reclaim.{reclaim_all, reclaim_orphaned_jobs}
use queue_ctl.Pool.{mark, working, released, poll_and_dispatch, start}
use queue_ctl.Pool.Shutdown.{Life}
use queue_ctl.Pool.Shutdown.Drained.{start-drained}
use queue_ctl.Pool.Shutdown.Reappears.{left, until_seen, until_left}
use queue_ctl.Scenarios.Sample.{calm_env, sample_settings, waiting_world, urgent_job}
use queue_ctl.Scenarios.Pools.{fresh_pool, started_world, poll, start_runs}

abbrev taken : Job
taken = record urgent_job { status = running; updated_at = pos 1003 }

poll_tasks : poll.0.tasks ≡ working taken ∷ []
unfolding poll_and_dispatch mark fetch_next_job fetch_in_tx acquire_next_pending_job acquire_in_tx
    acquired_before new_execution_log or_now wrap64 ◌+ℤ◌ with_tx Logs.insert start new_id new_worker
    set_status now register_worker validate Workers.upsert Workers.upserted driver_call
    reclaim_orphaned_jobs reclaim_all Workers.prune_stale Jobs.list_jobs is_listed listed_before
    status_eq worker_status_eq ◌-ℤ◌ count_rows update_rows where_rows order_by insert_row find_row
poll_tasks = refl

-- The context is cancelled while the goroutine runs its handler; Stop waits until it has recorded the
-- outcome and released its slot.
abbrev last_life : Life
last_life = left calm_env sample_settings fresh_pool started_world taken

start-drained_example : (last_life.pool.slots ≡ 0) × All (λ t. t ≡ released) last_life.pool.tasks
start-drained_example =
    start-drained calm_env sample_settings "host" "" (pos 2) waiting_world start_runs
      (until_seen calm_env sample_settings fresh_pool started_world taken poll_tasks) refl refl
      (λ e. cc) (until_left calm_env sample_settings fresh_pool started_world taken) (inr refl)
