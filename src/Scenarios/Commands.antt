-- ===== src/Scenarios/Commands.antt =====
-- The theorems on the metrics and the command lines of internal/cli at concrete inputs.
use queue_ctl.Prelude.{
  ◌*◌, ◌^◌, ◌≤◌, ◌≡◌, refl, true, false, not, ◌==◌, eq_iff, List, [], ◌∷◌, arith, count_rows,
  where_rows, update_rows, order_by, insert_row, length,
}
use queue_ctl.Prelude.Int.{pos, ◌-ℤ◌, ◌+ℤ◌, wrap64}
use queue_ctl.Domain.Errors.{ok}
use queue_ctl.Domain.Job.{pending, running, completed, failed, dead_letter, status_eq}
use queue_ctl.Domain.ExecutionLog.{execution_status_eq}
use queue_ctl.Domain.Worker.{stopped, worker_status_eq}
use queue_ctl.Retry.Float.{to_float}
use queue_ctl.Store.{World, now, driver_call}
use queue_ctl.Repository.Jobs as Jobs
use queue_ctl.Repository.Jobs.{is_listed, listed_before}
use queue_ctl.Repository.Logs as Logs
use queue_ctl.Repository.Workers as Workers
use queue_ctl.Repository.Stats.{groups, count_in, get_queue_stats}
use queue_ctl.Metrics.{
  QueueMetrics, total_in, is_busy, is_listed_id, retries_sum, active_worker_ids,
  get_average_runtime, gather, count_active, count_retries, get_metrics,
}
use queue_ctl.Metrics.Rate.{zero_rate, percentage}
use queue_ctl.Metrics.Counts.{in_status, get_metrics-counts}
use queue_ctl.Lifecycle.Table.{Unique}
use queue_ctl.Lifecycle.Histories.{fetching}
use queue_ctl.Cli.Dead.{delete}
use queue_ctl.Cli.Dead.Rows.{is_dead}
use queue_ctl.Cli.Dead.Emptied.{deleted_report, delete_all-empties}
use queue_ctl.Cli.Contract.{Call, command, operation, enqueue, dlq_retry}
use queue_ctl.Scenarios.Sample.{calm_env, dead_job, running_world, world_of, waiting_job}

abbrev running_metrics : QueueMetrics
running_metrics = record {
  pending_count = 1;
  running_count = 1;
  completed_count = 0;
  failed_count = 0;
  dlq_count = 0;
  total_retries = pos 0;
  average_runtime = pos 0;
  success_rate = zero_rate;
  active_workers_count = 1;
  total_workers_count = 1;
  worker_utilization = record { mantissa = 100 * 2 ^ 52; shift = 52 };
}

metrics_run :
    (get_metrics calm_env (λ rows. pos (length rows)) running_world).0 ≡ ok running_metrics
unfolding get_metrics gather count_active count_retries total_in is_busy is_listed_id retries_sum
    active_worker_ids get_average_runtime get_queue_stats groups count_in percentage to_float
    Logs.get_stats Logs.get_by_job_id Logs.logs_of Workers.list_active Workers.prune_stale
    Jobs.list_jobs is_listed listed_before status_eq worker_status_eq execution_status_eq now
    driver_call ◌-ℤ◌ ◌+ℤ◌ wrap64 count_rows where_rows update_rows order_by insert_row
metrics_run = refl

get_metrics-counts_example :
    let m = running_metrics in
    let after = (get_metrics calm_env (λ rows. pos (length rows)) running_world).1.db in
    (m.pending_count ≡ in_status pending running_world.db.jobs)
    × (m.running_count ≡ in_status running running_world.db.jobs)
    × (m.completed_count ≡ in_status completed running_world.db.jobs)
    × (m.failed_count ≡ in_status failed running_world.db.jobs)
    × (m.dlq_count ≡ in_status dead_letter running_world.db.jobs)
    × (m.total_workers_count
        ≡ count_rows (λ v. not (worker_status_eq v.status stopped)) after.workers)
    × (m.active_workers_count ≤ m.total_workers_count)
    × (after.jobs ≡ running_world.db.jobs)
    × (after.logs ≡ running_world.db.logs)
get_metrics-counts_example =
    get_metrics-counts calm_env (λ rows. pos (length rows)) running_world metrics_run

-- A job is enqueued, fetched by a worker, and the dead jobs are retried.
abbrev calls : List Call
calls =
    command (
      enqueue (record { queue = "default"; delay = pos 0; max_retries = pos 2; priority = pos 1 })
        "email" "{}")
    ∷ operation (fetching "default" "worker-1")
    ∷ command (dlq_retry (record { id = ""; all = true }))
    ∷ []

abbrev mixed_world : World
mixed_world = world_of (record dead_job { id = "job-7" } ∷ waiting_job ∷ []) []

ids_differ : "job-7" == "job-1" ≡ false
ids_differ = refl

mixed_Unique : Unique mixed_world.db.jobs
unfolding count_rows
mixed_Unique = record {
  at = λ id.
      ground (arith, eq_iff "job-7" id, eq_iff "job-1" id, ids_differ, eq_iff "job-7" "job-1");
}

few_dead : count_rows is_dead mixed_world.db.jobs ≤ 1000
unfolding count_rows status_eq
few_dead = omega arith

delete_all-empties_example :
    let (printed, w') = delete calm_env (record { id = ""; all = true }) mixed_world in
    (printed ≡ ok (deleted_report (count_rows is_dead mixed_world.db.jobs)))
    × (w'.db.jobs ≡ where_rows (λ j. not (is_dead j)) mixed_world.db.jobs)
delete_all-empties_example =
    delete_all-empties calm_env (λ n. refl) mixed_world mixed_Unique few_dead
