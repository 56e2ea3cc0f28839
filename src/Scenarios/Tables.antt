-- ===== src/Scenarios/Tables.antt =====
-- The theorems on the tables, the handlers and the transactions at concrete inputs.
use mathlib.Core.List.{Perm}
use queue_ctl.Prelude.{
  ◌≡◌, ◌≢◌, ◌+◌, ◌⊎◌, if◌then◌else◌, ◌&&◌, not, refl, true, false, some, [], ◌∷◌, where_rows,
  count_rows, find_row, insert_row, order_by, arith, get_last?,
}
use queue_ctl.Prelude.Int.{pos, ◌-ℤ◌}
use queue_ctl.Prelude.Lists.Order.{IsSorted}
use queue_ctl.Domain.Errors.{ok, err, detail, handler_not_found, handler_already_registered}
use queue_ctl.Domain.Job.{Job, unsupported, status_eq}
use queue_ctl.Domain.Worker.{stopped, worker_status_eq}
use queue_ctl.Store.{Exec, now, driver_call, fails, succeeds}
use queue_ctl.Store.Tx.{Ctx, plain, in_tx, with_tx}
use queue_ctl.Store.Tx.Atomic.{is_done, is_ok, goes_through, tx_start, with_tx_ends}
use queue_ctl.Repository.Jobs.{is_listed, listed_before, list_jobs}
use queue_ctl.Repository.Jobs.Listing.{list_jobs-IsSorted}
use queue_ctl.Repository.Logs as Logs
use queue_ctl.Repository.Workers as Workers
use queue_ctl.Repository.Workers.{is_stale, prune_stale}
use queue_ctl.Repository.Workers.Pruning.{prune_stale-none}
use queue_ctl.Service.Handlers.{Handler, handler_of, register_handler, execute_job}
use queue_ctl.Service.Handlers.Registry.{register_handler-runs}
use queue_ctl.Service.Reclaim.{reclaim_one}
use queue_ctl.Service.Reclaim.Spares.{reclaim_one-spares}
use queue_ctl.Scenarios.Sample.{
  calm_env, sample_settings, sample_worker, waiting_job, urgent_job, running_job, open_log,
  empty_world, waiting_world, running_world, boom,
}

last_log_open : get_last? (Logs.logs_of "job-1" running_world.db.logs) ≡ some open_log
unfolding Logs.logs_of where_rows order_by insert_row
last_log_open = refl

owner_found : find_row (Workers.has_id "worker-1") running_world.db.workers ≡ some sample_worker
unfolding find_row
owner_found = refl

owner_alive : worker_status_eq sample_worker.status stopped ≡ false
unfolding worker_status_eq
owner_alive = refl

reclaim_one-spares_example :
    (reclaim_one calm_env sample_settings running_job running_world).db ≡ running_world.db
reclaim_one-spares_example =
    reclaim_one-spares calm_env sample_settings running_job running_world open_log sample_worker
      last_log_open owner_found owner_alive refl

list_runs :
    (list_jobs calm_env "default" (unsupported "") "" (pos 0) waiting_world).0
    ≡ ok (urgent_job ∷ waiting_job ∷ [])
unfolding list_jobs is_listed listed_before status_eq driver_call where_rows order_by insert_row
list_runs = refl

list_jobs-IsSorted_example :
    Perm
      (urgent_job ∷ waiting_job ∷ [])
      (where_rows (is_listed "default" (unsupported "") "") waiting_world.db.jobs)
    × IsSorted listed_before (urgent_job ∷ waiting_job ∷ [])
    × ((list_jobs calm_env "default" (unsupported "") "" (pos 0) waiting_world).1.db
        ≡ waiting_world.db)
list_jobs-IsSorted_example =
    list_jobs-IsSorted calm_env "default" (unsupported "") "" (pos 0) waiting_world (omega arith)
      list_runs

prune_runs : (prune_stale calm_env (pos 100) running_world).0 ≡ ok 1
unfolding prune_stale now driver_call ◌-ℤ◌ worker_status_eq count_rows
prune_runs = refl

prune_stale-none_example :
    let cutoff = pos 1000 -ℤ pos 100 in
    let after = (prune_stale calm_env (pos 100) running_world).1.db.workers in
    (1 ≡ count_rows (is_stale cutoff) running_world.db.workers)
    × (count_rows (is_stale cutoff) after ≡ 0)
    × (where_rows (λ v. not (worker_status_eq v.status stopped)) after
        ≡ where_rows
            (λ v. not (is_stale cutoff v) && not (worker_status_eq v.status stopped))
            running_world.db.workers)
prune_stale-none_example = prune_stale-none calm_env (pos 100) running_world prune_runs

abbrev send : Handler
send payload = succeeds

register_runs : (register_handler "email" (some send) empty_world).0 ≡ ok tt
unfolding register_handler handler_of
register_runs = refl

register_handler-runs_example :
    let w' = (register_handler "email" (some send) empty_world).1 in
    ((job : Job) → job.job_type ≡ "email" → execute_job job w' ≡ succeeds)
    × ((job : Job) → job.job_type ≢ "email" → execute_job job w' ≡ execute_job job empty_world)
    × ((job : Job)
        → job.job_type ≡ "email"
        → execute_job job empty_world ≡ fails (detail handler_not_found "email"))
    × ((again : Handler)
        → register_handler "email" (some again) w'
          ≡ (err (detail handler_already_registered "email"), w'))
register_handler-runs_example = register_handler-runs "email" send empty_world register_runs

-- A transaction that empties the jobs table and then fails.
abbrev wipe : Ctx → Exec (Unit {0})
wipe ctx w = (ok tt, record w { db = record w.db { jobs = [] } })

abbrev wipe_and_fail : Ctx → Exec (Unit {0})
wipe_and_fail ctx w = (err boom, (wipe ctx w).1)

with_tx_ends_example :
    let w = running_world in
    let r = with_tx calm_env plain wipe_and_fail w in
    let ran = wipe_and_fail in_tx (tx_start w) in
    let starts =
      goes_through (calm_env.fault w.calls) && goes_through (calm_env.fault (w.calls + 1)) in
    ((starts ≡ false) × (is_done r.0 ≡ false) × (r.1 ≡ record w { calls = r.1.calls }))
    ⊎ ((starts ≡ true)
        × (is_done r.0 ≡ (is_ok ran.0 && goes_through (calm_env.fault ran.1.calls)))
        × (r.1 ≡ record ran.1 {
          calls = ran.1.calls + 1;
          db = if is_done r.0 then ran.1.db else w.db;
        }))
with_tx_ends_example = with_tx_ends calm_env wipe_and_fail running_world
