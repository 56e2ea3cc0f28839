-- ===== src/Lifecycle/Logs/Histories.antt =====
-- Sequences of operations keep the invariant of the logs.
use queue_ctl.Prelude.{String, ◌≡◌, refl, sym, subst, Option, none, some, List, [], ◌∷◌, arith}
use queue_ctl.Prelude.Int.{ℤ}
use queue_ctl.Domain.Errors.{Result}
use queue_ctl.Domain.Job.{Job, Time, Duration, JobStatus}
use queue_ctl.Domain.Worker as Worker
use queue_ctl.Domain.Clocked.{new_job, or_now}
use queue_ctl.Scheduler.{notify}
use queue_ctl.Dlq.{fetch_dead, retry, restore, delete_dead}
use queue_ctl.Store.{Env, Db, World, new_id}
use queue_ctl.Store.Keeps.{Keeps, Keeps-wrapping, keeps_rules}
use queue_ctl.Store.Preserves.{Preserves-bind}
use queue_ctl.Repository.Jobs as Jobs
use queue_ctl.Repository.Logs as Logs
use queue_ctl.Repository.Workers as Workers
use queue_ctl.Service.Queue.{Settings, enqueue, purge_completed, register_worker, unregister_worker}
use queue_ctl.Service.Outcomes.{handle_job_failure}
use queue_ctl.Service.Reclaim.{
  find_dead_owner, reclaim, reclaim_one, reclaim_all, reclaim_orphaned_jobs, reclaim_error,
  after_failure,
}
use queue_ctl.Lifecycle.Histories.{
  Operation, enqueuing, fetching, succeeding, failing, retrying, restoring, deleting, purging,
  reclaiming, registering, unregistering, perform, history,
}
use queue_ctl.Lifecycle.Logs.{LogsSound}
use queue_ctl.Lifecycle.Logs.Outcomes.{
  logs_in, KeepsSound, quiet, success-LogsSound, failure-LogsSound,
}
use queue_ctl.Lifecycle.Logs.Fetch.{fetch-LogsSound}

module _ (env : Env) where
  or_now-Keeps : (t : Time) → Keeps logs_in (or_now env t)
  unfolding or_now
  or_now-Keeps t = record { at = λ w. ground arith }

  new_id-Keeps : Keeps logs_in (new_id env)
  unfolding new_id
  new_id-Keeps = record { at = λ w. refl }

  new_job-Keeps :
      (id job_type payload queue : String) (priority max : ℤ) (run_at : Time)
      → Keeps logs_in (new_job env id job_type payload queue priority max run_at)
  unfolding new_job or_now
  new_job-Keeps id job_type payload queue priority max run_at = record { at = λ w. ground arith }

  insert-Keeps : (job : Job) → Keeps logs_in (Jobs.insert env job)
  unfolding Jobs.insert
  insert-Keeps job = record { at = λ w. ground arith }

  notify-Keeps : Keeps logs_in notify
  unfolding notify
  notify-Keeps = record { at = λ w. ground arith }

  enqueue-Keeps :
      (s : Settings) (job_type payload queue : String) (priority : ℤ) (run_at : Time) (max : ℤ)
      → Keeps logs_in (enqueue env s job_type payload queue priority run_at max)
  unfolding enqueue
  enqueue-Keeps s job_type payload queue priority run_at max =
      search (keeps_rules, or_now-Keeps, new_id-Keeps, new_job-Keeps, insert-Keeps, notify-Keeps)
        depth 18

  retry-Keeps : (id : String) → Keeps logs_in (retry env id)
  unfolding retry fetch_dead Jobs.get_by_id Jobs.update
  retry-Keeps id = record { at = λ w. ground arith }

  restore-Keeps : (id target : String) → Keeps logs_in (restore env id target)
  unfolding restore fetch_dead Jobs.get_by_id Jobs.update
  restore-Keeps id target = record { at = λ w. ground arith }

  delete-Keeps : (id : String) → Keeps logs_in (delete_dead env id)
  unfolding delete_dead fetch_dead Jobs.get_by_id Jobs.delete
  delete-Keeps id = record { at = λ w. ground arith }

  purge-Keeps : (d : Duration) → Keeps logs_in (purge_completed env d)
  unfolding purge_completed Jobs.delete_completed_jobs
  purge-Keeps d = record { at = λ w. ground arith }

  register-Keeps : (worker : Worker.Worker) → Keeps logs_in (register_worker env (some worker))
  unfolding register_worker Workers.upsert Worker.validate
  register-Keeps worker = record { at = λ w. ground arith }

  unregister-Keeps : (id : String) → Keeps logs_in (unregister_worker env id)
  unfolding unregister_worker Workers.delete
  unregister-Keeps id = record { at = λ w. ground arith }

  find_dead_owner-Keeps : (job : Job) (w : World) → (find_dead_owner env job w).1.db ≡ w.db
  unfolding find_dead_owner Logs.get_by_job_id Workers.get_by_id
  find_dead_owner-Keeps job w = ground arith

  prune-Keeps : (d : Duration) → Keeps logs_in (Workers.prune_stale env d)
  unfolding Workers.prune_stale
  prune-Keeps d = record { at = λ w. ground arith }

  list-Keeps :
      (queue : String) (status : JobStatus) (text : String) (limit : ℤ)
      → Keeps logs_in (Jobs.list_jobs env queue status text limit)
  unfolding Jobs.list_jobs
  list-Keeps queue status text limit = record { at = λ w. ground arith }

  module _ (s : Settings) where
    after_failure-Keeps :
        (r : Result (Unit {0})) (job : Option Job) (w : World)
        → (after_failure env s r job w).db ≡ w.db
    unfolding notify
    after_failure-Keeps r job w = ground arith

    reclaim-LogsSound :
        (job : Job) (owner : Option String) (w : World)
        → LogsSound w.db.logs
        → LogsSound (reclaim env s job owner w).db.logs
    reclaim-LogsSound job none w h = h
    reclaim-LogsSound job (some dead) w h =
        let f = handle_job_failure env s (some job) dead (some reclaim_error) w in
        subst (λ (d : Db). LogsSound d.logs) (sym (after_failure-Keeps f.result f.job f.world))
          (failure-LogsSound env s job dead reclaim_error w h)

    reclaim_all-LogsSound :
        (jobs : List Job) (w : World)
        → LogsSound w.db.logs
        → LogsSound (reclaim_all env s jobs w).db.logs
    unfolding reclaim_all reclaim_one
    reclaim_all-LogsSound [] w h = h
    reclaim_all-LogsSound (job ∷ jobs) w h =
        let found = find_dead_owner env job w in
        reclaim_all-LogsSound jobs (reclaim env s job found.0 found.1) (
          reclaim-LogsSound job found.0 found.1
            (subst (λ (d : Db). LogsSound d.logs) (sym (find_dead_owner-Keeps job w)) h))

    reclaim-KeepsSound : KeepsSound (reclaim_orphaned_jobs env s)
    unfolding reclaim_orphaned_jobs
    reclaim-KeepsSound =
        let P = λ (w : World). LogsSound w.db.logs in
        Preserves-bind P _ _ (quiet env _ (Keeps-wrapping _ _ (prune-Keeps _))) λ n.
          Preserves-bind P _ _ (quiet env _ (Keeps-wrapping _ _ (list-Keeps _ _ _ _)))
            λ jobs. record { at = λ w h. reclaim_all-LogsSound jobs w h }

    perform-LogsSound :
        (op : Operation) (w : World) → LogsSound w.db.logs → LogsSound (perform env s op w).db.logs
    unfolding perform
    perform-LogsSound (enqueuing job_type payload queue priority run_at max) w h =
        (quiet env _ (enqueue-Keeps s job_type payload queue priority run_at max)).at w h
    perform-LogsSound (fetching queue worker_id) w h = fetch-LogsSound env queue worker_id w h
    perform-LogsSound (succeeding job worker_id) w h = success-LogsSound env job worker_id w h
    perform-LogsSound (failing job worker_id e) w h = failure-LogsSound env s job worker_id e w h
    perform-LogsSound (retrying id) w h = (quiet env _ (retry-Keeps id)).at w h
    perform-LogsSound (restoring id target) w h = (quiet env _ (restore-Keeps id target)).at w h
    perform-LogsSound (deleting id) w h = (quiet env _ (delete-Keeps id)).at w h
    perform-LogsSound (purging d) w h = (quiet env _ (purge-Keeps d)).at w h
    perform-LogsSound reclaiming w h = reclaim-KeepsSound.at w h
    perform-LogsSound (registering worker) w h = (quiet env _ (register-Keeps worker)).at w h
    perform-LogsSound (unregistering id) w h = (quiet env _ (unregister-Keeps id)).at w h

    -- The execution logs stay sound: whatever sequence of operations has been called, whatever the
    -- faults of the driver and the answers of the clock, if at the start no identifier had two logs
    -- and each log was open or had ended no earlier than it started, then the same holds at the end.
    pub history-LogsSound :
        (ops : List Operation) (w : World)
        → LogsSound w.db.logs
        → LogsSound (history env s ops w).db.logs
    unfolding history
    history-LogsSound [] w h = h
    history-LogsSound (op ∷ ops) w h =
        history-LogsSound ops (perform env s op w) (perform-LogsSound op w h)
