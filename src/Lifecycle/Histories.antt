-- ===== src/Lifecycle/Histories.antt =====
-- Any sequence of the operations of internal/service and internal/dlq, each of which may fail.
use queue_ctl.Prelude.{
  String, ◌+◌, ◌*◌, ◌<◌, ◌≤◌, ◌^◌, ◌≡◌, ◌≢◌, ap, sym, Option, none, some, List, [], ◌∷◌, arith, All,
  subst, count_rows,
}
use queue_ctl.Prelude.Int.{ℤ, pos, pos_part, ◌≤ℤ◌}
use queue_ctl.Domain.Errors.{Error, Result, ok}
use queue_ctl.Scheduler.{notify}
use queue_ctl.Retry.Backoff.{second}
use queue_ctl.Domain.Worker.{validate as validate_worker}
use queue_ctl.Domain.Job.{JobStatus, running, dead_letter, Job, Time, Duration, validate}
use queue_ctl.Domain.Worker.{Worker}
use queue_ctl.Store.{Env, World, pure, ◌>>=◌, wrapping}
use queue_ctl.Repository.Jobs as Jobs
use queue_ctl.Repository.Workers as Workers
use queue_ctl.Repository.Logs as Logs
use queue_ctl.Repository.Jobs.{has_id}
use queue_ctl.Repository.Jobs.Save.{row_in}
use queue_ctl.Dlq.{retry, restore, delete_dead}
use queue_ctl.Service.Queue.{Settings, enqueue, purge_completed, register_worker, unregister_worker}
use queue_ctl.Service.Fetch.{fetch_next_job}
use queue_ctl.Service.Outcomes.{handle_job_success, handle_job_failure}
use queue_ctl.Service.Reclaim.{
  reclaim_one, reclaim_all, reclaim, after_failure, reclaim_orphaned_jobs, find_dead_owner,
  reclaim_error,
}
use queue_ctl.Lifecycle.Table.{Unique, Refines, Refines-same, Refines-refl, Refines-trans}
use queue_ctl.Lifecycle.Outcomes.{success_Refines, failure_Refines}
use queue_ctl.Lifecycle.Fetch.{fetch_Refines}
use queue_ctl.Lifecycle.Commands.{
  retry-Refines, restore-Refines, delete_dead-Refines, purge_Refines,
}
use queue_ctl.Lifecycle.Enqueue.{enqueue-Refines, after_keeping_jobs}
use queue_ctl.Lifecycle.Sound.{IsSound, IsSound-valid, AllSound, AllSound-nil, Holds, Run-AllSound}

-- A call of an operation that may change the tables.
pub data Operation : Type 0 where
  enqueuing : String → String → String → ℤ → Time → ℤ → Operation
  fetching : String → String → Operation
  succeeding : Job → String → Operation
  failing : Job → String → Error → Operation
  retrying : String → Operation
  restoring : String → String → Operation
  deleting : String → Operation
  purging : Duration → Operation
  reclaiming : Operation
  registering : Worker → Operation
  unregistering : String → Operation

-- The argument max_retries of an Enqueue is below the largest int64.
abbrev pub IsBounded : Operation → Type 0
IsBounded (enqueuing job_type payload queue priority run_at max) = pos_part max + 1 < 2 ^ 63
IsBounded _ = Unit

module _ (env : Env) (s : Settings) where
  unfoldable pub perform : Operation → World → World
  perform (enqueuing job_type payload queue priority run_at max) w =
      (enqueue env s job_type payload queue priority run_at max w).1
  perform (fetching queue worker_id) w = (fetch_next_job env queue worker_id w).1
  perform (succeeding job worker_id) w = (handle_job_success env (some job) worker_id w).world
  perform (failing job worker_id e) w =
      (handle_job_failure env s (some job) worker_id (some e) w).world
  perform (retrying id) w = (retry env id w).1
  perform (restoring id target) w = (restore env id target w).1
  perform (deleting id) w = (delete_dead env id w).1
  perform (purging d) w = (purge_completed env d w).1
  perform reclaiming w = (reclaim_orphaned_jobs env s w).1
  perform (registering worker) w = (register_worker env (some worker) w).1
  perform (unregistering id) w = (unregister_worker env id w).1

  unfoldable pub history : List Operation → World → World
  history [] w = w
  history (op ∷ ops) w = history ops (perform op w)

  find_dead_owner_jobs : (job : Job) (w : World) → (find_dead_owner env job w).1.db ≡ w.db
  unfolding find_dead_owner Logs.get_by_job_id Workers.get_by_id
  find_dead_owner_jobs job w = ground arith

  after_failure_jobs :
      (r : Result (Unit {0})) (job : Option Job) (w : World)
      → (after_failure env s r job w).db ≡ w.db
  unfolding notify
  after_failure_jobs r job w = ground arith

  reclaim-Refines :
      (job : Job) (owner : Option String) (w : World)
      → Refines w.db.jobs (reclaim env s job owner w).db.jobs
  reclaim-Refines job none w = Refines-refl w.db.jobs
  reclaim-Refines job (some dead) w =
      let h = handle_job_failure env s (some job) dead (some reclaim_error) w in
      rw (after_failure_jobs h.result h.job h.world)
        (failure_Refines env dead w s reclaim_error job)

  reclaim_one-Refines :
      (job : Job) (w : World) → Refines w.db.jobs (reclaim_one env s job w).db.jobs
  unfolding reclaim_one
  reclaim_one-Refines job w =
      subst (λ d. Refines d.jobs (reclaim_one env s job w).db.jobs) (find_dead_owner_jobs job w)
        (reclaim-Refines job (find_dead_owner env job w).0 (find_dead_owner env job w).1)

  reclaim_all-Refines :
      (jobs : List Job) (w : World) → Refines w.db.jobs (reclaim_all env s jobs w).db.jobs
  unfolding reclaim_all
  reclaim_all-Refines [] w = Refines-refl w.db.jobs
  reclaim_all-Refines (job ∷ jobs) w =
      Refines-trans (reclaim_one-Refines job w) (reclaim_all-Refines jobs (reclaim_one env s job w))

  pub prune_stale_jobs :
      (d : Duration) (w : World) → (Workers.prune_stale env d w).1.db.jobs ≡ w.db.jobs
  unfolding Workers.prune_stale
  prune_stale_jobs d w = ground arith

  list_jobs_jobs :
      (queue : String) (status : JobStatus) (text : String) (limit : ℤ) (w : World)
      → (Jobs.list_jobs env queue status text limit w).1.db ≡ w.db
  unfolding Jobs.list_jobs
  list_jobs_jobs queue status text limit w = ground arith

  -- ReclaimOrphanedJobs keeps the contract, at each of its jobs.
  pub reclaim_Refines_all :
      (w : World) → Refines w.db.jobs (reclaim_orphaned_jobs env s w).1.db.jobs
  unfolding reclaim_orphaned_jobs
  reclaim_Refines_all w =
      let prune =
        wrapping "failed to prune stale workers" (Workers.prune_stale env (pos (30 * second))) in
      let rows =
        wrapping "failed to list running jobs" (Jobs.list_jobs env "" running "" (pos 1000)) in
      let each = λ (jobs : List Job) (w : World). pure tt (reclaim_all env s jobs w) in
      after_keeping_jobs env prune (λ _. rows >>= each) w (prune_stale_jobs (pos (30 * second)) w)
        λ n pruned.
          after_keeping_jobs env rows each (prune w).1
            (ap (λ d. d.jobs) (list_jobs_jobs "" running "" (pos 1000) (prune w).1))
            λ jobs listed. reclaim_all-Refines jobs (rows (prune w).1).1

  pub register_jobs :
      (worker : Worker) (w : World) → (register_worker env (some worker) w).1.db.jobs ≡ w.db.jobs
  unfolding register_worker Workers.upsert validate_worker
  register_jobs worker w = ground arith

  unregister_jobs : (id : String) (w : World) → (unregister_worker env id w).1.db.jobs ≡ w.db.jobs
  unfolding unregister_worker Workers.delete
  unregister_jobs id w = ground arith

  pub perform-Refines :
      (op : Operation) (w : World)
      → IsBounded op
      → pos_part s.max_retries + 1 < 2 ^ 63
      → Refines w.db.jobs (perform op w).db.jobs
  unfolding perform
  perform-Refines (enqueuing job_type payload queue priority run_at max) w b k =
      enqueue-Refines env s job_type payload queue priority run_at max w b k
  perform-Refines (fetching queue worker_id) w b k = fetch_Refines env queue worker_id w
  perform-Refines (succeeding job worker_id) w b k = success_Refines env worker_id w job
  perform-Refines (failing job worker_id e) w b k = failure_Refines env worker_id w s e job
  perform-Refines (retrying id) w b k = retry-Refines env id w
  perform-Refines (restoring id target) w b k = restore-Refines env id target w
  perform-Refines (deleting id) w b k = delete_dead-Refines env id w
  perform-Refines (purging d) w b k = purge_Refines env d w
  perform-Refines reclaiming w b k = reclaim_Refines_all w
  perform-Refines (registering worker) w b k = Refines-same (register_jobs worker w)
  perform-Refines (unregistering id) w b k = Refines-same (unregister_jobs id w)

  pub history-Refines :
      (ops : List Operation) (w : World)
      → All IsBounded ops
      → pos_part s.max_retries + 1 < 2 ^ 63
      → Refines w.db.jobs (history ops w).db.jobs
  unfolding history
  history-Refines [] w b k = Refines-refl w.db.jobs
  history-Refines (op ∷ ops) w b k =
      Refines-trans (perform-Refines op w b.0 k) (history-Refines ops (perform op w) b.1 k)

  -- Whatever sequence of operations has been called on an empty jobs table, with the max_retries of
  -- the configuration and of each Enqueue below the largest int64: no identifier has two rows, and
  -- each row that GetByID can find is valid by Validate, has failed at most max_retries times unless
  -- it is dead_letter, and has failed exactly max_retries + 1 times if it is.
  pub history-IsSound :
      (ops : List Operation) (w : World) (id : String) {row : Job}
      → All IsBounded ops
      → pos_part s.max_retries + 1 < 2 ^ 63
      → w.db.jobs ≡ []
      → row_in id (history ops w).db.jobs ≡ some row
      → (count_rows (has_id id) (history ops w).db.jobs ≤ 1)
        × (validate row ≡ ok tt)
        × (row.status ≢ dead_letter → row.retries_count ≤ℤ row.max_retries)
        × (row.status ≡ dead_letter → row.retries_count ≡ pos (pos_part row.max_retries + 1))
  unfolding count_rows
  history-IsSound ops w id {row} b k empty found =
      let r = history-Refines ops w b k in
      let start : Unique w.db.jobs = record { at = λ key. rw empty (omega arith) } in
      let sound =
        Run-AllSound w.db.jobs (history ops w).db.jobs (r.run start)
          (subst AllSound (sym empty) AllSound-nil) in
      let here : IsSound row = subst (Holds IsSound) found (sound.at id) in
      ((r.unique start).at id, IsSound-valid row here, here.in_budget, here.exhausted)
