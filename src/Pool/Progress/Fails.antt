-- ===== src/Pool/Progress/Fails.antt =====
-- A job from the poll that takes it to the failure of its handler.
use queue_ctl.Prelude.{◌≡◌, sym, subst, true, some, List, ◌∷◌, arith, All, get_last?, eq_iff}
use queue_ctl.Prelude.Lists.Last.{order_by-last}
use queue_ctl.Prelude.Lists.Order.{All-map}
use queue_ctl.Prelude.Int.{pos, ◌+ℤ◌, wrap64, ◌≤ℤ◌}
use queue_ctl.Domain.Errors.{Error}
use queue_ctl.Domain.Job.{Job}
use queue_ctl.Domain.ExecutionLog.{ExecutionLog}
use queue_ctl.Store.{Env, World, fails}
use queue_ctl.Repository.Logs as Logs
use queue_ctl.Lifecycle.Table.{Unique}
use queue_ctl.Service.Queue.{Settings}
use queue_ctl.Service.Handlers.{execute_job}
use queue_ctl.Service.Fetch.Opens.{IsMonotone, StartedBy}
use queue_ctl.Service.Outcomes.Failure.{Failed, handle_job_failure-settles}
use queue_ctl.Service.Outcomes.Calm.{IsCalm}
use queue_ctl.Service.Outcomes.Calm.Owned.{Owned}
use queue_ctl.Service.Outcomes.Calm.Failure.{handle_job_failure-succeeds}
use queue_ctl.Pool.{Pool, working, poll_and_dispatch, settle}
use queue_ctl.Pool.Progress.{poll_fetched, closable, Dispatched, poll-Dispatched}

-- No log of a job has a higher attempt than the one that comes next.
abbrev pub NoneLater : Job → List ExecutionLog → Type 0
NoneLater job logs =
    All (λ l. Logs.of_job job.id l ≡ true → l.attempt ≤ℤ wrap64 (job.retries_count +ℤ pos 1)) logs

module _ (env : Env) (calm : IsCalm env) (monotone : IsMonotone env) where
  last_opened :
      (p : Pool) (w w' : World) (job : Job) (d : Dispatched env calm monotone p w job w')
      → NoneLater job w.db.logs
      → get_last? (Logs.logs_of job.id w'.db.logs) ≡ some d.log
  unfolding Logs.logs_of
  last_opened p w w' job d none_later =
      subst (λ logs. get_last? (Logs.logs_of job.id logs) ≡ some d.log) (sym d.logs)
        (order_by-last Logs.attempted_before (Logs.of_job job.id) d.log w.db.logs
          (ground (arith, d.log_job, eq_iff d.log.job_id job.id))
          (All-map w.db.logs (λ l h own. let k = h own in let a = d.log_attempt in ground arith)
            none_later))

  opened-Owned :
      (p : Pool) (w w' : World) (job : Job) (d : Dispatched env calm monotone p w job w')
      → NoneLater job w.db.logs
      → Owned env calm p.id job.id w'.reads w'.db.logs
  opened-Owned p w w' job d none_later =
      let last = last_opened p w w' job d none_later in
      record {
        owner = λ l q.
            let same : d.log ≡ l = ground arith in
            subst (λ (l : ExecutionLog). l.worker_id ≡ p.id) same d.log_worker;
        open_yet = λ l q.
            let same : d.log ≡ l = ground arith in
            subst (λ (l : ExecutionLog). l.finished_at ≡ pos 0) same d.log_open;
        started = λ l q. closable env calm monotone job.id w' d.begun l q;
      }

  -- On a driver without faults a job that the pool takes and whose handler fails is not left running:
  -- if a poll has started a goroutine for a job, whose handler returns an error, the key of the jobs
  -- table is unique, the clock never goes back, no log in the table has started after the time that it
  -- shows, and none of this job has a higher attempt than the one that starts, then the row of the job
  -- is running, and what the goroutine does next counts one more failure in it and makes it pending
  -- and due after the delay of the backoff, or dead_letter if the count is above max_retries; the rows
  -- of all other jobs are as before.
  pub poll-fails :
      (s : Settings) (p : Pool) (w : World) (job : Job) (e : Error)
      → Unique w.db.jobs
      → StartedBy (env.clock w.reads) w.db.logs
      → NoneLater job w.db.logs
      → (poll_and_dispatch env p w).0.tasks ≡ working job ∷ p.tasks
      → execute_job job (poll_and_dispatch env p w).1 ≡ fails e
      → let (p', w') = poll_and_dispatch env p w in
        Failed env s.backoff e job.id w'.reads w'.db.jobs (settle env s p' job w').db.jobs
  unfolding settle
  poll-fails s p w job e unique started none_later polls runs =
      let (p', w') = poll_and_dispatch env p w in
      let d = poll-Dispatched env calm monotone p w job unique started polls in
      let (took, ended, same_id) = poll_fetched env p w job polls in
      let own =
        subst (λ id. Owned env calm id job.id w'.reads w'.db.logs) (sym same_id)
          (opened-Owned p w w' job d none_later) in
      let no_error =
        handle_job_failure-succeeds env calm p'.id e s job job w' d.is_running d.found d.is_running
          own in
      rw runs (handle_job_failure-settles env s job p'.id e w' no_error)
