-- ===== src/Metrics.antt =====
-- internal/metrics/metrics.go, and GetAverageRuntime of
-- internal/repository/sqlite/sqlite_execution_log_repository.go.
pub mod Counts
pub mod Rate
use queue_ctl.Prelude.{
  ℕ, ◌+◌, ◌*◌, String, Bool, true, false, ◌||◌, Option, none, some, List, [], ◌∷◌, ◌==◌, ltb,
  length, get_last?, where_rows, count_rows, if◌then◌else◌,
}
use queue_ctl.Prelude.Int.{ℤ, pos, ◌+ℤ◌, wrap64}
use queue_ctl.Domain.Errors.{Result, ok, err}
use queue_ctl.Domain.Job.{
  Job, JobStatus, Duration, pending, running, completed, failed, dead_letter, unsupported,
  status_eq,
}
use queue_ctl.Domain.ExecutionLog.{ExecutionLog, success, execution_status_eq, is_zero}
use queue_ctl.Domain.Worker.{Worker, active, worker_status_eq}
use queue_ctl.Retry.Backoff.{second}
use queue_ctl.Store.{Env, World, Exec, pure, gets, wrapping, driver_call, ◌>>=◌, ◌>>◌}
use queue_ctl.Repository.Jobs as Jobs
use queue_ctl.Repository.Logs as Logs
use queue_ctl.Repository.Workers as Workers
use queue_ctl.Repository.Stats.{Group, get_queue_stats}
use queue_ctl.Metrics.Rate.{Float64, zero_rate, hundred, percentage}

-- QueueMetrics
pub record QueueMetrics : Type 0 where
  pub pending_count : ℕ
  pub running_count : ℕ
  pub completed_count : ℕ
  pub failed_count : ℕ
  pub dlq_count : ℕ
  pub total_retries : ℤ
  pub average_runtime : Duration
  pub success_rate : Float64
  pub active_workers_count : ℕ
  pub total_workers_count : ℕ
  pub worker_utilization : Float64

-- what the loop over the statistics adds up for one status
unfoldable pub total_in : JobStatus → List Group → ℕ
unfolding status_eq
total_in status [] = 0
total_in status (g ∷ gs) =
    let rest = total_in status gs in if status_eq g.status status then g.count + rest else rest

-- the worker of the last log of a job, while the log is open
abbrev pub open_owner : Option ExecutionLog → List String → List String
open_owner none ids = ids
open_owner (some l) ids = if is_zero l.finished_at then l.worker_id ∷ ids else ids

abbrev pub owner_of_logs : Result (List ExecutionLog) → List String → List String
owner_of_logs (err e) ids = ids
owner_of_logs (ok logs) ids = open_owner (get_last? logs) ids

-- activeWorkerIDs[id]
unfoldable pub is_listed_id : List String → String → Bool
is_listed_id [] id = false
is_listed_id (x ∷ xs) id = let rest = is_listed_id xs id in if x == id then true else rest

-- `w.Status == domain.WorkerStatusActive || activeWorkerIDs[w.ID]`
unfoldable pub is_busy : List String → Worker → Bool
unfolding worker_status_eq is_listed_id
is_busy ids w = worker_status_eq w.status active || is_listed_id ids w.id

-- the loop that adds up j.RetriesCount
unfoldable pub retries_sum : ℤ → List Job → ℤ
retries_sum n [] = n
retries_sum n (j ∷ js) = retries_sum (wrap64 (n +ℤ j.retries_count)) js

-- the value of a list that is left empty when its query fails
abbrev pub or_empty : Result (List Job) → List Job
or_empty (ok jobs) = jobs
or_empty (err e) = []

abbrev rate_or : Float64 → ℕ → ℕ → Float64
rate_or default part whole = if ltb 0 whole then percentage part whole else default

-- `average` is SQLite's AVG of the differences of the julianday values of rows, in seconds, as the
-- method converts it to a time.Duration.
module _ (env : Env) (average : List ExecutionLog → Duration) where
  abbrev average_or_zero : List ExecutionLog → Duration
  average_or_zero [] = pos 0
  average_or_zero (l ∷ ls) = average (l ∷ ls)

  -- GetAverageRuntime
  unfoldable pub get_average_runtime : Exec Duration
  unfolding driver_call execution_status_eq
  get_average_runtime = do
    wrapping "failed to calculate average runtime" (driver_call env)
    gets (λ w. average_or_zero (where_rows (λ l. execution_status_eq l.status success) w.db.logs))

  -- a call whose error is dropped
  abbrev attempted : Exec (List Job) → Exec (List Job)
  attempted m w = pure (or_empty (m w).0) (m w).1

  -- the loop over the running jobs
  unfoldable pub active_worker_ids : List Job → List String → Exec (List String)
  active_worker_ids [] ids w = (ok ids, w)
  active_worker_ids (job ∷ jobs) ids w =
      let (r, w') = Logs.get_by_job_id env job.id w in
      active_worker_ids jobs (owner_of_logs r ids) w'

  -- the four queries whose error GetMetrics returns
  unfoldable pub gather : Exec (List Group × Duration × (ℕ × ℕ) × List Worker)
  gather = do
    stats ← wrapping "failed to retrieve job stats" (get_queue_stats env)
    runtime ← wrapping "failed to retrieve average execution duration" get_average_runtime
    executed ← wrapping "failed to retrieve execution stats" (Logs.get_stats env)
    workers ← wrapping "failed to retrieve active workers list" (Workers.list_active env)
    pure (stats, runtime, executed, workers)

  -- the number of the workers that are busy
  unfoldable pub count_active : List Worker → Exec ℕ
  unfolding is_busy active_worker_ids
  count_active workers = do
    running_jobs ← attempted (Jobs.list_jobs env "" running "" (pos 1000))
    ids ← active_worker_ids running_jobs []
    pure (count_rows (is_busy ids) workers)

  -- the retries of the jobs, the first 1000 of the listing
  unfoldable pub count_retries : Exec ℤ
  unfolding retries_sum
  count_retries = do
    all_jobs ← attempted (Jobs.list_jobs env "" (unsupported "") "" (pos 1000))
    pure (retries_sum (pos 0) all_jobs)

  abbrev pub report : List Group × Duration × (ℕ × ℕ) × List Worker → ℕ → ℤ → QueueMetrics
  report (stats, runtime, (succeeded, failures), workers) active_workers retries = record {
    pending_count = total_in pending stats;
    running_count = total_in running stats;
    completed_count = total_in completed stats;
    failed_count = total_in failed stats;
    dlq_count = total_in dead_letter stats;
    total_retries = retries;
    average_runtime = runtime;
    success_rate = rate_or hundred succeeded (succeeded + failures);
    active_workers_count = active_workers;
    total_workers_count = length workers;
    worker_utilization = rate_or zero_rate active_workers (length workers);
  }

  -- GetMetrics
  unfoldable pub get_metrics : Exec QueueMetrics
  unfolding total_in
  get_metrics = do
    (λ w. pure tt (Workers.prune_stale env (pos (30 * second)) w).1)
    gathered ← gather
    active_workers ← count_active gathered.3
    retries ← count_retries
    pure (report gathered active_workers retries)
