-- ===== src/Metrics/Counts.antt =====
-- What GetMetrics of internal/metrics/metrics.go counts.
use queue_ctl.Prelude.{
  ℕ, ◌*◌, ◌≤◌, ◌≡◌, refl, ap, sym, ◌∙◌, String, not, List, [], ◌∷◌, arith, length, where_rows,
  count_rows, order_by, Bool-cases, inl, inr,
}
use queue_ctl.Prelude.Int.{ℤ, pos}
use queue_ctl.Prelude.Lists.Measure.{count_rows-length, length-order_by, length-where_rows}
use queue_ctl.Domain.Errors.{ok}
use queue_ctl.Domain.Job.{
  Job, JobStatus, Duration, pending, running, completed, failed, dead_letter, unsupported,
  status_eq,
}
use queue_ctl.Domain.ExecutionLog.{ExecutionLog}
use queue_ctl.Domain.Worker.{Worker, stopped, worker_status_eq}
use queue_ctl.Retry.Backoff.{second}
use queue_ctl.Store.{Env, World, ◌>>=◌, pure}
use queue_ctl.Store.Bind.{>>=-ok, >>=-cases}
use queue_ctl.Repository.Stats.{Group, is_group, count_in, groups, get_queue_stats}
use queue_ctl.Repository.Stats.Counts.{status_eq_iff, more}
use queue_ctl.Repository.Logs.{get_by_job_id, get_stats}
use queue_ctl.Repository.Jobs.{list_jobs}
use queue_ctl.Repository.Workers.{prune_stale, list_active, started_before}
use queue_ctl.Metrics.{
  QueueMetrics, is_busy, or_empty, retries_sum, gather, count_active, count_retries, report,
  get_average_runtime, total_in, owner_of_logs, active_worker_ids, get_metrics,
}

-- The number of the rows in a state, whatever their queue.
abbrev pub in_status : JobStatus → List Job → ℕ
in_status status = count_rows (λ j. status_eq j.status status)

total-count_in :
    (status : JobStatus) (q : String) (s : JobStatus) (gs : List Group)
    → total_in status (count_in q s gs) ≡ more (status_eq s status) (total_in status gs)
unfolding total_in count_in
total-count_in status q s [] = ground arith
total-count_in status q s (g ∷ gs) = elim (Bool-cases (is_group q s g)) [
  | inl e ↦
      let same : g.status ≡ s = ground (arith, status_eq_iff g.status s) in
      rw e (rw same (ground arith))
  | inr e ↦ rw e (ground (arith, total-count_in status q s gs))
]

total-groups :
    (status : JobStatus) (rows : List Job) → total_in status (groups rows) ≡ in_status status rows
unfolding groups count_rows total_in
total-groups status [] = refl
total-groups status (j ∷ js) =
    total-count_in status j.queue j.status (groups js)
    ∙ ap (more (status_eq j.status status)) (total-groups status js)

module _ (env : Env) (average : List ExecutionLog → Duration) where
  active_worker_ids_lem :
      (jobs : List Job) (ids : List String) (w : World)
      → (ids' : List String) × ((active_worker_ids env average jobs ids w).0 ≡ ok ids')
        × ((active_worker_ids env average jobs ids w).1.db ≡ w.db)
  unfolding active_worker_ids get_by_job_id
  active_worker_ids_lem [] ids w = (ids, refl, refl)
  active_worker_ids_lem (job ∷ jobs) ids w =
      let (r, w') = get_by_job_id env job.id w in
      let (ids', done, kept) = active_worker_ids_lem jobs (owner_of_logs r ids) w' in
      (ids', done, kept ∙ ground arith)

  abbrev pruned : World → World
  pruned w = (prune_stale env (pos (30 * second)) w).1

  prune_stale_keeps :
      (w : World) → ((pruned w).db.jobs ≡ w.db.jobs) × ((pruned w).db.logs ≡ w.db.logs)
  unfolding prune_stale
  prune_stale_keeps w = ground arith

  gather_db : (w : World) → (gather env average w).1.db ≡ w.db
  unfolding gather get_average_runtime get_queue_stats get_stats list_active
  gather_db w = ground arith

  gather_ok :
      (w : World) {stats : List Group} {d : Duration} {executed : ℕ × ℕ} {workers : List Worker}
      → (gather env average w).0 ≡ ok (stats, d, executed, workers)
      → (stats ≡ groups w.db.jobs)
        × (workers
            ≡ order_by started_before
                (where_rows (λ v. not (worker_status_eq v.status stopped)) w.db.workers))
        × ((gather env average w).1.db ≡ w.db)
  unfolding gather get_average_runtime get_queue_stats get_stats list_active
  gather_ok w {stats} {d} {executed} {workers} h = ground arith

  list_jobs_db :
      (queue : String) (status : JobStatus) (text : String) (limit : ℤ) (w : World)
      → (list_jobs env queue status text limit w).1.db ≡ w.db
  unfolding list_jobs
  list_jobs_db queue status text limit w = ground arith

  count_active_lem :
      (workers : List Worker) (w : World)
      → (n : ℕ) × ((count_active env average workers w).0 ≡ ok n)
        × (n ≤ length workers)
        × ((count_active env average workers w).1.db ≡ w.db)
  unfolding count_active
  count_active_lem workers w =
      let listed = list_jobs env "" running "" (pos 1000) w in
      let (ids, done, kept) = active_worker_ids_lem (or_empty listed.0) [] listed.1 in
      (
        count_rows (is_busy ids) workers,
        rw done refl,
        count_rows-length (is_busy ids) workers,
        rw done (kept ∙ list_jobs_db "" running "" (pos 1000) w),
      )

  count_retries_lem :
      (w : World)
      → (n : ℤ) × ((count_retries env average w).0 ≡ ok n)
        × ((count_retries env average w).1.db ≡ w.db)
  unfolding count_retries
  count_retries_lem w = (
    retries_sum (pos 0) (or_empty (list_jobs env "" (unsupported "") "" (pos 1000) w).0),
    refl,
    list_jobs_db "" (unsupported "") "" (pos 1000) w,
  )

  -- what follows the pruning
  report_ok :
      (w : World) {m : QueueMetrics}
      → ((gather env average >>= λ g. count_active env average g.3 >>= λ n.
            count_retries env average >>= λ z. pure (report env average g n z))
          w).0
        ≡ ok m
      → (gathered : List Group × Duration × (ℕ × ℕ) × List Worker) × (n : ℕ) × (z : ℤ) × ((gather
            env average w).0
          ≡ ok gathered)
        × (n ≤ length gathered.3)
        × (m ≡ report env average gathered n z)
        × (((gather env average >>= λ g. count_active env average g.3 >>= λ n.
                count_retries env average >>= λ z. pure (report env average g n z))
              w).1.db
            ≡ (gather env average w).1.db)
  report_ok w {m} h =
      let (g, gathered, rest, ended) =
        >>=-ok (gather env average)
          (λ g. count_active env average g.3 >>= λ n.
            count_retries env average >>= λ z. pure (report env average g n z))
          w h in
      let w₁ = (gather env average w).1 in
      let (n, counted, bound, kept₁) = count_active_lem g.3 w₁ in
      let w₂ = (count_active env average g.3 w₁).1 in
      let (z, summed, kept₂) = count_retries_lem w₂ in
      (g, n, z, gathered, bound, ground arith, rw ended (rw counted (rw summed (kept₂ ∙ kept₁))))

  -- GetMetrics leaves the jobs alone, whether or not it returns an error.
  pub get_metrics_jobs : (w : World) → (get_metrics env average w).1.db.jobs ≡ w.db.jobs
  unfolding get_metrics
  get_metrics_jobs w =
      let v = pruned w in
      elim (>>=-cases (gather env average)
        (λ g. count_active env average g.3 >>= λ n.
          count_retries env average >>= λ z. pure (report env average g n z))
        v) [
          | inl (e, stopped_at, ended) ↦
              rw ended (ap (λ db. db.jobs) (gather_db v) ∙ (prune_stale_keeps w).0)
          | inr (g, gathered, ended) ↦
              let w₁ = (gather env average v).1 in
              let (n, counted, bound, kept₁) = count_active_lem g.3 w₁ in
              let (z, summed, kept₂) = count_retries_lem (count_active env average g.3 w₁).1 in
              rw ended (
                rw counted (
                  rw summed
                    (ap (λ db. db.jobs) (kept₂ ∙ kept₁ ∙ gather_db v) ∙ (prune_stale_keeps w).0)))
        ]

  -- If GetMetrics returns metrics, then the count of each of the five states is the number of the rows
  -- of the jobs table in it, the total of the workers is the number of those that are not stopped once
  -- the stale ones are pruned, and no more of them are active than there are. The jobs and the
  -- execution logs are as before.
  pub get_metrics-counts :
      (w : World) {m : QueueMetrics}
      → (get_metrics env average w).0 ≡ ok m
      → let after = (get_metrics env average w).1.db in
        (m.pending_count ≡ in_status pending w.db.jobs)
        × (m.running_count ≡ in_status running w.db.jobs)
        × (m.completed_count ≡ in_status completed w.db.jobs)
        × (m.failed_count ≡ in_status failed w.db.jobs)
        × (m.dlq_count ≡ in_status dead_letter w.db.jobs)
        × (m.total_workers_count
            ≡ count_rows (λ v. not (worker_status_eq v.status stopped)) after.workers)
        × (m.active_workers_count ≤ m.total_workers_count)
        × (after.jobs ≡ w.db.jobs)
        × (after.logs ≡ w.db.logs)
  unfolding get_metrics
  get_metrics-counts w {m} h =
      let v = pruned w in
      let (jobs_kept, logs_kept) = prune_stale_keeps w in
      let ((stats, d, executed, workers), n, z, gathered, bound, same, kept) = report_ok v h in
      let (stats_are, workers_are, read) = gather_ok v gathered in
      let final : (get_metrics env average w).1.db ≡ v.db = kept ∙ read in
      let each : (status : JobStatus) → total_in status stats ≡ in_status status w.db.jobs =
        λ status.
          ap (total_in status) stats_are
          ∙ total-groups status v.db.jobs
          ∙ ap (in_status status) jobs_kept in
      let total : length workers
          ≡ count_rows (λ v. not (worker_status_eq v.status stopped)) v.db.workers =
        ap length workers_are
        ∙ length-order_by started_before
            (where_rows (λ v. not (worker_status_eq v.status stopped)) v.db.workers)
        ∙ length-where_rows (λ v. not (worker_status_eq v.status stopped)) v.db.workers in
      (
        ap (λ (m : QueueMetrics). m.pending_count) same ∙ each pending,
        ap (λ (m : QueueMetrics). m.running_count) same ∙ each running,
        ap (λ (m : QueueMetrics). m.completed_count) same ∙ each completed,
        ap (λ (m : QueueMetrics). m.failed_count) same ∙ each failed,
        ap (λ (m : QueueMetrics). m.dlq_count) same ∙ each dead_letter,
        ap (λ (m : QueueMetrics). m.total_workers_count) same
            ∙ total
            ∙ sym (
                ap (λ db. count_rows (λ v. not (worker_status_eq v.status stopped)) db.workers)
                  final),
        rw same bound,
        ap (λ db. db.jobs) final ∙ jobs_kept,
        ap (λ db. db.logs) final ∙ logs_kept,
      )
