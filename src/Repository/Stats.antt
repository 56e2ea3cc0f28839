-- ===== src/Repository/Stats.antt =====
-- GetQueueStats of internal/repository/sqlite/sqlite_job_repository.go, and what internal/service and
-- internal/dlq make of it. A map is the list of its entries.
pub mod Counts
use queue_ctl.Prelude.{
  ℕ, suc, ◌+◌, String, Bool, true, false, ◌&&◌, Option, none, some, List, [], ◌∷◌, ◌==◌, where_rows,
  ltb, if◌then◌else◌,
}
use queue_ctl.Domain.Job.{Job, JobStatus, dead_letter, status_eq}
use queue_ctl.Store.{Env, Exec, gets, wrapping, driver_call, ◌>>=◌, ◌>>◌}

-- One row of `SELECT queue, status, COUNT(*)`.
pub record Group : Type 0 where
  pub queue : String
  pub status : JobStatus
  pub count : ℕ

abbrev pub is_group : String → JobStatus → Group → Bool
is_group queue status g = g.queue == queue && status_eq g.status status

-- One more row of a group, which is new if it has none yet.
unfoldable pub count_in : String → JobStatus → List Group → List Group
unfolding status_eq
count_in queue status [] = record { queue = queue; status = status; count = 1 } ∷ []
count_in queue status (g ∷ gs) =
    let rest = count_in queue status gs in
    if is_group queue status g then record g { count = suc g.count } ∷ gs else g ∷ rest

-- GROUP BY queue, status
unfoldable pub groups : List Job → List Group
unfolding count_in
groups [] = []
groups (j ∷ js) = count_in j.queue j.status (groups js)

-- stats[queue][status], where 0 is the value of a missing key
unfoldable pub stat : String → JobStatus → List Group → ℕ
unfolding status_eq
stat queue status [] = 0
stat queue status (g ∷ gs) =
    let rest = stat queue status gs in if is_group queue status g then g.count else rest

module _ (env : Env) where
  -- GetQueueStats
  unfoldable pub get_queue_stats : Exec (List Group)
  unfolding driver_call groups
  get_queue_stats = do
    wrapping "failed to query queue stats" (driver_call env)
    gets (λ w. groups w.db.jobs)

  -- GetStats of the job service
  unfoldable pub get_job_stats : Exec (List Group)
  get_job_stats = wrapping "failed to get queue stats" get_queue_stats

  -- GetStats of the dead letter queue: the groups of dead jobs. A group that GROUP BY returns is
  -- never empty, so that the test of `count > 0` keeps each.
  unfoldable pub get_dead_stats : Exec (List Group)
  unfolding status_eq
  get_dead_stats = do
    stats ← wrapping "failed to get queue stats for DLQ" get_queue_stats
    (λ w. gets (λ _. where_rows (λ g. status_eq g.status dead_letter && ltb 0 g.count) stats) w)
