-- ===== src/Repository/Jobs/Update.antt =====
-- Optimistic concurrency: Update against a row that somebody else has changed.
use queue_ctl.Prelude.{◌+◌, ◌<◌, ◌≡◌, ◌≢◌, refl, none, List, arith, eq_iff, count_rows, update_rows}
use queue_ctl.Prelude.Int.{eqb_ℤ_iff}
use queue_ctl.Prelude.Lists.Rows.{
  update_rows_none, count_rows-update_rows, count_rows-update_rows_gone, count_rows_sub,
}
use queue_ctl.Domain.Errors.{err, ok, concurrency_conflict}
use queue_ctl.Domain.Job.{Job, Time}
use queue_ctl.Store.{Env, World}
use queue_ctl.Repository.Jobs.{has_id, same_version, updated_row, update}

-- Once the row has another version, nobody else's version fits a row of this job.
version_gone :
    (mine theirs : Job) (t : Time) (rows : List Job)
    → mine.id ≡ theirs.id
    → mine.updated_at ≡ theirs.updated_at
    → t ≢ mine.updated_at
    → count_rows (same_version theirs) (update_rows (same_version mine) (updated_row mine t) rows)
      ≡ 0
version_gone mine theirs t rows i v h =
    count_rows-update_rows_gone (same_version mine) (same_version theirs) (updated_row mine t) rows
      (λ x p. ground (arith, eqb_ℤ_iff t theirs.updated_at))
      (λ x p. ground (arith, eq_iff x.id mine.id, eq_iff x.id theirs.id))

still_there :
    (mine theirs : Job) (t : Time) (rows : List Job)
    → mine.id ≡ theirs.id
    → 0 < count_rows (same_version mine) rows
    → 0 < count_rows (has_id theirs.id) (update_rows (same_version mine) (updated_row mine t) rows)
still_there mine theirs t rows i h = omega (
  arith,
  count_rows-update_rows (same_version mine) (has_id theirs.id) (updated_row mine t) rows
      (λ x. refl),
  count_rows_sub (same_version mine) (has_id theirs.id) rows
      (λ x p. ground (arith, eq_iff x.id mine.id, eq_iff x.id theirs.id)),
)

-- The table after an Update that found its row.
abbrev pub jobs_after : Env → Job → World → List Job
jobs_after env job w =
    update_rows (same_version job) (updated_row job (env.clock w.reads)) w.db.jobs

module _ (env : Env) (job : Job) (w : World) where
  pub update_ok :
      {saved : Job}
      → (update env job w).0 ≡ ok saved
      → (saved ≡ record job { updated_at = env.clock w.reads })
        × (0 < count_rows (same_version job) w.db.jobs)
        × ((update env job w).1 ≡ record w {
          db = record w.db { jobs = jobs_after env job w };
          reads = w.reads + 1;
          calls = w.calls + 1 + 1;
        })
  unfolding update
  update_ok h = ground arith

  pub update_stale :
      count_rows (same_version job) w.db.jobs ≡ 0
      → ((update env job w).1.db ≡ w.db)
        × ((j : Job) → (update env job w).0 ≢ ok j)
        × (env.fault w.calls ≡ none
            → env.fault (w.calls + 1) ≡ none
            → env.fault (w.calls + 1 + 1) ≡ none
            → 0 < count_rows (has_id job.id) w.db.jobs
            → (update env job w).0 ≡ err concurrency_conflict)
  unfolding update
  update_stale h =
      let same =
        update_rows_none (same_version job) (updated_row job (env.clock w.reads)) w.db.jobs h in
      (ground arith, (λ j. ground arith), (λ f g k c. ground arith))

module _ (env : Env) (mine theirs : Job) (w : World) where
  -- Two holders of one version of a job: if the first one's Update returns no error, and the clock
  -- did not show the old time stamp again, then the second one's Update returns an error and
  -- changes no row. The error is the conflict if the driver reports no fault.
  pub update_conflict :
      {saved : Job}
      → mine.id ≡ theirs.id
      → mine.updated_at ≡ theirs.updated_at
      → env.clock w.reads ≢ mine.updated_at
      → (update env mine w).0 ≡ ok saved
      → let w' = (update env mine w).1 in
        ((update env theirs w').1.db ≡ w'.db)
        × ((j : Job) → (update env theirs w').0 ≢ ok j)
        × (env.fault w'.calls ≡ none
            → env.fault (w'.calls + 1) ≡ none
            → env.fault (w'.calls + 1 + 1) ≡ none
            → (update env theirs w').0 ≡ err concurrency_conflict)
  update_conflict i v h first =
      let done = update_ok env mine w first in
      rw done.2 (
        let stale =
          update_stale env theirs
            (record w {
              db = record w.db { jobs = jobs_after env mine w };
              reads = w.reads + 1;
              calls = w.calls + 1 + 1;
            })
            (version_gone mine theirs (env.clock w.reads) w.db.jobs i v h) in
        (
          stale.0,
          stale.1,
          λ f g k. stale.2 f g k (still_there mine theirs (env.clock w.reads) w.db.jobs i done.1),
        ))
