-- ===== src/Repository/Jobs/Lookup.antt =====
-- What GetByID finds, and what it finds after an Update.
use mathlib.Core.Option
use queue_ctl.Prelude.{
  String, ◌+◌, ◌≡◌, ◌≢◌, refl, ◌∙◌, ◌⊎◌, inl, inr, true, Option, none, some, List, arith, eq_iff,
  if◌then◌else◌, find_row,
}
use queue_ctl.Prelude.Int.{eqb_ℤ_iff}
use queue_ctl.Prelude.Lists.Rows.{find_row-update_rows, find_row_passes}
use queue_ctl.Domain.Errors.{ok}
use queue_ctl.Domain.Job.{Job}
use queue_ctl.Store.{Env, World}
use queue_ctl.Repository.Jobs.{has_id, same_version, updated_row, get_by_id, update}
use queue_ctl.Repository.Jobs.Update.{update_ok, jobs_after}

-- The row of an identifier.
abbrev pub row_of : String → World → Option Job
row_of id w = find_row (has_id id) w.db.jobs

pub row_of-id :
    (id : String) (rows : List Job) {row : Job} → find_row (has_id id) rows ≡ some row → row.id ≡ id
row_of-id id rows {row} h = ground (arith, find_row_passes (has_id id) rows h, eq_iff row.id id)

module _ (env : Env) where
  pub get_by_id_ok :
      (id : String) (w : World) {job : Job}
      → (get_by_id env id w).0 ≡ ok job
      → (row_of id w ≡ some job)
        × (job.id ≡ id)
        × ((get_by_id env id w).1 ≡ record w { calls = w.calls + 1 })
  unfolding get_by_id
  get_by_id_ok id w {job} h =
      let found : row_of id w ≡ some job = ground arith in
      (found, row_of-id id w.db.jobs found, ground arith)

  -- The row that an Update without an error has written, as it is found afterwards.
  pub update_found :
      (job : Job) (w : World) {saved row : Job}
      → (update env job w).0 ≡ ok saved
      → row_of job.id w ≡ some row
      → row.updated_at ≡ job.updated_at
      → row_of job.id (update env job w).1 ≡ some (updated_row job (env.clock w.reads) row)
  update_found job w {row = row} h found version =
      let (saved, passed, ended) = update_ok env job w h in
      let hit : same_version job row ≡ true = ground (
        arith,
        eqb_ℤ_iff row.updated_at job.updated_at,
        eq_iff row.id job.id,
        row_of-id job.id w.db.jobs found,
      ) in
      rw ended (
        find_row-update_rows (same_version job) (has_id job.id)
          (updated_row job (env.clock w.reads)) w.db.jobs (λ x. refl)
        ∙ rw (found, hit))

  pub update_jobs :
      (job : Job) (w : World)
      → ((update env job w).1.db.jobs ≡ w.db.jobs)
        ⊎ ((update env job w).1.db.jobs ≡ jobs_after env job w)
  unfolding update
  update_jobs job w = ground arith

  -- An Update leaves the rows of other identifiers alone.
  pub update_others :
      (job : Job) (w : World) (id : String)
      → id ≢ job.id
      → row_of id (update env job w).1 ≡ row_of id w
  update_others job w id other = elim (update_jobs job w) [
    | inl same ↦ rw same
    | inr changed ↦ rw changed (
        find_row-update_rows (same_version job) (has_id id) (updated_row job (env.clock w.reads))
          w.db.jobs (λ x. refl)
        ∙ go (row_of id w) refl)
  ]
    where
      go :
          (o : Option Job)
          → row_of id w ≡ o
          → Option.map
              (λ x. if same_version job x then updated_row job (env.clock w.reads) x else x)
              o
            ≡ o
      go none q = refl
      go (some row) q = ground (arith, row_of-id id w.db.jobs q, eq_iff row.id job.id)
