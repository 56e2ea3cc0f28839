-- ===== src/Repository/Jobs/Save.antt =====
-- An Update followed by actions that touch no job.
use queue_ctl.Prelude.{String, Option, ◌≡◌, ◌≢◌, ap, ◌∙◌, some, List, find_row}
use queue_ctl.Domain.Errors.{ok}
use queue_ctl.Domain.Job.{Job}
use queue_ctl.Store.{Env, World, Exec, wrapping, ◌>>=◌}
use queue_ctl.Store.Keeps.{Keeps}
use queue_ctl.Store.Bind.{>>=-ok, wrapping-ok}
use queue_ctl.Repository.Jobs.{has_id, update, updated_row}
use queue_ctl.Repository.Jobs.Lookup.{row_of, update_found, update_others}

abbrev pub jobs_of : World → List Job
jobs_of w = w.db.jobs

abbrev pub row_in : String → List Job → Option Job
row_in id rows = find_row (has_id id) rows

-- What one write to the row of a job makes of the table.
pub record Written (id : String) (row' : Job) (before after : List Job) : Type 0 where
  pub written : row_in id after ≡ some row'
  pub others : (other : String) → other ≢ id → row_in other after ≡ row_in other before

pub Written-keeps :
    (id : String) (row' : Job) {before middle after : List Job}
    → Written id row' before middle
    → after ≡ middle
    → Written id row' before after
Written-keeps id row' s k = record {
  written = ap (row_in id) k ∙ s.written;
  others = λ other ne. ap (row_in other) k ∙ s.others other ne;
}

module _ (env : Env) where
  pub update-Written :
      (job row : Job) (w : World) {saved : Job}
      → (update env job w).0 ≡ ok saved
      → row_of job.id w ≡ some row
      → row.updated_at ≡ job.updated_at
      → Written job.id
          (updated_row job (env.clock w.reads) row)
          w.db.jobs
          (update env job w).1.db.jobs
  update-Written job row w h found version = record {
    written = update_found env job w h found version;
    others = update_others env job w;
  }

  pub save-Written :
      (text : String) (job row : Job) (k : Job → Exec Job) (w : World) {saved : Job}
      → ((j : Job) → Keeps jobs_of (k j))
      → ((wrapping text (update env job) >>= k) w).0 ≡ ok saved
      → row_of job.id w ≡ some row
      → row.updated_at ≡ job.updated_at
      → Written job.id
          (updated_row job (env.clock w.reads) row)
          w.db.jobs
          ((wrapping text (update env job) >>= k) w).1.db.jobs
  save-Written text job row k w keeps h found version =
      let (saved, updated, rest, ended) = >>=-ok (wrapping text (update env job)) k w h in
      Written-keeps job.id (updated_row job (env.clock w.reads) row)
        (update-Written job row w (wrapping-ok text (update env job) w updated) found version)
        (ap jobs_of ended ∙ (keeps saved).at (update env job w).1)
