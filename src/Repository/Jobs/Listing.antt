-- ===== src/Repository/Jobs/Listing.antt =====
-- What ListJobs selects, and its order.
use mathlib.Core.List.{Perm}
use mathlib.Core.Path.{fun_ext}
use queue_ctl.Prelude.{String, ◌≡◌, List, arith, where_rows, order_by, subst}
use queue_ctl.Prelude.Int.{ℤ, pos, ◌≤ℤ◌, ltb_ℤ}
use queue_ctl.Prelude.Lists.Order.{
  IsRanking, IsSorted, lexicographic, lexicographic-IsRanking, key_desc-IsRanking, order_by-perm,
  order_by-IsSorted,
}
use queue_ctl.Domain.Errors.{ok}
use queue_ctl.Domain.Job.{Job, JobStatus}
use queue_ctl.Store.{Env, World}
use queue_ctl.Repository.Jobs.{listed_before, is_listed, list_jobs}

listed_before-lexicographic :
    listed_before
    ≡ lexicographic (λ a b. ltb_ℤ b.priority a.priority) (λ a b. ltb_ℤ b.created_at a.created_at)
unfolding listed_before
listed_before-lexicographic = fun_ext λ a. fun_ext λ b. ground arith

listed_before-IsRanking : IsRanking listed_before
listed_before-IsRanking = rw listed_before-lexicographic (
    lexicographic-IsRanking (key_desc-IsRanking (λ j. j.priority))
      (key_desc-IsRanking (λ j. j.created_at)))

-- If ListJobs returns a list and its limit is not positive, then the list has exactly the rows that
-- pass its conditions, each once for each row, the highest priority first and among equal ones the
-- newest first; the state of the tables is as before.
pub list_jobs-IsSorted :
    (env : Env) (queue : String) (status : JobStatus) (text : String) (limit : ℤ) (w : World)
    {rows : List Job}
    → limit ≤ℤ pos 0
    → (list_jobs env queue status text limit w).0 ≡ ok rows
    → Perm rows (where_rows (is_listed queue status text) w.db.jobs)
      × IsSorted listed_before rows
      × ((list_jobs env queue status text limit w).1.db ≡ w.db)
unfolding list_jobs
list_jobs-IsSorted env queue status text limit w {rows} l h =
    let selected = where_rows (is_listed queue status text) w.db.jobs in
    let same : order_by listed_before selected ≡ rows = ground arith in
    (
      subst (λ r. Perm r selected) same (order_by-perm listed_before selected),
      subst (λ r. IsSorted listed_before r) same
          (order_by-IsSorted listed_before listed_before-IsRanking selected),
      ground arith,
    )
