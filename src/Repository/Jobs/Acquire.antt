-- ===== src/Repository/Jobs/Acquire.antt =====
-- Which job AcquireNextPendingJob takes.
use mathlib.Core.List.{Mem}
use mathlib.Core.Path.{fun_ext}
use queue_ctl.Prelude.Int.{ltb_ℤ}
use queue_ctl.Prelude.{
  String, ◌≤◌, ◌≡◌, refl, count_rows, find_row, true, false, none, some, List, [], ◌∷◌, arith, All,
  update_rows, where_rows, order_by, first_row, inl, inr, Option-cases,
}
use queue_ctl.Prelude.Lists.Order.{
  IsRanking, lexicographic, lexicographic-IsRanking, key-IsRanking, key_desc-IsRanking,
  All-where_rows, All-of_where_rows, All-Mem, All-zip, All-order_by, All-first_row, order_by-first,
  order_by_nil, All-map,
}
use queue_ctl.Prelude.Lists.Keys.{OnlyOne, All-found}
use queue_ctl.Domain.Errors.{ok}
use queue_ctl.Domain.Job.{Job, Time}
use queue_ctl.Store.{Env, World}
use queue_ctl.Repository.Jobs.{has_id, is_eligible, acquired_before, set_running, acquire_in_tx}

acquired_before-lexicographic :
    acquired_before
    ≡ lexicographic
        (λ a b. ltb_ℤ b.priority a.priority)
        (lexicographic (λ a b. ltb_ℤ a.run_at b.run_at) (λ a b. ltb_ℤ a.created_at b.created_at))
unfolding acquired_before
acquired_before-lexicographic = fun_ext λ a. fun_ext λ b. ground arith

pub acquired_before-IsRanking : IsRanking acquired_before
acquired_before-IsRanking = rw acquired_before-lexicographic (
    lexicographic-IsRanking (key_desc-IsRanking (λ j. j.priority))
      (lexicographic-IsRanking (key-IsRanking (λ j. j.run_at)) (key-IsRanking (λ j. j.created_at))))

-- A row of the table that may be taken at a time, and that no other such row comes before.
pub record IsBest (queue : String) (t : Time) (rows : List Job) (row : Job) : Type 0 where
  pub member : Mem row rows
  pub found : count_rows (has_id row.id) rows ≤ 1 → find_row (has_id row.id) rows ≡ some row
  pub eligible : is_eligible queue t row ≡ true
  pub first :
      All (λ other. is_eligible queue t other ≡ true → acquired_before other row ≡ false) rows

-- The row that the SELECT returns is a best one; where it returns none there is none to take.
selected_IsBest :
    (queue : String) (t : Time) (rows : List Job) (row : Job)
    → first_row (order_by acquired_before (where_rows (is_eligible queue t) rows)) ≡ some row
    → IsBest queue t rows row
selected_IsBest queue t rows row e =
    let p = is_eligible queue t in
    let found =
      All-first_row (λ j. (p j ≡ true) × (Mem j rows × OnlyOne (λ (j : Job). j.id) rows j))
        (order_by acquired_before (where_rows p rows)) e
        (All-order_by acquired_before
          (λ j. (p j ≡ true) × (Mem j rows × OnlyOne (λ (j : Job). j.id) rows j))
          (where_rows p rows)
          (All-where_rows (λ j. Mem j rows × OnlyOne (λ (j : Job). j.id) rows j) p rows
            (All-zip (λ j. Mem j rows) (OnlyOne (λ (j : Job). j.id) rows) rows (All-Mem rows)
              (All-found (λ (j : Job). j.id) rows)))) in
    record {
      member = found.1.0;
      found = found.1.1;
      eligible = found.0;
      first =
          All-of_where_rows (λ j. acquired_before j row ≡ false) p rows
            (order_by-first acquired_before acquired_before-IsRanking (where_rows p rows) row e);
    }

first_row-none : (rows : List Job) → first_row rows ≡ none → rows ≡ []
first_row-none [] e = refl
first_row-none (x ∷ xs) e = cc

pub selected_none :
    (queue : String) (t : Time) (rows : List Job)
    → first_row (order_by acquired_before (where_rows (is_eligible queue t) rows)) ≡ none
    → All (λ j. is_eligible queue t j ≡ false) rows
selected_none queue t rows e =
    let p = is_eligible queue t in
    All-map rows (λ j h. ground arith)
      (All-of_where_rows (λ j. ⊥) p rows
        (rw (order_by_nil acquired_before (where_rows p rows) (first_row-none _ e)) tt))

module _ (env : Env) (queue : String) (w : World) where
  pub acquired_row :
      {j : Job}
      → (acquire_in_tx env queue w).0 ≡ ok (some j)
      → (row : Job) × IsBest queue (env.clock w.reads) w.db.jobs row
        × (j ≡ set_running (env.clock w.reads) row)
        × ((acquire_in_tx env queue w).1.db ≡ record w.db {
          jobs = update_rows (has_id row.id) (set_running (env.clock w.reads)) w.db.jobs;
        })
  unfolding acquire_in_tx
  acquired_row {j} h =
      elim (Option-cases (
        first_row (
          order_by acquired_before
            (where_rows (is_eligible queue (env.clock w.reads)) w.db.jobs)))) [
              | inl e ↦ absurd (ground arith)
              | inr (row, e) ↦ (
                row,
                selected_IsBest queue (env.clock w.reads) w.db.jobs row e,
                ground arith,
                ground arith,
              )
            ]
