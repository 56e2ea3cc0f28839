-- ===== src/Cli/Dead/Rows.antt =====
-- The dead rows of the jobs table, as the listing of internal/dlq/dlq.go selects them, and as a deletion
-- of internal/repository/sqlite leaves them.
use queue_ctl.Prelude.{
  ℕ, suc, ◌≤◌, ◌≡◌, ◌≢◌, refl, ◌∙◌, String, Bool, true, not, ◌&&◌, some, List, [], ◌∷◌, arith,
  eq_iff, eq_refl, length, count_rows, where_rows, find_row, order_by, Bool-cases, inl, inr,
}
use queue_ctl.Prelude.Lists.Measure.{length-order_by, length-where_rows}
use queue_ctl.Domain.Job.{Job, dead_letter, status_eq}
use queue_ctl.Repository.Jobs.{has_id, is_listed, listed_before}
use queue_ctl.Repository.Jobs.Save.{row_in}

abbrev pub is_dead : Job → Bool
is_dead j = status_eq j.status dead_letter

-- The dead rows of one identifier.
abbrev pub dead_at : String → List Job → ℕ
dead_at id = count_rows (λ j. has_id id j && is_dead j)

-- The table without the rows of one identifier.
abbrev pub without : String → List Job → List Job
without id = where_rows (λ j. not (has_id id j))

pub dead_at-count : (id : String) (rows : List Job) → dead_at id rows ≤ count_rows (has_id id) rows
unfolding count_rows
dead_at-count id [] = omega arith
dead_at-count id (x ∷ xs) = ground (arith, dead_at-count id xs)

pub find_dead :
    (id : String) (rows : List Job) (n : ℕ)
    → dead_at id rows ≡ suc n
    → count_rows (has_id id) rows ≤ 1
    → (row : Job) × (row_in id rows ≡ some row) × (is_dead row ≡ true)
unfolding count_rows find_row
find_dead id [] n h u = absurd (ground arith)
find_dead id (x ∷ xs) n h u = elim (Bool-cases (has_id id x)) [
  | inl e ↦ (x, rw e refl, ground (arith, dead_at-count id xs))
  | inr e ↦
      let (row, found, dead) = find_dead id xs n (ground arith) (ground arith) in
      (row, rw e found, dead)
]

pub dead_at-without_self : (id : String) (rows : List Job) → dead_at id (without id rows) ≡ 0
unfolding count_rows where_rows
dead_at-without_self id [] = refl
dead_at-without_self id (x ∷ xs) = ground (arith, dead_at-without_self id xs)

pub dead_at-without :
    (id other : String) (rows : List Job)
    → other ≢ id
    → dead_at other (without id rows) ≡ dead_at other rows
unfolding count_rows where_rows
dead_at-without id other [] ne = refl
dead_at-without id other (x ∷ xs) ne =
    ground (arith, dead_at-without id other xs ne, eq_iff x.id id, eq_iff x.id other)

-- Rows that are kept are kept whether or not a dead job is deleted first.
pub alive-without :
    (id : String) (rows : List Job)
    → dead_at id rows ≡ count_rows (has_id id) rows
    → where_rows (λ j. not (is_dead j)) (without id rows) ≡ where_rows (λ j. not (is_dead j)) rows
unfolding count_rows where_rows
alive-without id [] h = refl
alive-without id (x ∷ xs) h = ground (arith, alive-without id xs, dead_at-count id xs)

pub all_alive :
    (rows : List Job)
    → ((id : String) → dead_at id rows ≡ 0)
    → where_rows (λ j. not (is_dead j)) rows ≡ rows
unfolding count_rows where_rows
all_alive [] h = refl
all_alive (x ∷ xs) h =
    ground (arith, h x.id, eq_refl x.id, all_alive xs (λ id. (let k = h id in ground arith)))

-- The rows that DLQSvc.List selects.
abbrev pub dead_rows : List Job → List Job
dead_rows rows = order_by listed_before (where_rows (is_listed "" dead_letter "") rows)

pub is_listed-is_dead : (j : Job) → is_listed "" dead_letter "" j ≡ is_dead j
unfolding is_listed status_eq
is_listed-is_dead j = ground arith

pub selected_at :
    (id : String) (rows : List Job)
    → dead_at id rows ≡ count_rows (has_id id) (where_rows (is_listed "" dead_letter "") rows)
unfolding count_rows where_rows
selected_at id [] = refl
selected_at id (x ∷ xs) = ground (arith, is_listed-is_dead x, selected_at id xs)

pub selected_all :
    (rows : List Job) → count_rows (is_listed "" dead_letter "") rows ≡ count_rows is_dead rows
unfolding count_rows
selected_all [] = refl
selected_all (x ∷ xs) = ground (arith, is_listed-is_dead x, selected_all xs)

pub length-dead_rows : (rows : List Job) → length (dead_rows rows) ≡ count_rows is_dead rows
length-dead_rows rows =
    length-order_by listed_before (where_rows (is_listed "" dead_letter "") rows)
    ∙ length-where_rows (is_listed "" dead_letter "") rows
    ∙ selected_all rows
