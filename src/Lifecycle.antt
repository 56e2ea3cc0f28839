-- ===== src/Lifecycle.antt =====
-- The contract of the queue: what may happen to the row of one job, whatever the operation of
-- internal/service or internal/dlq that does it.
pub mod Sound
pub mod Table
pub mod Outcomes
pub mod Fetch
pub mod Commands
pub mod Enqueue
pub mod Histories
pub mod Logs
use queue_ctl.Prelude.{String, ◌+◌, ◌<◌, ◌^◌, ◌≡◌, ◌≢◌, Option, none, some, List, ◌⊎◌}
use queue_ctl.Prelude.Int.{ℤ, pos, pos_part, ◌+ℤ◌, ◌≤ℤ◌, ◌<ℤ◌, wrap64}
use queue_ctl.Domain.Job.{Job, Time, pending, running, completed, dead_letter}
use queue_ctl.Repository.Jobs.Save.{row_in}

-- The row of a job one failure later.
abbrev pub failed_once : String → Time → Job → Job
failed_once text t row = record row {
  retries_count = wrap64 (row.retries_count +ℤ pos 1);
  error_message = text;
  updated_at = t;
}

-- The edges of the state machine of one job.
pub data Move : Job → Job → Type 0 where
  starts :
      (row : Job) (t : Time)
      → row.status ≡ pending
      → Move row (record row { status = running; updated_at = t })
  completes :
      (row : Job) (t : Time)
      → row.status ≡ running
      → Move row (record row { status = completed; error_message = ""; updated_at = t })
  retries :
      (row : Job) (text : String) (run t : Time)
      → row.status ≡ running
      → wrap64 (row.retries_count +ℤ pos 1) ≤ℤ row.max_retries
      → Move row (record (failed_once text t row) { status = pending; run_at = run })
  dies :
      (row : Job) (text : String) (t : Time)
      → row.status ≡ running
      → row.max_retries <ℤ wrap64 (row.retries_count +ℤ pos 1)
      → Move row (record (failed_once text t row) { status = dead_letter })
  revives :
      (row : Job) (run t : Time)
      → row.status ≡ dead_letter
      → Move row (record row {
        status = pending;
        retries_count = pos 0;
        error_message = "";
        run_at = run;
        updated_at = t;
      })

-- A row as Enqueue writes it, with the bound on max_retries that keeps the count from wrapping.
pub record IsNew (row : Job) : Type 0 where
  pub has_id : row.id ≢ ""
  pub has_type : row.job_type ≢ ""
  pub has_queue : row.queue ≢ ""
  pub is_pending : row.status ≡ pending
  pub not_tried : row.retries_count ≡ pos 0
  pub max_known : pos 0 ≤ℤ row.max_retries
  pub max_bounded : pos_part row.max_retries + 1 < 2 ^ 63

-- What one operation may do to one row.
pub data Change : Option Job → Option Job → Type 0 where
  keeps : (o : Option Job) → Change o o
  adds : (row : Job) → IsNew row → Change none (some row)
  moves : (row row' : Job) → Move row row' → Change (some row) (some row')
  removes :
      (row : Job) → (row.status ≡ completed) ⊎ (row.status ≡ dead_letter) → Change (some row) none

-- What one operation may do to the table.
pub record Step (before after : List Job) : Type 0 where
  pub at : (id : String) → Change (row_in id before) (row_in id after)

-- Any number of operations.
pub data Run : List Job → List Job → Type 0 where
  stop : (rows : List Job) → Run rows rows
  next : (rows₀ rows₁ rows₂ : List Job) → Step rows₀ rows₁ → Run rows₁ rows₂ → Run rows₀ rows₂
