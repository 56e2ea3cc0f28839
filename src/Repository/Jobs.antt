-- ===== src/Repository/Jobs.antt =====
-- internal/repository/sqlite/sqlite_job_repository.go. A statement is one call of the driver, which
-- may report a fault and then changes nothing; RowsAffected is another. getExecutor chooses the
-- connection, which is the same state here.
pub mod Update
pub mod Lookup
pub mod Save
pub mod Acquire
pub mod Listing
use queue_ctl.Prelude.{
  ℕ, String, Bool, not, ◌&&◌, ◌||◌, Option, none, some, List, [], ◌∷◌, ◌++◌, ◌==◌, eqb,
  if◌then◌else◌, take, where_rows, update_rows, count_rows, find_row, order_by, first_row,
}
use queue_ctl.Prelude.Int.{ℤ, pos, pos_part, leb_ℤ, ltb_ℤ, eqb_ℤ, ◌-ℤ◌}
use queue_ctl.Prelude.Text.{◌^^◌, like}
use queue_ctl.Domain.Errors.{Result, ok, err, msg, driver, concurrency_conflict}
use queue_ctl.Domain.Job.{
  Job, JobStatus, Time, Duration, pending, running, completed, unsupported, status_eq,
}
use queue_ctl.Store.{
  Env, Db, World, Exec, pure, raise, gets, modify_db, wrapping, now, driver_call, ◌>>=◌, ◌>>◌,
}
use queue_ctl.Store.Tx.{Ctx, tx_error, with_tx}

abbrev pub has_id : String → Job → Bool
has_id id j = j.id == id

-- WHERE id = ? AND updated_at = ?
abbrev pub same_version : Job → Job → Bool
same_version job row = has_id job.id row && eqb_ℤ row.updated_at job.updated_at

-- SET status = ?, retries_count = ?, error_message = ?, run_at = ?, updated_at = ?
abbrev pub updated_row : Job → Time → Job → Job
updated_row job t row = record row {
  status = job.status;
  retries_count = job.retries_count;
  error_message = job.error_message;
  run_at = job.run_at;
  updated_at = t;
}

-- WHERE queue = ? AND status = ? AND run_at <= ?
abbrev pub is_eligible : String → Time → Job → Bool
is_eligible queue t j = j.queue == queue && status_eq j.status pending && leb_ℤ j.run_at t

-- ORDER BY priority DESC, run_at ASC, created_at ASC
unfoldable pub acquired_before : Job → Job → Bool
acquired_before a b =
    ltb_ℤ b.priority a.priority
    || eqb_ℤ a.priority b.priority
      && (ltb_ℤ a.run_at b.run_at || eqb_ℤ a.run_at b.run_at && ltb_ℤ a.created_at b.created_at)

-- ORDER BY priority DESC, created_at DESC
unfoldable pub listed_before : Job → Job → Bool
listed_before a b =
    ltb_ℤ b.priority a.priority || eqb_ℤ a.priority b.priority && ltb_ℤ b.created_at a.created_at

abbrev pub set_running : Time → Job → Job
set_running t row = record row { status = running; updated_at = t }

-- The conditions that ListJobs adds to its WHERE clause, each if its argument is not empty.
unfoldable pub is_listed : String → JobStatus → String → Job → Bool
unfolding status_eq
is_listed queue status search j =
    (queue == "" || j.queue == queue)
    && (status_eq status (unsupported "") || status_eq j.status status)
    && (search == ""
        || like j.payload pattern
        || like j.error_message pattern
        || like j.job_type pattern)
  where
    pattern : String
    pattern = "%" ^^ search ^^ "%"

abbrev limited : ℤ → List Job → List Job
limited limit rows = if ltb_ℤ (pos 0) limit then take (pos_part limit) rows else rows

-- WHERE status = ? AND updated_at < ?, where the cutoff has not been converted to UTC
abbrev pub is_purged : Env → Time → Job → Bool
is_purged env cutoff j = status_eq j.status completed && env.before_local j.updated_at cutoff

abbrev set_jobs : (List Job → List Job) → Db → Db
set_jobs f db = record db { jobs = f db.jobs }

-- GROUP BY queue, status: the count of one group
unfoldable pub group_count : String → JobStatus → List Job → ℕ
unfolding status_eq
group_count queue status = count_rows (λ j. j.queue == queue && status_eq j.status status)

module _ (env : Env) where
  -- The primary key refuses a second row of one id.
  abbrev append_new : Job → List Job → Exec (Unit {0})
  append_new job rows =
      if eqb (count_rows (has_id job.id) rows) 0
      then modify_db (set_jobs (λ rows. rows ++ job ∷ []))
      else raise (driver "UNIQUE constraint failed: jobs.id")

  -- Insert
  unfoldable pub insert : Job → Exec (Unit {0})
  unfolding driver_call
  insert job =
      wrapping ("failed to insert job " ^^ job.id)
        do driver_call env; rows ← gets (λ w. w.db.jobs); append_new job rows

  abbrev found_or_missing : String → Option Job → Exec Job
  found_or_missing id none = raise (msg ("job not found: " ^^ id))
  found_or_missing id (some job) = pure job

  -- GetByID
  unfoldable pub get_by_id : String → Exec Job
  unfolding driver_call
  get_by_id id = do
    wrapping ("failed to scan job " ^^ id) (driver_call env)
    row ← gets (λ w. find_row (has_id id) w.db.jobs)
    found_or_missing id row

  -- `SELECT COUNT(*) FROM jobs WHERE id = ?` tells a conflict from a missing row
  abbrev conflict_or_missing : Job → Result (Unit {0}) → World → Result Job × World
  conflict_or_missing job (ok _) w =
      if eqb (count_rows (has_id job.id) w.db.jobs) 0
      then (err (msg ("job to update not found: " ^^ job.id)), w)
      else (err concurrency_conflict, w)
  conflict_or_missing job (err _) w = (err (msg ("job to update not found: " ^^ job.id)), w)

  -- Update; the job that it returns is the one that its pointer names
  unfoldable pub update : Job → Exec Job
  unfolding driver_call now
  update job = do
    t ← now env
    wrapping ("failed to update job " ^^ job.id) (driver_call env)
    rows ← gets (λ w. count_rows (same_version job) w.db.jobs)
    modify_db (set_jobs (update_rows (same_version job) (updated_row job t)))
    wrapping ("failed to check rows affected for update job " ^^ job.id) (driver_call env)
    if eqb rows 0
        then (λ w. conflict_or_missing job (driver_call env w).0 (driver_call env w).1)
        else pure (record job { updated_at = t })

  -- `sql.ErrNoRows` is no error here
  abbrev mark_running : Time → Option Job → Exec (Option Job)
  mark_running t none = pure none
  mark_running t (some job) = do
    wrapping "failed to mark job as running" (driver_call env)
    modify_db (set_jobs (update_rows (has_id job.id) (set_running t)))
    pure (some (set_running t job))

  -- the function that AcquireNextPendingJob runs in its transaction
  unfoldable pub acquire_in_tx : String → Exec (Option Job)
  unfolding driver_call now status_eq
  acquire_in_tx queue = do
    t ← now env
    wrapping "failed to fetch pending job" (driver_call env)
    row ←
        gets
          (λ w. first_row (order_by acquired_before (where_rows (is_eligible queue t) w.db.jobs)))
    mark_running t row

  -- AcquireNextPendingJob
  unfoldable pub acquire_next_pending_job : Ctx → String → Exec (Option Job)
  acquire_next_pending_job ctx queue =
      wrapping "failed to acquire next pending job"
        (λ w. let (r, w') = with_tx env ctx (λ tx_ctx. acquire_in_tx queue) w in (tx_error r, w'))

  -- ListJobs
  unfoldable pub list_jobs : String → JobStatus → String → ℤ → Exec (List Job)
  unfolding driver_call
  list_jobs queue status search limit = do
    wrapping "failed to query jobs" (driver_call env)
    gets (λ w.
        limited limit
          (order_by listed_before (where_rows (is_listed queue status search) w.db.jobs)))

  -- DeleteCompletedJobs
  unfoldable pub delete_completed_jobs : Duration → Exec ℕ
  unfolding driver_call now status_eq ◌-ℤ◌
  delete_completed_jobs older_than = do
    t ← now env
    let cutoff = t -ℤ older_than
    wrapping "failed to delete completed jobs" (driver_call env)
    rows ← gets (λ w. count_rows (is_purged env cutoff) w.db.jobs)
    modify_db (set_jobs (where_rows (λ j. not (is_purged env cutoff j))))
    wrapping "failed to check rows affected for completed jobs deletion" (driver_call env)
    pure rows

  -- Delete
  unfoldable pub delete : String → Exec (Unit {0})
  unfolding driver_call
  delete id = do
    wrapping ("failed to delete job " ^^ id) (driver_call env)
    rows ← gets (λ w. count_rows (has_id id) w.db.jobs)
    modify_db (set_jobs (where_rows (λ j. not (has_id id j))))
    wrapping ("failed to check rows affected for delete job " ^^ id) (driver_call env)
    if eqb rows 0 then raise (msg ("job to delete not found: " ^^ id)) else pure tt
