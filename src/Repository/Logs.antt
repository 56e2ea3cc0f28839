-- ===== src/Repository/Logs.antt =====
-- internal/repository/sqlite/sqlite_execution_log_repository.go, with the conventions of
-- Repository/Jobs. The rows of equal `attempt` come in the order of the table.
use queue_ctl.Prelude.{
  ℕ, String, Bool, List, [], ◌∷◌, ◌++◌, ◌==◌, eqb, if◌then◌else◌, where_rows, update_rows,
  count_rows, order_by,
}
use queue_ctl.Prelude.Int.{ltb_ℤ}
use queue_ctl.Prelude.Text.{◌^^◌}
use queue_ctl.Domain.Errors.{msg, driver}
use queue_ctl.Domain.ExecutionLog.{ExecutionLog, success, failed, execution_status_eq}
use queue_ctl.Store.{
  Env, Db, Exec, pure, raise, gets, modify_db, wrapping, driver_call, ◌>>=◌, ◌>>◌,
}

abbrev pub has_id : String → ExecutionLog → Bool
has_id id l = l.id == id

abbrev pub of_job : String → ExecutionLog → Bool
of_job job_id l = l.job_id == job_id

-- ORDER BY attempt ASC
abbrev pub attempted_before : ExecutionLog → ExecutionLog → Bool
attempted_before a b = ltb_ℤ a.attempt b.attempt

-- SET status = ?, finished_at = ?, error_message = ?
abbrev pub updated_log : ExecutionLog → ExecutionLog → ExecutionLog
updated_log l row = record row {
  status = l.status;
  finished_at = l.finished_at;
  error_message = l.error_message;
}

-- The rows that GetByJobID selects.
unfoldable pub logs_of : String → List ExecutionLog → List ExecutionLog
logs_of job_id rows = order_by attempted_before (where_rows (of_job job_id) rows)

abbrev set_logs : (List ExecutionLog → List ExecutionLog) → Db → Db
set_logs f db = record db { logs = f db.logs }

module _ (env : Env) where
  abbrev append_new : ExecutionLog → List ExecutionLog → Exec (Unit {0})
  append_new l rows =
      if eqb (count_rows (has_id l.id) rows) 0
      then modify_db (set_logs (λ rows. rows ++ l ∷ []))
      else raise (driver "UNIQUE constraint failed: execution_logs.id")

  -- Insert
  unfoldable pub insert : ExecutionLog → Exec (Unit {0})
  unfolding driver_call
  insert l =
      wrapping ("failed to insert execution log " ^^ l.id)
        do driver_call env; rows ← gets (λ w. w.db.logs); append_new l rows

  -- Update
  unfoldable pub update : ExecutionLog → Exec (Unit {0})
  unfolding driver_call
  update l = do
    wrapping ("failed to update execution log " ^^ l.id) (driver_call env)
    rows ← gets (λ w. count_rows (has_id l.id) w.db.logs)
    modify_db (set_logs (update_rows (has_id l.id) (updated_log l)))
    wrapping ("failed to check updated rows count for execution log " ^^ l.id) (driver_call env)
    if eqb rows 0 then raise (msg ("execution log to update not found: " ^^ l.id)) else pure tt

  -- GetByJobID
  unfoldable pub get_by_job_id : String → Exec (List ExecutionLog)
  unfolding driver_call logs_of
  get_by_job_id job_id = do
    wrapping ("failed to query execution logs by job " ^^ job_id) (driver_call env)
    gets (λ w. logs_of job_id w.db.logs)

  -- GetStats: the counts of the two constants among the groups of GROUP BY status
  unfoldable pub get_stats : Exec (ℕ × ℕ)
  unfolding driver_call execution_status_eq
  get_stats = do
    wrapping "failed to query execution log stats" (driver_call env)
    gets (λ w. (
      count_rows (λ l. execution_status_eq l.status success) w.db.logs,
      count_rows (λ l. execution_status_eq l.status failed) w.db.logs,
    ))
