-- ===== src/Repository/Workers.antt =====
-- internal/repository/sqlite/sqlite_worker_repository.go, with the conventions of Repository/Jobs.
pub mod Pruning
use queue_ctl.Prelude.{
  ℕ, String, Bool, not, ◌&&◌, Option, none, some, List, [], ◌∷◌, ◌++◌, ◌==◌, eqb, if◌then◌else◌,
  where_rows, update_rows, count_rows, find_row, order_by,
}
use queue_ctl.Prelude.Int.{ltb_ℤ, ◌-ℤ◌}
use queue_ctl.Prelude.Text.{◌^^◌}
use queue_ctl.Domain.Errors.{msg}
use queue_ctl.Domain.Job.{Time, Duration}
use queue_ctl.Domain.Worker.{Worker, stopped, worker_status_eq}
use queue_ctl.Store.{
  Env, Db, Exec, pure, raise, gets, modify_db, wrapping, now, driver_call, ◌>>=◌, ◌>>◌,
}

abbrev pub has_id : String → Worker → Bool
has_id id w = w.id == id

-- ON CONFLICT(id) DO UPDATE SET status = excluded.status, last_heartbeat = excluded.last_heartbeat
abbrev pub refreshed : Worker → Worker → Worker
refreshed new row = record row { status = new.status; last_heartbeat = new.last_heartbeat }

unfoldable pub upserted : Worker → List Worker → List Worker
upserted new rows =
    if eqb (count_rows (has_id new.id) rows) 0
    then rows ++ new ∷ []
    else update_rows (has_id new.id) (refreshed new) rows

-- WHERE status != ? AND last_heartbeat < ?
abbrev pub is_stale : Time → Worker → Bool
is_stale cutoff w = not (worker_status_eq w.status stopped) && ltb_ℤ w.last_heartbeat cutoff

abbrev pub set_stopped : Time → Worker → Worker
set_stopped t w = record w { status = stopped; last_heartbeat = t }

abbrev set_workers : (List Worker → List Worker) → Db → Db
set_workers f db = record db { workers = f db.workers }

-- ORDER BY started_at ASC
abbrev pub started_before : Worker → Worker → Bool
started_before a b = ltb_ℤ a.started_at b.started_at

module _ (env : Env) where
  -- Upsert
  unfoldable pub upsert : Worker → Exec (Unit {0})
  unfolding driver_call upserted
  upsert new =
      wrapping ("failed to upsert worker node " ^^ new.id)
        do driver_call env; modify_db (set_workers (upserted new))

  abbrev found_or_missing : String → Option Worker → Exec Worker
  found_or_missing id none = raise (msg ("worker not found" ^^ ": " ^^ id))
  found_or_missing id (some w) = pure w

  -- GetByID
  unfoldable pub get_by_id : String → Exec Worker
  unfolding driver_call
  get_by_id id = do
    wrapping ("failed to fetch worker row " ^^ id) (driver_call env)
    row ← gets (λ w. find_row (has_id id) w.db.workers)
    found_or_missing id row

  -- Delete
  unfoldable pub delete : String → Exec (Unit {0})
  unfolding driver_call
  delete id = do
    wrapping ("failed to delete worker row " ^^ id) (driver_call env)
    rows ← gets (λ w. count_rows (has_id id) w.db.workers)
    modify_db (set_workers (where_rows (λ w. not (has_id id w))))
    wrapping ("failed to check deleted rows count for worker " ^^ id) (driver_call env)
    if eqb rows 0 then raise (msg ("worker to delete not found: " ^^ id)) else pure tt

  -- ListActive
  unfoldable pub list_active : Exec (List Worker)
  unfolding driver_call worker_status_eq
  list_active = do
    wrapping "failed to query active workers list" (driver_call env)
    gets (λ w.
        order_by started_before
          (where_rows (λ v. not (worker_status_eq v.status stopped)) w.db.workers))

  -- PruneStale
  unfoldable pub prune_stale : Duration → Exec ℕ
  unfolding driver_call now worker_status_eq ◌-ℤ◌
  prune_stale max_inactivity = do
    t ← now env
    let cutoff = t -ℤ max_inactivity
    wrapping "failed to prune stale workers" (driver_call env)
    rows ← gets (λ w. count_rows (is_stale cutoff) w.db.workers)
    modify_db (set_workers (update_rows (is_stale cutoff) (set_stopped t)))
    wrapping "failed to check pruned stale workers count" (driver_call env)
    pure rows
