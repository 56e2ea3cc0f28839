-- ===== src/Service/Outcomes/Calm/Owned.antt =====
-- The owner of a running job, on a driver that reports no fault.
use queue_ctl.Prelude.{
  ℕ, String, ◌+◌, ◌≤◌, ◌≡◌, refl, Bool, true, false, Option, none, some, List, arith, get_last?,
  ◌==◌, ◌&&◌, ◌||◌, eq_iff, inr,
}
use queue_ctl.Prelude.Int.{pos, eqb_ℤ_iff}
use queue_ctl.Domain.Errors.{ok}
use queue_ctl.Domain.Job.{Job}
use queue_ctl.Domain.ExecutionLog.{ExecutionLog, failed, is_zero}
use queue_ctl.Store.{Env, World}
use queue_ctl.Repository.Logs as Logs
use queue_ctl.Service.Outcomes.{check_owner, owned_by, close_failed}
use queue_ctl.Service.Outcomes.Settle.{then_close}
use queue_ctl.Service.Outcomes.Calm.{
  IsCalm, StartedBefore, StartedBefore-later, last_log_counted, get_by_job_id_calm, close_if_calm,
}

module _ (env : Env) (calm : IsCalm env) (worker_id : String) where
  -- The last log of a job, if there is one, is open, is the worker's and has started.
  pub record Owned (id : String) (reads : ℕ) (logs : List ExecutionLog) : Type 0 where
    pub owner :
        (l : ExecutionLog) → get_last? (Logs.logs_of id logs) ≡ some l → l.worker_id ≡ worker_id
    pub open_yet :
        (l : ExecutionLog) → get_last? (Logs.logs_of id logs) ≡ some l → l.finished_at ≡ pos 0
    pub started :
        (l : ExecutionLog)
        → get_last? (Logs.logs_of id logs) ≡ some l
        → StartedBefore env calm reads l

  pub Owned-later :
      (id : String) (logs : List ExecutionLog) {r r' : ℕ}
      → r ≤ r'
      → Owned id r logs
      → Owned id r' logs
  Owned-later id logs k o = record {
    owner = o.owner;
    open_yet = o.open_yet;
    started = λ l e. StartedBefore-later env calm l k (o.started l e);
  }

  owned_by_calm :
      (id : String) (logs : List ExecutionLog) (last : Option ExecutionLog) (w : World)
      → get_last? (Logs.logs_of id logs) ≡ last
      → Owned id w.reads logs
      → (owned_by env worker_id last w).0 ≡ ok tt
  owned_by_calm id logs none w q o = refl
  owned_by_calm id logs (some l) w q o =
      let own = o.owner l q in
      let yet = o.open_yet l q in
      ground (arith, own, yet, eq_iff l.worker_id worker_id, eqb_ℤ_iff l.finished_at (pos 0))

  pub check_owner_calm :
      (row : Job) (w : World)
      → Owned row.id w.reads w.db.logs
      → (check_owner env worker_id row w).0 ≡ ok tt
  unfolding check_owner
  check_owner_calm row w o = go (worker_id == "") refl
    where
      go : (b : Bool) → (worker_id == "") ≡ b → (check_owner env worker_id row w).0 ≡ ok tt
      go true q = rw q refl
      go false q = rw q (
          rw (get_by_job_id_calm env calm row.id w)
            (owned_by_calm row.id w.db.logs (get_last? (Logs.logs_of row.id w.db.logs)) _ refl o))

  close_failed_calm :
      (text id : String) (w : World) (last : Option ExecutionLog)
      → get_last? (Logs.logs_of id w.db.logs) ≡ last
      → Owned id w.reads w.db.logs
      → (close_failed env worker_id text last w).0 ≡ ok tt
  close_failed_calm text id w none q o = refl
  close_failed_calm text id w (some l) q o =
      close_if_calm env calm
        ((worker_id == "" || l.worker_id == worker_id) && is_zero l.finished_at) failed text l w
        (inr refl) (o.started l q) (last_log_counted id w.db.logs q)

  pub then_close_calm :
      (saved : Job) (w : World)
      → Owned saved.id w.reads w.db.logs
      → (then_close env worker_id saved w).0 ≡ ok saved
  then_close_calm saved w o =
      let closed =
        close_failed_calm saved.error_message saved.id (record w { calls = w.calls + 1 })
          (get_last? (Logs.logs_of saved.id w.db.logs)) refl o in
      rw (get_by_job_id_calm env calm saved.id w) (rw closed refl)
