-- ===== src/Service/Outcomes/Calm.antt =====
-- The parts of HandleJobSuccess and HandleJobFailure on a driver that reports no fault.
pub mod Success
pub mod Owned
pub mod Failure
use queue_ctl.Prelude.{
  String, ℕ, ◌+◌, ◌<◌, ◌≤◌, ◌≡◌, ◌≢◌, refl, ap, sym, ◌∙◌, subst, Bool, true, false, Option, none,
  some, List, [], ◌∷◌, arith, get_last?, ◌==◌, eq_iff, eq_refl, count_rows, where_rows, order_by,
  All, ◌⊎◌, ◌&&◌, inl, inr, Bool-cases, if◌then◌else◌,
}
use queue_ctl.Prelude.Int.{pos, ◌≤ℤ◌, eqb_ℤ, eqb_ℤ_iff}
use queue_ctl.Prelude.Lists.Order.{All-map, All-where_rows, All-order_by}
use queue_ctl.Prelude.Lists.Rows.{count_rows_passed}
use queue_ctl.Prelude.Lists.Keys.{All-counted}
use queue_ctl.Domain.Errors.{Error, Result, ok, err}
use queue_ctl.Domain.Job.{Job, Time, running, status_eq}
use queue_ctl.Domain.ExecutionLog.{ExecutionLog, ExecutionStatus, success, failed, other, is_zero}
use queue_ctl.Domain.Clocked.{complete, or_now}
use queue_ctl.Store.{Env, World, Exec, ◌>>=◌, ◌>>◌, wrapping, now, driver_call}
use queue_ctl.Store.Tx.{Ctx, in_tx, plain, with_tx, done}
use queue_ctl.Store.Tx.Atomic.{tx_start}
use queue_ctl.Repository.Jobs as Jobs
use queue_ctl.Repository.Jobs.{same_version}
use queue_ctl.Repository.Jobs.Update.{update_ok}
use queue_ctl.Repository.Jobs.Lookup.{row_of, row_of-id}
use queue_ctl.Repository.Logs as Logs
use queue_ctl.Service.Outcomes.Success.{then_close, then_complete, then_check, completed_job}
use queue_ctl.Service.Outcomes.{
  handle_job_success, succeed_in_tx, require_running, close_if, close_last,
}

-- No call of the database reports a fault.
abbrev pub IsCalm : Env → Type 0
IsCalm env = (n : ℕ) → env.fault n ≡ none

-- The last log of a job is a row of the table.
pub All-get_last? {ℓ κ} :
    {A : Type ℓ} (P : A → Type κ) (xs : List A) {x : A} → All P xs → get_last? xs ≡ some x → P x
All-get_last? P [] h e = cc
All-get_last? P (x ∷ []) {x = y} h e = let same : x ≡ y = ground arith in subst P same h.0
All-get_last? P (x ∷ y ∷ ys) h e = All-get_last? P (y ∷ ys) h.1 e

pub last_log_counted :
    (job_id : String) (rows : List ExecutionLog) {l : ExecutionLog}
    → get_last? (Logs.logs_of job_id rows) ≡ some l
    → 0 < count_rows (Logs.has_id l.id) rows
unfolding Logs.logs_of
last_log_counted job_id rows e =
    let P = λ (l : ExecutionLog).
      (Logs.of_job job_id l ≡ true) × (0 < count_rows (Logs.has_id l.id) rows) in
    let selected = where_rows (Logs.of_job job_id) rows in
    (All-get_last? P (order_by Logs.attempted_before selected)
      (All-order_by Logs.attempted_before P selected (
        All-where_rows (λ l. 0 < count_rows (Logs.has_id l.id) rows) (Logs.of_job job_id) rows
          (All-counted (λ (l : ExecutionLog). l.id) rows)))
      e).1

module _ {A B : Type 0} where
  pub >>=-run :
      (m : Exec A) (f : A → Exec B) (w : World) {a : A} {b : B}
      → (m w).0 ≡ ok a
      → (f a (m w).1).0 ≡ ok b
      → ((m >>= f) w).0 ≡ ok b
  >>=-run m f w h k = rw h k

module _ (env : Env) (calm : IsCalm env) where
  pub get_by_id_calm :
      (id : String) (w : World) {row : Job}
      → row_of id w ≡ some row
      → Jobs.get_by_id env id w ≡ (ok row, record w { calls = w.calls + 1 })
  unfolding Jobs.get_by_id
  get_by_id_calm id w found = ground (arith, calm w.calls)

  pub update_calm :
      (job : Job) (w : World)
      → 0 < count_rows (same_version job) w.db.jobs
      → (Jobs.update env job w).0 ≡ ok (record job { updated_at = env.clock w.reads })
  unfolding Jobs.update
  update_calm job w there = ground (arith, calm w.calls, calm (w.calls + 1))

  pub get_by_job_id_calm :
      (id : String) (w : World)
      → Logs.get_by_job_id env id w
        ≡ (ok (Logs.logs_of id w.db.logs), record w { calls = w.calls + 1 })
  unfolding Logs.get_by_job_id
  get_by_job_id_calm id w = ground (arith, calm w.calls)

  pub logs_update_calm :
      (l : ExecutionLog) (w : World)
      → 0 < count_rows (Logs.has_id l.id) w.db.logs
      → (Logs.update env l w).0 ≡ ok tt
  unfolding Logs.update
  logs_update_calm l w there = ground (arith, calm w.calls, calm (w.calls + 1))

  pub with_tx_calm :
      {A : Type 0} (fn : Ctx → Exec A) (w : World) {a : A}
      → (fn in_tx (tx_start w)).0 ≡ ok a
      → (with_tx env plain fn w).0 ≡ done a
  unfolding with_tx
  with_tx_calm fn w h =
      ground (arith, calm w.calls, calm (w.calls + 1), calm (fn in_tx (tx_start w)).1.calls)

  -- From a reading on the clock shows no time before the start of a log.
  abbrev pub StartedBefore : ℕ → ExecutionLog → Type 0
  StartedBefore reads l = (n : ℕ) → reads ≤ n → l.started_at ≤ℤ env.clock n

  pub StartedBefore-later :
      {r r' : ℕ} (l : ExecutionLog) → r ≤ r' → StartedBefore r l → StartedBefore r' l
  StartedBefore-later l k started n h = started n (omega arith)

  complete_runs :
      (status : ExecutionStatus) (l : ExecutionLog) (t : Time) (text : String) (w : World)
      → (status ≡ success) ⊎ (status ≡ failed)
      → l.started_at ≤ℤ t
      → l.started_at ≤ℤ env.clock w.reads
      → ((complete env l status t text w).0
          ≡ ok (record l {
            status = status;
            finished_at = if is_zero t then env.clock w.reads else t;
            error_message = text;
          }))
        × ((complete env l status t text w).1.db ≡ w.db)
  unfolding complete or_now
  complete_runs success l t text w known h k = (ground arith, ground arith)
  complete_runs failed l t text w known h k = (ground arith, ground arith)
  complete_runs (other x) l t text w known h k = absurd (ground arith)

  pub close_if_calm :
      (b : Bool) (status : ExecutionStatus) (text : String) (l : ExecutionLog) (w : World)
      → (status ≡ success) ⊎ (status ≡ failed)
      → StartedBefore w.reads l
      → 0 < count_rows (Logs.has_id l.id) w.db.logs
      → (close_if env b status text l w).0 ≡ ok tt
  unfolding now
  close_if_calm false status text l w known started there = refl
  close_if_calm true status text l w known started there =
      let t = env.clock w.reads in
      let w' = record w { reads = w.reads + 1 } in
      let (done_log, same_db) =
        complete_runs status l t text w' known (started w.reads (omega arith))
          (started (w.reads + 1) (omega arith)) in
      let l' = record l {
        status = status;
        finished_at = if is_zero t then env.clock (w.reads + 1) else t;
        error_message = text;
      } in
      let written =
        logs_update_calm l' (complete env l status t text w').1
          (subst (λ d. 0 < count_rows (Logs.has_id l.id) d.logs) (sym same_db) there) in
      rw done_log (rw written refl)

  pub update_found_calm :
      (text : String) (job row : Job) (w : World)
      → job.id ≡ row.id
      → job.updated_at ≡ row.updated_at
      → row_of row.id w ≡ some row
      → ((wrapping text (Jobs.update env job) w).0
          ≡ ok (record job { updated_at = env.clock w.reads }))
        × ((wrapping text (Jobs.update env job) w).1.db.logs ≡ w.db.logs)
        × ((wrapping text (Jobs.update env job) w).1.reads ≡ w.reads + 1)
  update_found_calm text job row w same version found =
      let there =
        count_rows_passed (same_version job) (Jobs.has_id row.id) w.db.jobs found
          (ground (arith, eq_iff row.id job.id, eqb_ℤ_iff row.updated_at job.updated_at)) in
      let saved = update_calm job w there in
      let (same_job, counted, after) = update_ok env job w saved in
      (rw saved refl, ap (λ v. v.db.logs) after, ap (λ v. v.reads) after)

  pub require_running_calm :
      (row : Job) (w : World) → row.status ≡ running → require_running row w ≡ (ok tt, w)
  unfolding status_eq
  require_running_calm row w r = rw r refl

  -- What lets the last log of a job be closed.
  abbrev pub Closable : String → World → Type 0
  Closable id w =
      (l : ExecutionLog) → get_last? (Logs.logs_of id w.db.logs) ≡ some l → StartedBefore w.reads l
