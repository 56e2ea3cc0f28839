-- ===== src/Lifecycle/Fetch.antt =====
-- FetchNextJob as a step of the contract.
use queue_ctl.Prelude.{String, ◌≡◌, refl, ap, true, Option, none, some, arith, eq_iff, eq_refl}
use queue_ctl.Prelude.Int.{ℤ}
use queue_ctl.Domain.Errors.{Result, ok, err}
use queue_ctl.Domain.Job.{Job, pending, status_eq}
use queue_ctl.Store.{Env, World}
use queue_ctl.Repository.Jobs.{has_id, is_eligible, set_running}
use queue_ctl.Service.Fetch.{fetch_next_job}
use queue_ctl.Service.Fetch.Empty.{fetch_next_job-none}
use queue_ctl.Service.Fetch.Atomic.{fetch_next_job-atomic}
use queue_ctl.Service.Fetch.Takes.{fetch_next_job-takes}
use queue_ctl.Lifecycle.{starts}
use queue_ctl.Lifecycle.Table.{Refines, Refines-same, Refines-set}

eligible-pending :
    (queue : String) (t : ℤ) (row : Job) → is_eligible queue t row ≡ true → row.status ≡ pending
unfolding status_eq
eligible-pending queue t row h = ground arith

module _ (env : Env) (queue worker_id : String) (w : World) where
  -- FetchNextJob keeps the contract.
  pub fetch_Refines : Refines w.db.jobs (fetch_next_job env queue worker_id w).1.db.jobs
  fetch_Refines = go (fetch_next_job env queue worker_id w).0 refl
    where
      go :
          (r : Result (Option Job))
          → (fetch_next_job env queue worker_id w).0 ≡ r
          → Refines w.db.jobs (fetch_next_job env queue worker_id w).1.db.jobs
      go (err e) h = Refines-same (ap (λ d. d.jobs) (fetch_next_job-atomic env w queue worker_id h))
      go (ok none) h =
          Refines-same (ap (λ d. d.jobs) (fetch_next_job-none env queue worker_id w h).1)
      go (ok (some job)) h =
          let taken = fetch_next_job-takes env worker_id queue w job h in
          let row = taken.row in
          let t = env.clock w.reads in
          rw taken.jobs (
            Refines-set (has_id row.id) (set_running t) row.id w.db.jobs {row = row}
              (λ x p. ground (arith, eq_iff x.id row.id)) (λ x. refl)
              (λ u. taken.best.found (u.at row.id)) (eq_refl row.id)
              (starts row t (eligible-pending queue t row taken.best.eligible)))
