-- ===== src/Service/Fetch/Atomic.antt =====
-- What FetchNextJob leaves behind.
use queue_ctl.Prelude.{String, ◌≡◌, arith}
use queue_ctl.Domain.Errors.{Error, err}
use queue_ctl.Store.{Env, World}
use queue_ctl.Store.Tx.Atomic.{with_tx-rollback}
use queue_ctl.Service.Fetch.{fetch_next_job, fetch_in_tx}

module _ (env : Env) (w : World) (queue worker_id : String) where
  -- If FetchNextJob returns an error, then all three tables are as they were before the call: no
  -- job is left running without its log, and no log is left for a job that was not taken.
  pub fetch_next_job-atomic :
      {e : Error}
      → (fetch_next_job env queue worker_id w).0 ≡ err e
      → (fetch_next_job env queue worker_id w).1.db ≡ w.db
  unfolding fetch_next_job
  fetch_next_job-atomic h = ground (arith, with_tx-rollback env (fetch_in_tx env queue worker_id) w)
