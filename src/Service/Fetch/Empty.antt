-- ===== src/Service/Fetch/Empty.antt =====
-- FetchNextJob where it returns no job.
use queue_ctl.Prelude.{
  String, ◌≡◌, ap, ◌∙◌, false, none, arith, All, where_rows, order_by, first_row,
}
use queue_ctl.Domain.Errors.{ok}
use queue_ctl.Store.{Env, World, Db}
use queue_ctl.Store.Tx.{in_tx, plain, with_tx, done}
use queue_ctl.Store.Tx.Atomic.{with_tx-commit, tx_start}
use queue_ctl.Repository.Jobs.{
  is_eligible, acquired_before, acquire_in_tx, acquire_next_pending_job,
}
use queue_ctl.Repository.Jobs.Acquire.{selected_none}
use queue_ctl.Service.Fetch.{fetch_in_tx, fetch_next_job}

module _ (env : Env) (queue worker_id : String) where
  -- What a SELECT without a row says of the table.
  abbrev NothingToFetch : World → Db → Type 0
  NothingToFetch w after =
      All (λ j. is_eligible queue (env.clock w.reads) j ≡ false) w.db.jobs × (after ≡ w.db)

  acquired_none :
      (w : World)
      → (acquire_in_tx env queue w).0 ≡ ok none
      → NothingToFetch w (acquire_in_tx env queue w).1.db
  unfolding acquire_in_tx
  acquired_none w h =
      let selected = where_rows (is_eligible queue (env.clock w.reads)) w.db.jobs in
      let empty : first_row (order_by acquired_before selected) ≡ none = ground arith in
      (selected_none queue (env.clock w.reads) w.db.jobs empty, ground arith)

  fetch_in_tx-none :
      (w : World)
      → (fetch_in_tx env queue worker_id in_tx w).0 ≡ ok none
      → ((acquire_in_tx env queue w).0 ≡ ok none)
        × ((fetch_in_tx env queue worker_id in_tx w).1 ≡ (acquire_in_tx env queue w).1)
  unfolding fetch_in_tx acquire_next_pending_job with_tx
  fetch_in_tx-none w h = (ground arith, ground arith)

  -- If FetchNextJob returns neither a job nor an error, then no row of the queue was pending and due,
  -- and all three tables are as before.
  pub fetch_next_job-none :
      (w : World)
      → (fetch_next_job env queue worker_id w).0 ≡ ok none
      → All (λ j. is_eligible queue (env.clock w.reads) j ≡ false) w.db.jobs
        × ((fetch_next_job env queue worker_id w).1.db ≡ w.db)
  unfolding fetch_next_job
  fetch_next_job-none w h =
      let fn = fetch_in_tx env queue worker_id in
      let committed : (with_tx env plain fn w).0 ≡ done none = ground arith in
      let (ran, ended) = with_tx-commit env fn w none committed in
      let (acquired, last) = fetch_in_tx-none (tx_start w) ran in
      let (nothing, same) = acquired_none (tx_start w) acquired in
      let final : (fetch_next_job env queue worker_id w).1.db ≡ (fn in_tx (tx_start w)).1.db =
        ground arith in
      (nothing, final ∙ ap (λ v. v.db) last ∙ same)
