-- ===== src/Repository/Workers/Pruning.antt =====
-- What PruneStale does to the workers table.
use queue_ctl.Prelude.{
  ℕ, ◌≡◌, refl, ap, ◌∙◌, not, ◌&&◌, List, [], ◌∷◌, arith, count_rows, update_rows, where_rows,
}
use queue_ctl.Prelude.Int.{◌-ℤ◌}
use queue_ctl.Domain.Errors.{ok}
use queue_ctl.Domain.Job.{Time, Duration}
use queue_ctl.Domain.Worker.{Worker, stopped, worker_status_eq}
use queue_ctl.Store.{Env, World}
use queue_ctl.Repository.Workers.{is_stale, set_stopped, prune_stale}

-- A row is stopped if it was stale, and as before if not.
pruned_rows :
    (cutoff t : Time) (rows : List Worker)
    → count_rows (is_stale cutoff) (update_rows (is_stale cutoff) (set_stopped t) rows) ≡ 0
unfolding count_rows update_rows worker_status_eq
pruned_rows cutoff t [] = refl
pruned_rows cutoff t (x ∷ xs) = ground (arith, pruned_rows cutoff t xs)

fresh_rows :
    (cutoff t : Time) (rows : List Worker)
    → where_rows
        (λ v. not (worker_status_eq v.status stopped))
        (update_rows (is_stale cutoff) (set_stopped t) rows)
      ≡ where_rows (λ v. not (is_stale cutoff v) && not (worker_status_eq v.status stopped)) rows
unfolding where_rows update_rows worker_status_eq
fresh_rows cutoff t [] = refl
fresh_rows cutoff t (x ∷ xs) = ground (arith, fresh_rows cutoff t xs)

-- If PruneStale returns a number, then it is the number of the workers that were stale: not stopped,
-- with a last heartbeat before the time less the given duration. Afterwards none is stale, and the
-- workers that are not stopped are those that were neither stale nor stopped, unchanged.
pub prune_stale-none :
    (env : Env) (d : Duration) (w : World) {n : ℕ}
    → (prune_stale env d w).0 ≡ ok n
    → let cutoff = env.clock w.reads -ℤ d in
      let after = (prune_stale env d w).1.db.workers in
      (n ≡ count_rows (is_stale cutoff) w.db.workers)
      × (count_rows (is_stale cutoff) after ≡ 0)
      × (where_rows (λ v. not (worker_status_eq v.status stopped)) after
          ≡ where_rows
              (λ v. not (is_stale cutoff v) && not (worker_status_eq v.status stopped))
              w.db.workers)
unfolding prune_stale
prune_stale-none env d w {n} h =
    let cutoff = env.clock w.reads -ℤ d in
    let after : (prune_stale env d w).1.db.workers
        ≡ update_rows (is_stale cutoff) (set_stopped (env.clock w.reads)) w.db.workers =
      ground arith in
    (
      ground arith,
      ap (count_rows (is_stale cutoff)) after ∙ pruned_rows cutoff (env.clock w.reads) w.db.workers,
      ap (where_rows (λ v. not (worker_status_eq v.status stopped))) after
          ∙ fresh_rows cutoff (env.clock w.reads) w.db.workers,
    )
