-- ===== src/Dlq/Commands.antt =====
-- What the commands on the dead letter queue do to the jobs table.
use mathlib.Core.Option
use queue_ctl.Prelude.{String, ◌+◌, ◌≡◌, ◌≢◌, refl, ap, sym, subst, ◌∙◌, some, arith, ◌==◌, eq_iff}
use queue_ctl.Prelude.Text.{◌^^◌}
use queue_ctl.Domain.Errors.{refuse, ok}
use queue_ctl.Domain.Job.{Job, Time, dead_letter}
use queue_ctl.Store.{Env, World, Exec, lift, wrapping, ◌>>=◌, now, pure}
use queue_ctl.Store.Bind.{>>=-ok, wrapping-ok}
use queue_ctl.Repository.Jobs.{update, updated_row}
use queue_ctl.Repository.Jobs.Lookup.{row_of, get_by_id_ok, update_found, update_others}
use queue_ctl.Dlq.{revived, fetch_dead, retry, restore}

module _ (env : Env) where
  pub fetch_dead_ok :
      (id : String) (w : World) {job : Job}
      → (fetch_dead env id w).0 ≡ ok job
      → (row_of id w ≡ some job)
        × (job.id ≡ id)
        × (job.status ≡ dead_letter)
        × ((fetch_dead env id w).1 ≡ record w { calls = w.calls + 1 })
  unfolding fetch_dead
  fetch_dead_ok id w {job} h = ground (arith, get_by_id_ok env id w {job = job})

  -- The row that Retry writes.
  abbrev pub retried : Time → Time → Job → Job
  retried run t row = updated_row (revived run row) t row

  -- the statements that end Retry and Restore
  abbrev pub revive : String → Job → Exec (Unit {0})
  revive text j = do t ← now env; _ ← wrapping text (update env (revived t j)); pure tt

  revive_ok :
      (text : String) (j row : Job) (w : World)
      → (revive text j w).0 ≡ ok tt
      → row_of j.id w ≡ some row
      → row.updated_at ≡ j.updated_at
      → row_of j.id (revive text j w).1
        ≡ some (retried (env.clock w.reads) (env.clock (w.reads + 1)) row)
  unfolding now
  revive_ok text j row w h found version =
      let w' = record w { reads = w.reads + 1 } in
      let j' = revived (env.clock w.reads) j in
      let (saved, updated, rest, ended) =
        >>=-ok (wrapping text (update env j')) (λ _. pure tt) w' h in
      let done = wrapping-ok text (update env j') w' updated in
      rw ended (update_found env j' w' done found version)

  revive_others :
      (text : String) (j : Job) (w : World) (other : String)
      → other ≢ j.id
      → row_of other (revive text j w).1 ≡ row_of other w
  unfolding now
  revive_others text j w other ne =
      let w' = record w { reads = w.reads + 1 } in
      let j' = revived (env.clock w.reads) j in
      let last : (revive text j w).1 ≡ (update env j' w').1 = ground arith in
      rw last (update_others env j' w' other ne)

  -- What Retry and Restore do once the dead job has been fetched.
  revive_dead :
      (text id : String) (job row : Job) (w : World)
      → job.id ≡ id
      → row.updated_at ≡ job.updated_at
      → row_of id w ≡ some row
      → (revive text job w).0 ≡ ok tt
      → (row_of id (revive text job w).1
          ≡ some (retried (env.clock w.reads) (env.clock (w.reads + 1)) row))
        × ((other : String) → other ≢ id → row_of other (revive text job w).1 ≡ row_of other w)
  revive_dead text id job row w same version found h = (
    subst
        (λ k.
          row_of k (revive text job w).1
          ≡ some (retried (env.clock w.reads) (env.clock (w.reads + 1)) row))
        same
        (revive_ok text job row w h (subst (λ k. row_of k w ≡ some row) (sym same) found) version),
    λ other ne. revive_others text job w other (λ e. ne (e ∙ same)),
  )

  -- If Retry returns no error, then the job was in the dead letter queue, and its row is pending
  -- with no failure counted, no error message and due at once; the rest of the row and the rows of
  -- all other jobs are as before.
  pub retry_revives :
      (id : String) (w : World)
      → (retry env id w).0 ≡ ok tt
      → (row : Job) × (row_of id w ≡ some row)
        × (row.status ≡ dead_letter)
        × (row_of id (retry env id w).1
            ≡ some (retried (env.clock w.reads) (env.clock (w.reads + 1)) row))
        × ((other : String) → other ≢ id → row_of other (retry env id w).1 ≡ row_of other w)
  unfolding retry
  retry_revives id w h =
      let text = "failed to retry DLQ job " ^^ id in
      let (job, fetched, ran, ended) = >>=-ok (fetch_dead env id) (revive text) w h in
      let (found, same_id, dead, read) = fetch_dead_ok id w fetched in
      let (here, others) =
        revive_dead text id job job (record w { calls = w.calls + 1 }) same_id refl found
          (rw read at ran) in
      (job, found, dead, rw ended (rw read here), λ other ne. rw ended (rw read (others other ne)))

  -- If Restore returns no error, then the job was in the dead letter queue and its row is pending
  -- again as after Retry. The target queue is not empty, and the row is still in the queue where it
  -- was, whatever the target: the UPDATE statement does not write that column.
  pub restore_keeps_queue :
      (id target : String) (w : World)
      → (restore env id target w).0 ≡ ok tt
      → (row : Job) × (row_of id w ≡ some row)
        × (row.status ≡ dead_letter)
        × (target ≢ "")
        × (row_of id (restore env id target w).1
            ≡ some (retried (env.clock w.reads) (env.clock (w.reads + 1)) row))
        × (Option.map (λ (j : Job). j.queue) (row_of id (restore env id target w).1)
            ≡ some row.queue)
  unfolding restore
  restore_keeps_queue id target w h =
      let text = "failed to restore DLQ job " ^^ id in
      let (u, checked, rest, ended₀) =
        >>=-ok (lift (refuse (target == "") "target queue name cannot be empty"))
          (λ _. fetch_dead env id >>= λ job. revive text (record job { queue = target })) w h in
      let (job, fetched, ran, ended) =
        >>=-ok (fetch_dead env id) (λ job. revive text (record job { queue = target })) w rest in
      let (found, same_id, dead, read) = fetch_dead_ok id w fetched in
      let (here, others) =
        revive_dead text id (record job { queue = target }) job (record w { calls = w.calls + 1 })
          same_id refl found (rw read at ran) in
      let final : row_of id (restore env id target w).1
          ≡ some (retried (env.clock w.reads) (env.clock (w.reads + 1)) job) =
        rw ended₀ (rw ended (rw read here)) in
      (
        job,
        found,
        dead,
        ground (arith, eq_iff target ""),
        final,
        ap (Option.map (λ (j : Job). j.queue)) final,
      )
