-- ===== src/Pool/Shutdown/Drained.antt =====
-- What a pool has done when its Start returns.
use queue_ctl.Prelude.{
  ℕ, suc, ◌≤◌, ◌≡◌, refl, ap, sym, subst, ◌∙◌, String, List, [], ◌∷◌, ◌++◌, arith, All, ◌⊎◌, inl,
  inr, true,
}
use queue_ctl.Prelude.Int.{ℤ, pos_part}
use queue_ctl.Domain.Errors.{ok}
use queue_ctl.Store.{Env, World}
use queue_ctl.Service.Queue.{Settings}
use queue_ctl.Lifecycle.Histories.{unregistering, perform}
use queue_ctl.Pool.{Pool, Task, working, settled, released, start, shut_down}
use queue_ctl.Pool.Steps as Steps
use queue_ctl.Pool.Steps.{TaskStep, settles, releases, rests, PoolStep, calls}
use queue_ctl.Pool.Bound.{
  holders, holders-append, IsBounded, step_bound, start-IsBounded, rest_keeps, beat_keeps,
}
use queue_ctl.Pool.Shutdown.{
  waited_for, Life, Phase, Once, fresh, running, over, entered, saw_cancel, cancelled_end,
  stopped_end, looping, leaving, returned, begins, LifeStep, cancels, stops, drains, polls, beats,
  works, sees_cancel, stopped, sees_stop, unregisters, others, LifeRun, stop, next,
}

-- Start has left its loop because its context was cancelled, and its Stop has returned.
abbrev IsOver : Phase → Type 0
IsOver (leaving cancelled_end) = Unit
IsOver (returned cancelled_end) = Unit
IsOver _ = ⊥

-- From the moment at which Start has called a Stop that waits: the loop does not go on, and once the
-- wait is over no goroutine holds a slot.
record IsCalmed (l : Life) : Type 0 where
  left : ¬ (l.phase ≡ looping)
  ended : IsOver l.phase → l.once ≡ over
  drained : l.once ≡ over → holders l.pool.tasks ≡ 0

entered-over : (o : Once) → entered o ≡ over → o ≡ over
entered-over fresh e = cc
entered-over running e = cc
entered-over over e = refl

entered_stays : (o : Once) → o ≡ over → entered o ≡ over
entered_stays fresh e = cc
entered_stays running e = cc
entered_stays over e = refl

waited_for-holders : (ts : List Task) → waited_for ts ≡ holders ts
unfolding waited_for holders
waited_for-holders [] = refl
waited_for-holders (working job ∷ ts) = ap suc (waited_for-holders ts)
waited_for-holders (settled ∷ ts) = ap suc (waited_for-holders ts)
waited_for-holders (released ∷ ts) = waited_for-holders ts

module _ (env : Env) (s : Settings) where
  task_holders :
      {p : Pool} {w : World} {p' : Pool} {w' : World}
      → TaskStep env s p w p' w'
      → holders p'.tasks ≤ holders p.tasks
  unfolding holders
  task_holders (settles p w front back job e) = omega (
    arith,
    ap holders e,
    holders-append front (working job ∷ back),
    holders-append front (settled ∷ back),
  )
  task_holders (releases p w front back e) = omega (
    arith,
    ap holders e,
    holders-append front (settled ∷ back),
    holders-append front (released ∷ back),
  )
  task_holders (rests p w front back e) =
      let (c, sl, t) = rest_keeps env 0 s (record p { tasks = front ++ back }) w in
      omega (
        arith,
        ap holders t,
        ap holders e,
        holders-append front (released ∷ back),
        holders-append front back,
      )

  step-IsCalmed :
      {l : Life} {w : World} {l' : Life} {w' : World}
      → LifeStep env s l w l' w'
      → IsCalmed l
      → IsCalmed l'
  step-IsCalmed (cancels l w) c = record { left = c.left; ended = c.ended; drained = c.drained }
  step-IsCalmed (stops l w) c = record {
    left = c.left;
    ended = λ o. entered_stays l.once (c.ended o);
    drained = λ e. c.drained (entered-over l.once e);
  }
  step-IsCalmed (drains l w r none_left) c = record {
    left = c.left;
    ended = λ o. refl;
    drained = λ e. sym (waited_for-holders l.pool.tasks) ∙ none_left;
  }
  step-IsCalmed (polls l w e) c = absurd (c.left e)
  step-IsCalmed (beats l w b) c =
      let (k, sl, t) = beat_keeps env 0 s l.pool w in
      record { left = c.left; ended = c.ended; drained = λ o. ap holders t ∙ c.drained o }
  step-IsCalmed (works l w p' w' step) c = record {
    left = c.left;
    ended = c.ended;
    drained = λ o. (let k = c.drained o in omega (arith, task_holders step));
  }
  step-IsCalmed (sees_cancel l w e b) c = absurd (c.left e)
  step-IsCalmed (stopped l w e o) c = record { left = λ k. cc; ended = λ k. o; drained = c.drained }
  step-IsCalmed (sees_stop l w e b) c = absurd (c.left e)
  step-IsCalmed (unregisters l w cancelled_end e) c = record {
    left = λ k. cc;
    ended = λ k. c.ended (subst IsOver (sym e) tt);
    drained = c.drained;
  }
  step-IsCalmed (unregisters l w stopped_end e) c = record {
    left = λ k. cc;
    ended = λ k. absurd k;
    drained = c.drained;
  }
  step-IsCalmed (others l w w' o) c = c

  run-IsCalmed :
      {l : Life} {w : World} {l' : Life} {w' : World}
      → LifeRun env s l w l' w'
      → IsCalmed l
      → IsCalmed l'
  run-IsCalmed (stop l w) c = c
  run-IsCalmed (next l₀ l₁ l₂ w₀ w₁ w₂ step run) c = run-IsCalmed run (step-IsCalmed step c)

  shut_down_step : (p : Pool) (w : World) → PoolStep env s p w p (shut_down env s p w)
  unfolding shut_down perform
  shut_down_step p w = Steps.others p w _ (calls w (unregistering p.id) tt)

  -- To the pool and the tables a step of its life is a step of the pool, or nothing.
  pool_step :
      {l : Life} {w : World} {l' : Life} {w' : World}
      → LifeStep env s l w l' w'
      → PoolStep env s l.pool w l'.pool w' ⊎ ((l'.pool ≡ l.pool) × (w' ≡ w))
  pool_step (cancels l w) = inr (refl, refl)
  pool_step (stops l w) = inr (refl, refl)
  pool_step (drains l w r k) = inr (refl, refl)
  pool_step (polls l w e) = inl (Steps.polls l.pool w)
  pool_step (beats l w b) = inl (Steps.beats l.pool w)
  pool_step (works l w p' w' step) = inl (Steps.works l.pool p' w w' step)
  pool_step (sees_cancel l w e b) = inr (refl, refl)
  pool_step (stopped l w e k) = inr (refl, refl)
  pool_step (sees_stop l w e b) = inr (refl, refl)
  pool_step (unregisters l w e q) = inl (shut_down_step l.pool w)
  pool_step (others l w w' o) = inl (Steps.others l.pool w w' o)

  life_bound :
      (capacity : ℕ) {l : Life} {w : World} {l' : Life} {w' : World}
      → LifeRun env s l w l' w'
      → IsBounded capacity l.pool
      → IsBounded capacity l'.pool
  life_bound capacity (stop l w) b = b
  life_bound capacity (next l₀ l₁ l₂ w₀ w₁ w₂ step run) b =
      life_bound capacity run (elim (pool_step step) [
        | inl poolstep ↦ step_bound env capacity s poolstep b
        | inr (same, rest) ↦ subst (IsBounded capacity) (sym same) b
      ])

  no_holders : (ts : List Task) → holders ts ≡ 0 → All (λ t. t ≡ released) ts
  unfolding holders
  no_holders [] h = tt
  no_holders (working job ∷ ts) h = absurd (omega arith)
  no_holders (settled ∷ ts) h = absurd (omega arith)
  no_holders (released ∷ ts) h = (refl, no_holders ts h)

  -- A graceful shutdown loses no job: Start sees at the head of its loop that its context is
  -- cancelled, and calls Stop, before any other call of Stop has returned. Then, once Start is in its
  -- deferred functions or has returned, under any interleaving of the pool with its callers and with
  -- other processes, no slot is in use, and each goroutine that has not ended has run its handler, has
  -- called the service to record the outcome and has released its slot.
  pub start-drained :
      (hostname queue : String) (concurrency : ℤ) (w : World) {p : Pool} {seen l : Life}
      {w₁ w₂ : World}
      → (start env s hostname queue concurrency w).0 ≡ ok p
      → LifeRun env s (begins p) (start env s hostname queue concurrency w).1 seen w₁
      → seen.phase ≡ looping
      → seen.cancelled ≡ true
      → ¬ (seen.once ≡ over)
      → LifeRun env s (saw_cancel seen) w₁ l w₂
      → (l.phase ≡ leaving cancelled_end) ⊎ (l.phase ≡ returned cancelled_end)
      → (l.pool.slots ≡ 0) × All (λ t. t ≡ released) l.pool.tasks
  start-drained hostname queue concurrency w {p} {seen} {l} begun run at_head is_cancelled not_over
        rest over_now =
      let (first, positive) = start-IsBounded env s hostname queue concurrency w begun in
      let last =
        life_bound (pos_part concurrency) rest (life_bound (pos_part concurrency) run first) in
      let calmed = run-IsCalmed rest (record {
        left = λ k. cc;
        ended = λ o. absurd o;
        drained = λ e. absurd (not_over (entered-over seen.once e));
      }) in
      let is_over : IsOver l.phase = elim over_now [
        | inl e ↦ subst IsOver (sym e) tt
        | inr e ↦ subst IsOver (sym e) tt
      ] in
      let none_left : holders l.pool.tasks ≡ 0 = calmed.drained (calmed.ended is_over) in
      (last.held ∙ none_left, no_holders l.pool.tasks none_left)
