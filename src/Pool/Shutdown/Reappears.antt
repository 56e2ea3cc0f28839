-- ===== src/Pool/Shutdown/Reappears.antt =====
-- What the last goroutine of a cancelled pool does to the workers table after Start has returned.
use queue_ctl.Prelude.{◌-◌, ◌≡◌, refl, true, [], ◌∷◌}
use queue_ctl.Domain.Job.{Job}
use queue_ctl.Domain.Worker.{Worker}
use queue_ctl.Store.{Env, World}
use queue_ctl.Repository.Workers as Workers
use queue_ctl.Service.Queue.{Settings}
use queue_ctl.Pool.{Pool, working, settled, released, poll_and_dispatch, settle, shut_down}
use queue_ctl.Pool.Steps.{settles, releases}
use queue_ctl.Pool.Shutdown.{
  waited_for, Life, over, saw_cancel, leaving, returned, cancelled_end, begins, LifeStep, cancels,
  drains, polls, works, stopped, unregisters, LifeRun, stop, next,
}

module _ (env : Env) (s : Settings) where
  pub run_append :
      {l₀ l₁ l₂ : Life} {w₀ w₁ w₂ : World}
      → LifeRun env s l₀ w₀ l₁ w₁
      → LifeRun env s l₁ w₁ l₂ w₂
      → LifeRun env s l₀ w₀ l₂ w₂
  run_append (stop l w) r = r
  run_append {l₂ = l} {w₂ = w} (next l₀ l₁ l₂ w₀ w₁ w₂ step q) r =
      next l₀ l₁ l w₀ w₁ w step (run_append q r)

  one_step : {l l' : Life} {w w' : World} → LifeStep env s l w l' w' → LifeRun env s l w l' w'
  one_step {l} {l'} {w} {w'} step = next l l' l' w w' w' step (stop l' w')

  -- A pool whose first poll takes a job, and whose context is cancelled while the goroutine runs.
  module _ (p : Pool) (w : World) (job : Job) where
    abbrev busy : Pool
    busy = (poll_and_dispatch env p w).0

    abbrev recorded : Pool
    recorded = record busy { tasks = settled ∷ [] }

    abbrev pub recorded_world : World
    recorded_world = settle env s busy job (poll_and_dispatch env p w).1

    abbrev freed : Pool
    freed = record recorded { slots = recorded.slots - 1; tasks = released ∷ [] }

    -- Start is about to see the cancellation.
    abbrev pub seen : Life
    seen = record (begins p) { pool = recorded; cancelled = true }

    -- Start has returned; the goroutine has not looked yet whether the node is idle.
    abbrev pub left : Life
    left = record { pool = freed; cancelled = true; once = over; phase = returned cancelled_end }

    abbrev pub left_world : World
    left_world = shut_down env s freed recorded_world

    pub until_seen : busy.tasks ≡ working job ∷ [] → LifeRun env s (begins p) w seen recorded_world
    until_seen takes =
        let l₁ = record (begins p) { pool = busy } in
        let w₁ = (poll_and_dispatch env p w).1 in
        run_append (one_step (polls (begins p) w refl)) (
          run_append (one_step (cancels l₁ w₁)) (
            one_step (
              works (record l₁ { cancelled = true }) w₁ recorded recorded_world
                (settles busy w₁ [] [] job takes))))

    pub until_left : LifeRun env s (saw_cancel seen) recorded_world left left_world
    unfolding waited_for
    until_left =
        let l₁ = record (saw_cancel seen) { pool = freed } in
        let l₂ = record l₁ { once = over } in
        run_append
          (one_step (
            works (saw_cancel seen) recorded_world freed recorded_world
              (releases recorded recorded_world [] [] refl)))
          (run_append (one_step (drains l₁ recorded_world refl refl)) (
            run_append (one_step (stopped l₂ recorded_world refl refl)) (
              one_step (
                unregisters (record l₂ { phase = leaving cancelled_end }) recorded_world
                  cancelled_end refl))))
