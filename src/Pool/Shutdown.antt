-- ===== src/Pool/Shutdown.antt =====
-- internal/worker/worker.go: how the loop of Start ends, and Stop. The context may be cancelled, and
-- Stop may be called, at any time. A select whose cases are ready may take any of them, so that the loop
-- may poll after both.
pub mod Drained
pub mod Reappears
use queue_ctl.Prelude.{ℕ, suc, List, [], ◌∷◌, Bool, true, false, ◌≡◌}
use queue_ctl.Store.{Env, World}
use queue_ctl.Service.Queue.{Settings}
use queue_ctl.Pool.{Pool, Task, working, settled, released, poll_and_dispatch, beat, shut_down}
use queue_ctl.Pool.Steps.{TaskStep, Outside}

-- The sync.Once of Stop: its function has not been called, or it has closed stopChan and waits for the
-- wait group, or it has returned.
pub data Once : Type 0 where
  fresh running over : Once

-- A call of Stop: the first one calls the function; a call while it runs waits until it has returned,
-- and a later one returns at once.
abbrev pub entered : Once → Once
entered fresh = running
entered running = running
entered over = over

-- What Start returns: the error of its context, or nil after a call of Stop.
pub data End : Type 0 where
  cancelled_end stopped_end : End

-- Where Start is: in its loop; in the Stop that it calls on cancellation; in its deferred functions,
-- where it waits for the heartbeat goroutine; or it has returned.
pub data Phase : Type 0 where
  looping waiting : Phase
  leaving returned : End → Phase

-- What `w.wg` counts: the goroutines that have not called Done, which each does right after it has
-- released its slot and before it looks whether the node is idle.
unfoldable pub waited_for : List Task → ℕ
waited_for [] = 0
waited_for (working job ∷ ts) = suc (waited_for ts)
waited_for (settled ∷ ts) = suc (waited_for ts)
waited_for (released ∷ ts) = waited_for ts

-- A pool whose Start runs, and whether its context is cancelled.
pub record Life : Type 0 where
  pub pool : Pool
  pub cancelled : Bool
  pub once : Once
  pub phase : Phase

-- A pool that Start has registered, at the head of its loop.
abbrev pub begins : Pool → Life
begins p = record { pool = p; cancelled = false; once = fresh; phase = looping }

-- The case of ctx.Done: Start calls Stop.
abbrev pub saw_cancel : Life → Life
saw_cancel l = record l { once = entered l.once; phase = waiting }

-- The heartbeat goroutine ends before the deferred functions go on.
abbrev pub IsBeating : Phase → Type 0
IsBeating (returned e) = ⊥
IsBeating _ = Unit

module _ (env : Env) (s : Settings) where
  pub data LifeStep : Life → World → Life → World → Type 0 where
    cancels : (l : Life) (w : World) → LifeStep l w (record l { cancelled = true }) w
    -- a caller of Stop
    stops : (l : Life) (w : World) → LifeStep l w (record l { once = entered l.once }) w
    -- `w.wg.Wait()` returns when each goroutine has called Done, and the function of the Once with it
    drains :
        (l : Life) (w : World)
        → l.once ≡ running
        → waited_for l.pool.tasks ≡ 0
        → LifeStep l w (record l { once = over }) w
    polls :
        (l : Life) (w : World)
        → l.phase ≡ looping
        → LifeStep l w
            (record l { pool = (poll_and_dispatch env l.pool w).0 })
            (poll_and_dispatch env l.pool w).1
    beats :
        (l : Life) (w : World)
        → IsBeating l.phase
        → LifeStep l w (record l { pool = (beat env l.pool w).0 }) (beat env l.pool w).1
    works :
        (l : Life) (w : World) (p' : Pool) (w' : World)
        → TaskStep env s l.pool w p' w'
        → LifeStep l w (record l { pool = p' }) w'
    sees_cancel :
        (l : Life) (w : World)
        → l.phase ≡ looping
        → l.cancelled ≡ true
        → LifeStep l w (saw_cancel l) w
    -- the Stop that Start has called returns
    stopped :
        (l : Life) (w : World)
        → l.phase ≡ waiting
        → l.once ≡ over
        → LifeStep l w (record l { phase = leaving cancelled_end }) w
    -- the case of stopChan, which is closed once Stop has been called, and waits for no goroutine
    sees_stop :
        (l : Life) (w : World)
        → l.phase ≡ looping
        → ¬ (l.once ≡ fresh)
        → LifeStep l w (record l { phase = leaving stopped_end }) w
    unregisters :
        (l : Life) (w : World) (e : End)
        → l.phase ≡ leaving e
        → LifeStep l w (record l { phase = returned e }) (shut_down env s l.pool w)
    others : (l : Life) (w w' : World) → Outside env s w w' → LifeStep l w l w'

  -- Any number of steps.
  pub data LifeRun : Life → World → Life → World → Type 0 where
    stop : (l : Life) (w : World) → LifeRun l w l w
    next :
        (l₀ l₁ l₂ : Life) (w₀ w₁ w₂ : World)
        → LifeStep l₀ w₀ l₁ w₁
        → LifeRun l₁ w₁ l₂ w₂
        → LifeRun l₀ w₀ l₂ w₂
