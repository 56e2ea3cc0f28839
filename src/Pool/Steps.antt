-- ===== src/Pool/Steps.antt =====
-- The interleavings of the goroutines of a pool, and of the other processes on the database.
use queue_ctl.Prelude.{String, ◌-◌, List, ◌∷◌, ◌++◌, ◌≡◌, some}
use queue_ctl.Domain.Job.{Job, Duration, dead_letter}
use queue_ctl.Store.{Env, World}
use queue_ctl.Repository.Jobs as Jobs
use queue_ctl.Repository.Jobs.Lookup.{row_of}
use queue_ctl.Repository.Workers as Workers
use queue_ctl.Dlq.Commands.{revive}
use queue_ctl.Service.Queue.{Settings}
use queue_ctl.Lifecycle.Histories.{Operation, perform, IsBounded}
use queue_ctl.Pool.{Pool, Task, working, settled, released, poll_and_dispatch, beat, settle, rest}

module _ (env : Env) (s : Settings) where
  -- What anybody else does: an operation of the service or of the dead letter queue; or the second
  -- part of one, of which the first part was a read any time before. Those are the write of Retry and
  -- Restore, of the job that they have read, and the DELETE of Delete. ReclaimOrphanedJobs may be one
  -- operation, or a PruneStale and then calls of HandleJobFailure.
  pub data Outside : World → World → Type 0 where
    calls : (w : World) (op : Operation) → IsBounded op → Outside w (perform env s op w)
    prunes : (w : World) (d : Duration) → Outside w (Workers.prune_stale env d w).1
    revives : (w : World) (text : String) (job : Job) → Outside w (revive env text job w).1
    removes : (w : World) (id : String) → Outside w (Jobs.delete env id w).1

  -- What was dead_letter when it was read still is: the row of a job that is revived, if it has the
  -- version that was read, and the row that is deleted, if there is one.
  abbrev pub IsGuarded : {w w' : World} → Outside w w' → Type 0
  IsGuarded (calls w op b) = Unit
  IsGuarded (prunes w d) = Unit
  IsGuarded (revives w text job) =
      (row : Job)
      → row_of job.id w ≡ some row
      → row.updated_at ≡ job.updated_at
      → row.status ≡ dead_letter
  IsGuarded (removes w id) = (row : Job) → row_of id w ≡ some row → row.status ≡ dead_letter

  -- One step of a goroutine of executeWorker.
  pub data TaskStep : Pool → World → Pool → World → Type 0 where
    settles :
        (p : Pool) (w : World) (front back : List Task) (job : Job)
        → p.tasks ≡ front ++ working job ∷ back
        → TaskStep p w (record p { tasks = front ++ settled ∷ back }) (settle env s p job w)
    releases :
        (p : Pool) (w : World) (front back : List Task)
        → p.tasks ≡ front ++ settled ∷ back
        → TaskStep p w (record p { slots = p.slots - 1; tasks = front ++ released ∷ back }) w
    rests :
        (p : Pool) (w : World) (front back : List Task)
        → p.tasks ≡ front ++ released ∷ back
        → TaskStep p w
            (rest env s (record p { tasks = front ++ back }) w).0
            (rest env s (record p { tasks = front ++ back }) w).1

  -- One step. In the last one it is somebody else's.
  pub data PoolStep : Pool → World → Pool → World → Type 0 where
    polls :
        (p : Pool) (w : World)
        → PoolStep p w (poll_and_dispatch env p w).0 (poll_and_dispatch env p w).1
    beats : (p : Pool) (w : World) → PoolStep p w (beat env p w).0 (beat env p w).1
    works : (p p' : Pool) (w w' : World) → TaskStep p w p' w' → PoolStep p w p' w'
    others : (p : Pool) (w w' : World) → Outside w w' → PoolStep p w p w'

  -- Any number of steps.
  pub data PoolRun : Pool → World → Pool → World → Type 0 where
    stop : (p : Pool) (w : World) → PoolRun p w p w
    next :
        (p₀ p₁ p₂ : Pool) (w₀ w₁ w₂ : World)
        → PoolStep p₀ w₀ p₁ w₁
        → PoolRun p₁ w₁ p₂ w₂
        → PoolRun p₀ w₀ p₂ w₂

  abbrev pub IsGuardedStep :
      {p : Pool} {w : World} {p' : Pool} {w' : World} → PoolStep p w p' w' → Type 0
  IsGuardedStep (others p w w' o) = IsGuarded o
  IsGuardedStep _ = Unit

  abbrev pub IsGuardedRun :
      {p : Pool} {w : World} {p' : Pool} {w' : World} → PoolRun p w p' w' → Type 0
  IsGuardedRun (stop p w) = Unit
  IsGuardedRun (next p₀ p₁ p₂ w₀ w₁ w₂ step run) = IsGuardedStep step × IsGuardedRun run
