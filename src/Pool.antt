-- ===== src/Pool.antt =====
-- internal/worker/worker.go: the pool of workers. Its loop polls for a job in a free slot of the
-- semaphore and starts a goroutine for it; a goroutine runs the handler, records the outcome, and
-- releases its slot. Stopping it and the cancellation of its context are in Pool/Shutdown.antt.
pub mod Steps
pub mod Bound
pub mod Contract
pub mod Shutdown
pub mod Progress
use queue_ctl.Prelude.{
  ℕ, zero, suc, ◌+◌, ◌-◌, String, Bool, true, false, not, ◌&&◌, Option, none, some, List, [], ◌∷◌,
  ltb, eqb, if◌then◌else◌,
}
use queue_ctl.Prelude.Int.{ℤ, pos, pos_part}
use queue_ctl.Prelude.Text.{◌^^◌}
use queue_ctl.Domain.Errors.{Error, Result, ok, err, msg}
use queue_ctl.Domain.Job.{Job}
use queue_ctl.Domain.Worker.{Worker, WorkerStatus, active, idle, worker_status_eq}
use queue_ctl.Domain.Clocked.{new_worker, set_status, heartbeat, or_default}
use queue_ctl.Store.{
  Env, World, Exec, Outcome, succeeds, fails, panics, pure, wrapping, new_id, ◌>>=◌, ◌>>◌,
}
use queue_ctl.Service.Queue.{Settings, register_worker, unregister_worker}
use queue_ctl.Service.Handlers.{execute_job}
use queue_ctl.Service.Fetch.{fetch_next_job}
use queue_ctl.Service.Outcomes.{handle_job_success, handle_job_failure}
use queue_ctl.Service.Reclaim.{reclaim_orphaned_jobs}

-- A goroutine of executeWorker: its job is still to be run and recorded; or it holds its slot and is
-- about to release it; or it has released it and looks whether the node is idle.
pub data Task : Type 0 where
  working : Job → Task
  settled released : Task

-- workerPool, and the node that Start creates. `slots` is len(sem), `capacity` is cap(sem).
pub record Pool : Type 0 where
  pub id : String
  pub queue : String
  pub capacity : ℕ
  pub slots : ℕ
  pub node : Worker
  pub tasks : List Task

module _ (env : Env) where
  abbrev pub with_node : Pool → Result Worker × World → Pool × World
  with_node p (err e, w) = (p, w)
  with_node p (ok node, w) = (record p { node = node }, (register_worker env (some node) w).1)

  -- `node.SetStatus(status)` and a RegisterWorker whose error is dropped, unless the node has the
  -- status already
  unfoldable pub mark : WorkerStatus → Pool → World → Pool × World
  unfolding worker_status_eq
  mark status p w =
      if worker_status_eq p.node.status status
      then (p, w)
      else with_node p (set_status env p.node status w)

  abbrev add_task : Job → Pool × World → Pool × World
  add_task job (p, w) = (record p { slots = p.slots + 1; tasks = working job ∷ p.tasks }, w)

  abbrev pub polled : Pool → Result (Option Job) × World → Pool × World
  polled p (err e, w) = (p, w)
  polled p (ok none, w) = (p, w)
  polled p (ok (some job), w) = add_task job (mark active p w)

  -- pollAndDispatch, which only the loop of Start calls
  unfoldable pub poll_and_dispatch : Pool → World → Pool × World
  poll_and_dispatch p w =
      if ltb p.slots p.capacity then polled p (fetch_next_job env p.queue p.id w) else (p, w)

  -- the heartbeat goroutine
  unfoldable pub beat : Pool → World → Pool × World
  beat p w = with_node p (heartbeat env p.node w)

  module _ (s : Settings) where
    abbrev pub record_outcome : String → Job → Outcome → World → World
    record_outcome id job succeeds w = (handle_job_success env (some job) id w).world
    record_outcome id job (fails e) w = (handle_job_failure env s (some job) id (some e) w).world
    record_outcome id job (panics text) w =
        (handle_job_failure env s (some job) id (some (msg ("handler panic: " ^^ text))) w).world

    -- executeWorker up to the release of the slot: the errors of recording are only logged
    unfoldable pub settle : Pool → Job → World → World
    settle p job w = record_outcome p.id job (execute_job job w) w

    -- `if len(w.sem) == 0 && node.GetStatus() != idle`, the end of executeWorker
    unfoldable pub rest : Pool → World → Pool × World
    rest p w = if eqb p.slots 0 then mark idle p w else (p, w)

    -- what Start does before its loop, where the hostname is what os.Hostname says. The error of
    -- ReclaimOrphanedJobs is only logged. NewWorkerPool panics on a negative concurrency, which no
    -- checked configuration has.
    unfoldable pub start : String → String → ℤ → Exec Pool
    start hostname queue concurrency = do
      id ← new_id env
      node ←
          wrapping "failed to initialize worker registration info"
            (new_worker env id hostname (or_default queue) concurrency)
      idle_node ← set_status env node idle
      wrapping "failed to register worker node at startup" (register_worker env (some idle_node))
      (λ w. pure tt (reclaim_orphaned_jobs env s w).1)
      pure (record {
        id = id;
        queue = or_default queue;
        capacity = pos_part concurrency;
        slots = 0;
        node = idle_node;
        tasks = [];
      })

    -- what Start defers
    unfoldable pub shut_down : Pool → World → World
    shut_down p w = (unregister_worker env p.id w).1
