-- ===== src/Pool/Contract.antt =====
-- What a pool does to the jobs, under any interleaving.
use queue_ctl.Prelude.{
  ◌+◌, ◌<◌, ◌^◌, ◌≡◌, refl, String, Option, none, some, arith, Bool-cases, inl, inr, ltb,
}
use queue_ctl.Prelude.Int.{pos_part}
use queue_ctl.Prelude.Text.{◌^^◌}
use queue_ctl.Domain.Errors.{Result, ok, err, msg}
use queue_ctl.Domain.Job.{Job}
use queue_ctl.Domain.Worker.{Worker, WorkerStatus, active, idle}
use queue_ctl.Domain.Clocked.{set_status, heartbeat}
use queue_ctl.Store.{Env, World, Outcome, succeeds, fails, panics}
use queue_ctl.Service.Queue.{Settings}
use queue_ctl.Service.Handlers.{execute_job}
use queue_ctl.Service.Fetch.{fetch_next_job}
use queue_ctl.Lifecycle.Table.{Refines, Refines-refl, Refines-same}
use queue_ctl.Lifecycle.Outcomes.{success_Refines, failure_Refines}
use queue_ctl.Lifecycle.Fetch.{fetch_Refines}
use queue_ctl.Lifecycle.Histories.{perform-Refines, register_jobs, prune_stale_jobs}
use queue_ctl.Lifecycle.Commands.{revive_later-Refines, delete-Refines}
use queue_ctl.Pool.{
  Pool, mark, with_node, polled, poll_and_dispatch, beat, settle, record_outcome, rest,
}
use queue_ctl.Pool.Steps.{
  TaskStep, settles, releases, rests, PoolStep, polls, beats, works, others, Outside, calls, prunes,
  revives, removes, IsGuarded, IsGuardedStep,
}

module _ (env : Env) (s : Settings) where
  with_node_jobs :
      (p : Pool) (r : Result Worker) (w : World) → (with_node env p (r, w)).1.db.jobs ≡ w.db.jobs
  with_node_jobs p (err e) w = refl
  with_node_jobs p (ok node) w = register_jobs env s node w

  mark_jobs :
      (status : WorkerStatus) (p : Pool) (w : World) → (mark env status p w).1.db.jobs ≡ w.db.jobs
  unfolding mark set_status
  mark_jobs status p w = ground (
    arith,
    register_jobs env s (record p.node { status = status; last_heartbeat = env.clock w.reads })
        (record w { reads = w.reads + 1 }),
  )

  polled_jobs :
      (p : Pool) (r : Result (Option Job)) (w : World) → (polled env p (r, w)).1.db.jobs ≡ w.db.jobs
  polled_jobs p (err e) w = refl
  polled_jobs p (ok none) w = refl
  polled_jobs p (ok (some job)) w = mark_jobs active p w

  poll-Refines : (p : Pool) (w : World) → Refines w.db.jobs (poll_and_dispatch env p w).1.db.jobs
  unfolding poll_and_dispatch
  poll-Refines p w =
      let r = fetch_next_job env p.queue p.id w in
      let fetched : Refines w.db.jobs (polled env p r).1.db.jobs =
        rw (polled_jobs p r.0 r.1) (fetch_Refines env p.queue p.id w) in
      elim (Bool-cases (ltb p.slots p.capacity)) [
        | inl e ↦ rw e fetched
        | inr e ↦ rw e (Refines-refl w.db.jobs)
      ]

  beat-Refines : (p : Pool) (w : World) → Refines w.db.jobs (beat env p w).1.db.jobs
  unfolding beat heartbeat
  beat-Refines p w = let r = heartbeat env p.node w in Refines-same (with_node_jobs p r.0 r.1)

  rest-Refines : (p : Pool) (w : World) → Refines w.db.jobs (rest env s p w).1.db.jobs
  unfolding rest
  rest-Refines p w = Refines-same (ground (arith, mark_jobs idle p w))

  record_outcome-Refines :
      (id : String) (job : Job) (o : Outcome) (w : World)
      → Refines w.db.jobs (record_outcome env s id job o w).db.jobs
  record_outcome-Refines id job succeeds w = success_Refines env id w job
  record_outcome-Refines id job (fails e) w = failure_Refines env id w s e job
  record_outcome-Refines id job (panics text) w =
      failure_Refines env id w s (msg ("handler panic: " ^^ text)) job

  settle-Refines :
      (p : Pool) (job : Job) (w : World) → Refines w.db.jobs (settle env s p job w).db.jobs
  unfolding settle
  settle-Refines p job w = record_outcome-Refines p.id job (execute_job job w) w

  pub task-Refines :
      {p : Pool} {w : World} {p' : Pool} {w' : World}
      → TaskStep env s p w p' w'
      → Refines w.db.jobs w'.db.jobs
  task-Refines (settles p w front back job e) = settle-Refines p job w
  task-Refines (releases p w front back e) = Refines-refl w.db.jobs
  task-Refines (rests p w front back e) = rest-Refines _ w

  outside-Refines :
      {w w' : World} (o : Outside env s w w')
      → IsGuarded env s o
      → pos_part s.max_retries + 1 < 2 ^ 63
      → Refines w.db.jobs w'.db.jobs
  outside-Refines (calls w op b) g k = perform-Refines env s op w b k
  outside-Refines (prunes w d) g k = Refines-same (prune_stale_jobs env s d w)
  outside-Refines (revives w text job) g k = revive_later-Refines env text job w g
  outside-Refines (removes w id) g k = delete-Refines env id w g

  pub step-Refines :
      {p : Pool} {w : World} {p' : Pool} {w' : World} (step : PoolStep env s p w p' w')
      → IsGuardedStep env s step
      → pos_part s.max_retries + 1 < 2 ^ 63
      → Refines w.db.jobs w'.db.jobs
  step-Refines (polls p w) g k = poll-Refines p w
  step-Refines (beats p w) g k = beat-Refines p w
  step-Refines (works p p' w w' step) g k = task-Refines step
  step-Refines (others p w w' o) g k = outside-Refines o g k
