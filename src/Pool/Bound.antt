-- ===== src/Pool/Bound.antt =====
-- The semaphore bounds the goroutines that run jobs.
use queue_ctl.Prelude.{
  String, ℕ, suc, ◌+◌, ◌-◌, ◌<◌, ◌≤◌, ◌≡◌, refl, ap, sym, ◌∙◌, Option, none, some, List, [], ◌∷◌,
  ◌++◌, arith, ltb, inl, inr, Bool-cases,
}
use queue_ctl.Prelude.Int.{ℤ, pos, negsuc, pos_part, ◌≤ℤ◌}
use queue_ctl.Domain.Errors.{Result, ok, err}
use queue_ctl.Domain.Job.{Job}
use queue_ctl.Domain.Worker.{WorkerStatus, active, idle}
use queue_ctl.Domain.Clocked.{new_worker, heartbeat}
use queue_ctl.Store.{Env, World}
use queue_ctl.Service.Queue.{Settings}
use queue_ctl.Service.Fetch.{fetch_next_job}
use queue_ctl.Pool.{
  Pool, Task, working, settled, released, mark, polled, poll_and_dispatch, beat, rest, start,
}
use queue_ctl.Pool.Steps.{
  TaskStep, settles, releases, rests, PoolStep, polls, beats, works, others, PoolRun, stop, next,
}

-- The goroutines that hold a slot.
unfoldable pub holders : List Task → ℕ
holders [] = 0
holders (working job ∷ ts) = suc (holders ts)
holders (settled ∷ ts) = suc (holders ts)
holders (released ∷ ts) = holders ts

pub holders-append :
    (front back : List Task) → holders (front ++ back) ≡ holders front + holders back
unfolding holders
holders-append [] back = omega arith
holders-append (working job ∷ ts) back = ground (arith, holders-append ts back)
holders-append (settled ∷ ts) back = ground (arith, holders-append ts back)
holders-append (released ∷ ts) back = holders-append ts back

below_positive : (n : ℕ) (c : ℤ) → pos 0 ≤ℤ c → n ≤ pos_part c → pos n ≤ℤ c
below_positive n (pos c) h k = omega arith
below_positive n (negsuc c) h k = absurd (omega arith)

-- The slots in use are those of the goroutines, and no more than there are.
pub record IsBounded (capacity : ℕ) (p : Pool) : Type 0 where
  pub same_capacity : p.capacity ≡ capacity
  pub held : p.slots ≡ holders p.tasks
  pub bounded : p.slots ≤ capacity

module _ (env : Env) where
  pub mark_keeps :
      (status : WorkerStatus) (p : Pool) (w : World)
      → ((mark env status p w).0.capacity ≡ p.capacity)
        × ((mark env status p w).0.slots ≡ p.slots)
        × ((mark env status p w).0.tasks ≡ p.tasks)
  unfolding mark
  mark_keeps status p w = (ground arith, ground arith, ground arith)

  module _ (capacity : ℕ) where
    -- What leaves the capacity, the slots and the goroutines alone.
    same_bound :
        {p p' : Pool}
        → (p'.capacity ≡ p.capacity) × (p'.slots ≡ p.slots) × (p'.tasks ≡ p.tasks)
        → IsBounded capacity p
        → IsBounded capacity p'
    same_bound (c, sl, t) b = record {
      same_capacity = c ∙ b.same_capacity;
      held = sl ∙ b.held ∙ ap holders (sym t);
      bounded = rw sl b.bounded;
    }

    add_bound :
        (job : Job) {p p' : Pool}
        → (p'.capacity ≡ p.capacity) × (p'.slots ≡ p.slots) × (p'.tasks ≡ p.tasks)
        → p.slots < capacity
        → IsBounded capacity p
        → IsBounded capacity (record p' { slots = p'.slots + 1; tasks = working job ∷ p'.tasks })
    unfolding holders
    add_bound job {p} {p'} (c, sl, t) free b =
        let old : IsBounded capacity p' = same_bound (c, sl, t) b in
        let h : p'.slots ≡ holders p'.tasks = old.held in
        record {
          same_capacity = old.same_capacity;
          held = ground arith;
          bounded = rw sl (omega arith);
        }

    polled_bound :
        (p : Pool) (r : Result (Option Job)) (w : World)
        → p.slots < capacity
        → IsBounded capacity p
        → IsBounded capacity (polled env p (r, w)).0
    polled_bound p (err e) w free b = b
    polled_bound p (ok none) w free b = b
    polled_bound p (ok (some job)) w free b = add_bound job (mark_keeps active p w) free b

    poll_bound :
        (p : Pool) (w : World)
        → IsBounded capacity p
        → IsBounded capacity (poll_and_dispatch env p w).0
    unfolding poll_and_dispatch
    poll_bound p w b = elim (Bool-cases (ltb p.slots p.capacity)) [
      | inl e ↦
          let r = fetch_next_job env p.queue p.id w in
          let c = b.same_capacity in rw e (polled_bound p r.0 r.1 (ground arith) b)
      | inr e ↦ rw e b
    ]

    module _ (s : Settings) where
      pub rest_keeps :
          (p : Pool) (w : World)
          → ((rest env s p w).0.capacity ≡ p.capacity)
            × ((rest env s p w).0.slots ≡ p.slots)
            × ((rest env s p w).0.tasks ≡ p.tasks)
      unfolding rest
      rest_keeps p w =
          let (c, sl, t) = mark_keeps idle p w in (ground arith, ground arith, ground arith)

      pub beat_keeps :
          (p : Pool) (w : World)
          → ((beat env p w).0.capacity ≡ p.capacity)
            × ((beat env p w).0.slots ≡ p.slots)
            × ((beat env p w).0.tasks ≡ p.tasks)
      unfolding beat heartbeat
      beat_keeps p w = (refl, refl, refl)

      -- A goroutine goes on to its next part.
      moved_bound :
          (p : Pool) (front back : List Task) (t : Task) (n : ℕ) (tasks : List Task)
          → p.tasks ≡ front ++ t ∷ back
          → p.slots + holders tasks ≡ n + holders (front ++ t ∷ back)
          → n ≤ p.slots
          → IsBounded capacity p
          → IsBounded capacity (record p { slots = n; tasks = tasks })
      moved_bound p front back t n tasks e balance less b =
          let h : p.slots ≡ holders (front ++ t ∷ back) = b.held ∙ ap holders e in
          let top = b.bounded in
          record { same_capacity = b.same_capacity; held = omega arith; bounded = omega arith }

      task_bound :
          {p : Pool} {w : World} {p' : Pool} {w' : World}
          → TaskStep env s p w p' w'
          → IsBounded capacity p
          → IsBounded capacity p'
      unfolding holders
      task_bound (settles p w front back job e) b =
          moved_bound p front back (working job) p.slots (front ++ settled ∷ back) e
            (omega (
              arith,
              holders-append front (working job ∷ back),
              holders-append front (settled ∷ back),
            ))
            (omega arith) b
      task_bound (releases p w front back e) b =
          let h : p.slots ≡ holders (front ++ settled ∷ back) = b.held ∙ ap holders e in
          moved_bound p front back settled (p.slots - 1) (front ++ released ∷ back) e
            (omega (
              arith,
              h,
              holders-append front (settled ∷ back),
              holders-append front (released ∷ back),
            ))
            (omega arith) b
      task_bound (rests p w front back e) b =
          same_bound (rest_keeps (record p { tasks = front ++ back }) w) (
            moved_bound p front back released p.slots (front ++ back) e
              (omega (arith, holders-append front (released ∷ back), holders-append front back))
              (omega arith) b)

      pub step_bound :
          {p : Pool} {w : World} {p' : Pool} {w' : World}
          → PoolStep env s p w p' w'
          → IsBounded capacity p
          → IsBounded capacity p'
      step_bound (polls p w) b = poll_bound p w b
      step_bound (beats p w) b = same_bound (beat_keeps p w) b
      step_bound (works p p' w w' step) b = task_bound step b
      step_bound (others p w w' o) b = b

      pub run_bound :
          {p : Pool} {w : World} {p' : Pool} {w' : World}
          → PoolRun env s p w p' w'
          → IsBounded capacity p
          → IsBounded capacity p'
      run_bound (stop p w) b = b
      run_bound (next p₀ p₁ p₂ w₀ w₁ w₂ step run) b = run_bound run (step_bound step b)

  pub start_ok :
      (s : Settings) (hostname queue : String) (concurrency : ℤ) (w : World) {p : Pool}
      → (start env s hostname queue concurrency w).0 ≡ ok p
      → (p.capacity ≡ pos_part concurrency)
        × (p.slots ≡ 0)
        × (p.tasks ≡ [])
        × (pos 0 ≤ℤ concurrency)
  unfolding start new_worker
  start_ok s hostname queue concurrency w h =
      (ground arith, ground arith, ground arith, ground arith)

  -- At the head of its loop a pool has no goroutine.
  pub start-IsBounded :
      (s : Settings) (hostname queue : String) (concurrency : ℤ) (w : World) {p : Pool}
      → (start env s hostname queue concurrency w).0 ≡ ok p
      → IsBounded (pos_part concurrency) p × (pos 0 ≤ℤ concurrency)
  unfolding holders
  start-IsBounded s hostname queue concurrency w h =
      let (c, sl, t, positive) = start_ok s hostname queue concurrency w h in
      (
        record { same_capacity = c; held = sl ∙ ap holders (sym t); bounded = rw sl (omega arith) },
        positive,
      )

  -- If Start gets as far as its loop, then under any interleaving of its polls, its goroutines and the
  -- other processes the slots in use are those of the goroutines that have not released one, and they
  -- are never more than the concurrency of the configuration.
  pub start-bound :
      (s : Settings) (hostname queue : String) (concurrency : ℤ) (w : World) {p p' : Pool}
      {w' : World}
      → (start env s hostname queue concurrency w).0 ≡ ok p
      → PoolRun env s p (start env s hostname queue concurrency w).1 p' w'
      → (p'.slots ≡ holders p'.tasks) × (pos p'.slots ≤ℤ concurrency)
  unfolding holders
  start-bound s hostname queue concurrency w {p} {p'} h run =
      let (first, positive) = start-IsBounded s hostname queue concurrency w h in
      let last = run_bound (pos_part concurrency) s run first in
      (last.held, below_positive p'.slots concurrency positive last.bounded)
