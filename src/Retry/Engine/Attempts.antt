-- ===== src/Retry/Engine/Attempts.antt =====
-- How often a job that always fails is tried.
use queue_ctl.Prelude.{
  ℕ, zero, suc, ◌+◌, ◌^◌, ◌<◌, ◌≤◌, ◌≡◌, refl, ap, ◌∙◌, true, false, List, [], ◌∷◌, arith, length,
  if◌then◌else◌,
}
use queue_ctl.Prelude.Int.{pos, ◌+ℤ◌, wrap64_next}
use queue_ctl.Domain.Errors.{Error, Result, ok, err}
use queue_ctl.Domain.Job.{Job, pending}
use queue_ctl.Store.{Env, World}
use queue_ctl.Retry.Backoff.{Backoff, calculate}
use queue_ctl.Retry.Engine.{Verdict, counted, handle_failure}

-- One more failure is counted, while the count is below the largest int64.
pub counted_next :
    (job : Job) (e : Error) (n : ℕ)
    → job.retries_count ≡ pos n
    → n + 1 < 2 ^ 63
    → (counted job e).retries_count ≡ pos (n + 1)
unfolding counted
counted_next job e n c h = rw c (wrap64_next n h)

counted_max : (job : Job) (e : Error) → (counted job e).max_retries ≡ job.max_retries
unfolding counted
counted_max job e = refl

module _ (env : Env) (b : Backoff) where
  -- The job of a failure that is to be retried: pending again, and due after the delay.
  abbrev pub rescheduled : Job → Error → World → Job
  rescheduled job e w = record (counted job e) {
    status = pending;
    run_at = env.clock w.reads +ℤ calculate env.int64_overflow b (counted job e).retries_count;
  }

  pub handle_failure_retries :
      (job : Job) (e : Error) (w : World) (n max : ℕ)
      → job.retries_count ≡ pos n
      → job.max_retries ≡ pos max
      → n < max
      → max < 2 ^ 63
      → handle_failure env b job e w ≡ (
        ok (record {
          job = rescheduled job e w;
          delay = calculate env.int64_overflow b (counted job e).retries_count;
          should_retry = true;
        }),
        record w { reads = w.reads + 1 },
      )
  unfolding handle_failure
  handle_failure_retries job e w n max c m h k =
      ground (arith, counted_next job e n c (omega arith), counted_max job e)

  pub handle_failure_gives_up :
      (job : Job) (e : Error) (w : World) (n max : ℕ)
      → job.retries_count ≡ pos n
      → job.max_retries ≡ pos max
      → max ≤ n
      → n + 1 < 2 ^ 63
      → handle_failure env b job e w
        ≡ (ok (record { job = counted job e; delay = pos 0; should_retry = false }), w)
  unfolding handle_failure
  handle_failure_gives_up job e w n max c m h k =
      ground (arith, counted_next job e n c (omega arith), counted_max job e)

  -- The times that a job is run whose runs end in the given errors, until it is given up.
  abbrev pub after_verdict : Result Verdict → (Job → ℕ) → ℕ
  after_verdict (err e) more = 1
  after_verdict (ok v) more = if v.should_retry then suc (more v.job) else 1

  pub executions : List Error → Job → World → ℕ
  executions [] job w = 0
  executions (e ∷ es) job w =
      let (r, w') = handle_failure env b job e w in after_verdict r (λ job'. executions es job' w')

  executions_from :
      (es : List Error) (job : Job) (w : World) (n left max : ℕ)
      → job.retries_count ≡ pos n
      → job.max_retries ≡ pos max
      → max ≡ n + left
      → max + 1 < 2 ^ 63
      → left < length es
      → executions es job w ≡ suc left
  unfolding executions
  executions_from [] job w n left max c m sum h k = absurd (omega arith)
  executions_from (e ∷ es) job w n zero max c m sum h k =
      rw (handle_failure_gives_up job e w n max c m (omega arith) (omega arith))
  executions_from (e ∷ es) job w n (suc left) max c m sum h k =
      let t = rescheduled job e w in
      let rest =
        executions_from es t (record w { reads = w.reads + 1 }) (n + 1) left max
          (counted_next job e n c (omega arith)) (counted_max job e ∙ m) (omega arith) h
          (omega arith) in
      rw (handle_failure_retries job e w n max c m (omega arith) (omega arith)) (ap suc rest)

  -- A job that has not failed yet and whose every run fails is run exactly max_retries + 1 times
  -- before the retry engine gives it up, if max_retries + 1 is below 2^63, where the count of failures
  -- does not wrap around, and there are more failures to come than max_retries.
  pub executions_lem :
      (es : List Error) (job : Job) (w : World) (max : ℕ)
      → job.retries_count ≡ pos 0
      → job.max_retries ≡ pos max
      → max + 1 < 2 ^ 63
      → max < length es
      → executions es job w ≡ suc max
  executions_lem es job w max c m h k = executions_from es job w 0 max max c m (omega arith) h k
