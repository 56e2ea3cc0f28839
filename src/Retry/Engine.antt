-- ===== src/Retry/Engine.antt =====
-- internal/retry/retry.go
pub mod Attempts
use queue_ctl.Prelude.{Bool, true, false, if◌then◌else◌}
use queue_ctl.Prelude.Int.{pos, ltb_ℤ, ◌+ℤ◌, wrap64}
use queue_ctl.Domain.Errors.{Error, error_text}
use queue_ctl.Domain.Job.{Job, Duration, pending}
use queue_ctl.Store.{Env, Exec, pure, now, ◌>>=◌}
use queue_ctl.Retry.Backoff.{Backoff, calculate}

-- What HandleFailure leaves in the job, and its delay and verdict.
pub record Verdict : Type 0 where
  pub job : Job
  pub delay : Duration
  pub should_retry : Bool

-- `job.RetriesCount++` and the error's text, before the threshold is looked at
unfoldable pub counted : Job → Error → Job
counted job e = record job {
  retries_count = wrap64 (job.retries_count +ℤ pos 1);
  error_message = error_text e;
}

module _ (env : Env) where
  -- HandleFailure on a job that is not nil
  unfoldable pub handle_failure : Backoff → Job → Error → Exec Verdict
  unfolding now
  handle_failure b job e =
      let j = counted job e in
      if ltb_ℤ j.max_retries j.retries_count
      then pure (record { job = j; delay = pos 0; should_retry = false })
      else do
        let delay = calculate env.int64_overflow b j.retries_count
        t ← now env
        pure (record {
          job = record j { status = pending; run_at = t +ℤ delay };
          delay = delay;
          should_retry = true;
        })
