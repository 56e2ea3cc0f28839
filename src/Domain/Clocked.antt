-- ===== src/Domain/Clocked.antt =====
-- internal/domain: the constructors and methods that read the clock.
pub mod Valid
use queue_ctl.Prelude.{String, ◌==◌, if◌then◌else◌}
use queue_ctl.Prelude.Int.{ℤ, pos, leb_ℤ, ltb_ℤ, ◌+ℤ◌, ◌-ℤ◌}
use queue_ctl.Prelude.Text.{◌^^◌}
use queue_ctl.Domain.Errors.{msg, refuse}
use queue_ctl.Domain.Job.{Job, Time, Duration, pending}
use queue_ctl.Domain.ExecutionLog.{ExecutionLog, ExecutionStatus, success, failed, other, is_zero}
use queue_ctl.Domain.Worker.{Worker, WorkerStatus, idle}
use queue_ctl.Store.{Env, Exec, pure, raise, lift, now, ◌>>=◌, ◌>>◌}

abbrev pub or_default : String → String
or_default queue = if queue == "" then "default" else queue

module _ (env : Env) where
  -- `if t.IsZero() { t = time.Now() }`
  unfoldable pub or_now : Time → Exec Time
  unfolding now
  or_now t = if is_zero t then now env else pure t

  -- NewJob
  unfoldable pub new_job : String → String → String → String → ℤ → ℤ → Time → Exec Job
  unfolding or_now
  new_job id job_type payload queue priority max_retries run_at = do
    lift (refuse (id == "") "job ID cannot be empty")
    lift (refuse (job_type == "") "job type cannot be empty")
    run ← or_now run_at
    lift (refuse (ltb_ℤ max_retries (pos 0)) "max retries cannot be negative")
    t ← now env
    pure (record {
      id = id;
      job_type = job_type;
      payload = payload;
      queue = or_default queue;
      status = pending;
      priority = priority;
      max_retries = max_retries;
      retries_count = pos 0;
      error_message = "";
      run_at = run;
      created_at = t;
      updated_at = t;
    })

  -- ScheduleNextRun
  unfoldable pub schedule_next_run : Job → Duration → String → Exec Job
  unfolding now ◌+ℤ◌
  schedule_next_run job backoff text = do
    t ← now env
    pure (record job { status = pending; error_message = text; run_at = t +ℤ backoff })

  -- NewExecutionLog
  unfoldable pub new_execution_log : String → String → String → ℤ → Time → Exec ExecutionLog
  unfolding or_now
  new_execution_log id job_id worker_id attempt started_at = do
    lift (refuse (id == "") "execution log ID cannot be empty")
    lift (refuse (job_id == "") "associated job ID cannot be empty")
    lift (refuse (worker_id == "") "associated worker ID cannot be empty")
    lift (refuse (leb_ℤ attempt (pos 0)) "attempt count must be greater than zero")
    started ← or_now started_at
    pure (record {
      id = id;
      job_id = job_id;
      worker_id = worker_id;
      attempt = attempt;
      status = failed;
      started_at = started;
      finished_at = pos 0;
      error_message = "";
    })

  -- the `switch` of Complete, which refuses any other status
  abbrev check_outcome : ExecutionStatus → Exec (Unit {0})
  check_outcome success = pure tt
  check_outcome failed = pure tt
  check_outcome (other t) = raise (msg ("invalid execution status '" ^^ t ^^ "'"))

  -- Complete; the log that it returns is the one that its pointer names
  unfoldable pub complete : ExecutionLog → ExecutionStatus → Time → String → Exec ExecutionLog
  unfolding or_now
  complete l status finished_at text = do
    check_outcome status
    finished ← or_now finished_at
    lift (
        refuse (ltb_ℤ finished l.started_at)
          "finished timestamp cannot be before started timestamp")
    pure (record l { status = status; finished_at = finished; error_message = text })

  -- Duration, where time.Since(t) is the time of its reading less t
  unfoldable pub duration : ExecutionLog → Exec Duration
  unfolding now ◌-ℤ◌
  duration l =
      if is_zero l.finished_at
      then (do t ← now env; pure (t -ℤ l.started_at))
      else pure (l.finished_at -ℤ l.started_at)

  -- NewWorker
  unfoldable pub new_worker : String → String → String → ℤ → Exec Worker
  unfolding now
  new_worker id hostname queue concurrency = do
    lift (refuse (id == "") "worker ID cannot be empty")
    lift (refuse (hostname == "") "worker hostname cannot be empty")
    lift (refuse (leb_ℤ concurrency (pos 0)) "worker concurrency limit must be greater than zero")
    t ← now env
    pure (record {
      id = id;
      hostname = hostname;
      queue = or_default queue;
      concurrency = concurrency;
      status = idle;
      started_at = t;
      last_heartbeat = t;
    })

  -- Heartbeat
  unfoldable pub heartbeat : Worker → Exec Worker
  unfolding now
  heartbeat w = do t ← now env; pure (record w { last_heartbeat = t })

  -- SetStatus
  unfoldable pub set_status : Worker → WorkerStatus → Exec Worker
  unfolding now
  set_status w status = do t ← now env; pure (record w { status = status; last_heartbeat = t })
