-- ===== src/Cli/Start.antt =====
-- internal/cli/worker.go: the command `worker start`. What it logs is left out, and so is the goroutine
-- that waits for a signal: that a signal came is one way for the pool to end.
pub mod Demo
use queue_ctl.Prelude.{ℕ, String, Bool, true, false, Option, none, some, List, if◌then◌else◌}
use queue_ctl.Prelude.Int.{ℤ, pos, ltb_ℤ}
use queue_ctl.Domain.Errors.{Error, Result, ok, err, wrap, refuse, ◌>>◌}
use queue_ctl.Domain.Job.{Duration}
use queue_ctl.Config.{Config}
use queue_ctl.Store.{World}
use queue_ctl.Cli.Pid.{Files, write_pid_file}
use queue_ctl.Cli.Start.Demo.{Outside, register_demo_handlers}

-- The flags of `worker start`.
pub record StartFlags : Type 0 where
  pub queue : String
  pub concurrency : ℤ
  pub poll_interval : Duration

-- How pool.Start ends: with nil, with context.Canceled, or with another error.
pub data PoolEnd : Type 0 where
  finished cancelled : PoolEnd
  broken : Error → PoolEnd

-- The configuration, the state of the program, and the file of the process identifier.
pub record Process : Type 0 where
  pub config : Config
  pub world : World
  pub pid_file : Option (List ℕ)

abbrev check_flags : StartFlags → Result (Unit {0})
check_flags flags = do
  refuse (ltb_ℤ flags.concurrency (pos 0)) "concurrency limit cannot be negative"
  refuse (ltb_ℤ flags.poll_interval (pos 0)) "poll-interval duration cannot be negative"

-- A flag that is not positive leaves the value of the configuration.
unfoldable pub override_worker : StartFlags → Config → Config
override_worker flags c = record c {
  worker = record c.worker {
    concurrency =
        if ltb_ℤ (pos 0) flags.concurrency then flags.concurrency else c.worker.concurrency;
    poll_interval =
        if ltb_ℤ (pos 0) flags.poll_interval then flags.poll_interval else c.worker.poll_interval;
  };
}

abbrev end_result : PoolEnd → Result (Unit {0})
end_result finished = ok tt
end_result cancelled = ok tt
end_result (broken e) = err (wrap "worker pool terminated unexpectedly" e)

-- `run` is one run of the pool on a queue, from Start to its return; `pid` is what os.Getpid says.
module _ (files : Files) (outside : Outside) (pid : ℤ)
    (run : Config → String → World → PoolEnd × World) where
  -- the deferred os.Remove
  abbrev remove_pid_file : Process → Process
  remove_pid_file p = record p { pid_file = if files.removes then none else p.pid_file }

  abbrev run_pool : String → Process → Result (Unit {0}) × Process
  run_pool queue p =
      let (end, w) = run p.config queue p.world in
      (end_result end, remove_pid_file (record p { world = w }))

  abbrev with_pid_file :
      String → Result (Unit {0}) × Option (List ℕ) → Process → Result (Unit {0}) × Process
  with_pid_file queue (err e, file) p =
      (err (wrap "failed to create worker pid file" e), record p { pid_file = file })
  with_pid_file queue (ok _, file) p = run_pool queue (record p { pid_file = file })

  unfoldable pub overridden : StartFlags → Process → Process
  unfolding override_worker register_demo_handlers
  overridden flags p = record p {
    config = override_worker flags p.config;
    world = register_demo_handlers outside p.world;
  }

  unfoldable pub started : StartFlags → Result (Unit {0}) → Process → Result (Unit {0}) × Process
  unfolding overridden write_pid_file
  started flags (err e) p = (err e, p)
  started flags (ok _) p = with_pid_file flags.queue (write_pid_file files pid) (overridden flags p)

  -- `worker start`
  unfoldable pub start : StartFlags → Process → Result (Unit {0}) × Process
  unfolding started
  start flags p = started flags (check_flags flags) p
