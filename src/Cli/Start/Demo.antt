-- ===== src/Cli/Start/Demo.antt =====
-- internal/cli/worker.go: registerDemoHandlers. What the handlers log is left out.
use queue_ctl.Prelude.{◌*◌, String, Option, none, some, List, ◌==◌, if◌then◌else◌}
use queue_ctl.Prelude.Int.{ℤ, pos, pos_part, ltb_ℤ, wrap64}
use queue_ctl.Prelude.Text.{◌^^◌}
use queue_ctl.Domain.Errors.{Error, Result, ok, err, msg, wrap, error_text}
use queue_ctl.Domain.Job.{Duration}
use queue_ctl.Retry.Backoff.{second}
use queue_ctl.Store.{World, Outcome, succeeds, fails, panics}
use queue_ctl.Service.Handlers.{Handler, register_handler}

-- CommandPayload
pub record CommandPayload : Type 0 where
  pub command : String
  pub args : List String
  pub timeout : ℤ

-- What the handlers ask of the outside: the error of the context if it is done before a delay is over;
-- json.Unmarshal of a CommandPayload; and what osCmd.Run returns, with the standard error, for a
-- time limit, a command and its arguments.
pub record Outside : Type 0 where
  pub done_within : Duration → Option Error
  pub parse_command : String → Result CommandPayload
  pub run_command : Option Duration → String → List String → Option Error × String

module _ (outside : Outside) where
  abbrev unless_done : Option Error → Outcome
  unless_done none = succeeds
  unless_done (some e) = fails e

  -- email, image_resize and data_sync wait, unless the context is done first
  unfoldable pub simulate : Duration → Handler
  simulate delay payload = unless_done (outside.done_within delay)

  -- error_demo
  unfoldable pub error_demo : Handler
  error_demo payload = fails (msg "simulated network connection timeout (temporary error)")

  -- panic_demo
  unfoldable pub panic_demo : Handler
  panic_demo payload =
      panics "nil pointer dereference or index out of range simulated in user handler"

  -- time.Duration(cmdPayload.Timeout)*time.Second, if the timeout is positive
  abbrev time_limit : ℤ → Option Duration
  time_limit timeout =
      if ltb_ℤ (pos 0) timeout then some (wrap64 (pos (pos_part timeout * second))) else none

  unfoldable pub ran : Option Error × String → Outcome
  unfolding error_text
  ran (none, stderr) = succeeds
  ran (some e, stderr) =
      fails (msg ("command execution failed: " ^^ error_text e ^^ ", stderr: " ^^ stderr))

  unfoldable pub execute : Result CommandPayload → Outcome
  unfolding wrap64 ran
  execute (err e) = fails (wrap "failed to parse command payload" e)
  execute (ok p) =
      if p.command == ""
      then fails (msg "command parameter cannot be empty")
      else ran (outside.run_command (time_limit p.timeout) p.command p.args)

  -- exec_command
  unfoldable pub exec_command : Handler
  unfolding execute
  exec_command payload = execute (outside.parse_command payload)

  -- `_ = Svc.RegisterHandler(…)`
  unfoldable pub attempt : String → Handler → World → World
  unfolding register_handler
  attempt job_type h w = (register_handler job_type (some h) w).1

  -- registerDemoHandlers
  unfoldable pub register_demo_handlers : World → World
  unfolding attempt simulate error_demo panic_demo exec_command
  register_demo_handlers w = attempt "data_sync" (simulate (pos 500000000)) (
      attempt "exec_command" exec_command (
        attempt "panic_demo" panic_demo (
          attempt "error_demo" error_demo (
            attempt "image_resize" (simulate (pos 2000000000))
              (attempt "email" (simulate (pos 1000000000)) w)))))
