-- ===== src/Cli/Stop.antt =====
-- internal/cli/worker.go: the command `worker stop`. The process that it stops is known by what the
-- operating system answers about it.
pub mod Returns
use queue_ctl.Prelude.{
  ℕ, zero, suc, ◌+◌, String, Bool, true, false, Option, none, some, List, [], ◌∷◌, ◌++◌,
  if◌then◌else◌,
}
use queue_ctl.Prelude.Int.{ℤ}
use queue_ctl.Prelude.Text.{◌^^◌}
use queue_ctl.Domain.Errors.{Error, Result, ok, err, msg, wrap}
use queue_ctl.Cli.{Line, out, text, number}
use queue_ctl.Cli.Pid.{Files, PidRead, found, missing, unreadable, read_pid_file}

-- `files` is about the file of the process identifier. `find_fault` is the error of os.FindProcess,
-- `interrupt_fault` that of sending os.Interrupt. In round n of the loop `timed_out n` says whether the
-- select takes the case of the timeout, and if it takes the ticker's, `alive n` says whether signal 0
-- can be sent.
pub record Os : Type 0 where
  pub files : Files
  pub find_fault : ℤ → Option Error
  pub interrupt_fault : ℤ → Option Error
  pub timed_out : ℕ → Bool
  pub alive : ℕ → Bool

pub data Signal : Type 0 where
  interrupt kill : ℤ → Signal

-- The file of the process identifier, and the signals that have been sent.
pub record Machine : Type 0 where
  pub pid_file : Option (List ℕ)
  pub signals : List Signal

-- What a command has printed or which error it returned, with the machine.
abbrev pub Ended : Type 0
Ended = Result (List Line) × Machine

module _ (os : Os) where
  -- `_ = os.Remove(pidPath)`
  abbrev pub removed : Machine → Machine
  removed m = record m { pid_file = if os.files.removes then none else m.pid_file }

  abbrev pub signalled : Signal → Machine → Machine
  signalled signal m = record m { signals = m.signals ++ signal ∷ [] }

  abbrev stopping : ℤ → Line
  stopping pid = out (text "Stopping worker process (PID: " ∷ number pid ∷ text ")..." ∷ [])

  abbrev pub killed_lines : ℤ → List Line
  killed_lines pid =
      stopping pid
      ∷ out (text "Worker unresponsive to graceful stop. Forcing shutdown..." ∷ [])
      ∷ out (text "Worker terminated." ∷ [])
      ∷ []

  abbrev pub killed : ℤ → Machine → Ended
  killed pid m = (ok (killed_lines pid), removed (signalled (kill pid) m))

  abbrev pub exited_lines : ℤ → List Line
  exited_lines pid = stopping pid ∷ out (text "Worker stopped successfully." ∷ []) ∷ []

  abbrev pub exited : ℤ → Machine → Ended
  exited pid m = (ok (exited_lines pid), removed m)

  -- the loop, from its round n; `none` when the fuel runs out
  unfoldable pub wait_for_exit : ℕ → ℤ → ℕ → Machine → Option Ended
  wait_for_exit zero pid n m = none
  wait_for_exit (suc fuel) pid n m =
      let rest = wait_for_exit fuel pid (suc n) m in
      if os.timed_out n
      then some (killed pid m)
      else if os.alive n
      then rest
      else some (exited pid m)

  unfoldable pub interrupted : ℕ → ℤ → Option Error → Machine → Option Ended
  unfolding wait_for_exit
  interrupted fuel pid (some e) m =
      some (err (wrap "failed to send shutdown signal to worker" e), removed m)
  interrupted fuel pid none m = wait_for_exit fuel pid 0 (signalled (interrupt pid) m)

  unfoldable pub located : ℕ → ℤ → Option Error → Machine → Option Ended
  unfolding interrupted
  located fuel pid (some e) m = some (err (wrap "could not find process with PID" e), removed m)
  located fuel pid none m = interrupted fuel pid (os.interrupt_fault pid) m

  unfoldable pub read : ℕ → String → PidRead → Machine → Option Ended
  unfolding located
  read fuel path missing m =
      some (
        err (msg ("no running worker process found (pid file '" ^^ path ^^ "' does not exist)")),
        m,
      )
  read fuel path (unreadable e) m = some (err (wrap "failed to read pid file" e), m)
  read fuel path (found pid) m = located fuel pid (os.find_fault pid) m

  -- `worker stop`
  unfoldable pub stop : ℕ → String → Machine → Option Ended
  unfolding read
  stop fuel path m = read fuel path (read_pid_file os.files m.pid_file) m
