-- ===== src/Cli/Contract.antt =====
-- Sequences of command lines of internal/cli, and of the calls that worker processes make between
-- them.
use queue_ctl.Prelude.{String, ◌+◌, ◌<◌, ◌^◌, List, [], ◌∷◌}
use queue_ctl.Prelude.Int.{pos_part}
use queue_ctl.Domain.Job.{Job, Duration}
use queue_ctl.Domain.ExecutionLog.{ExecutionLog}
use queue_ctl.Store.{Env, World, Exec}
use queue_ctl.Repository.Jobs as Repository
use queue_ctl.Dlq as Dlq
use queue_ctl.Service.Queue as Queue
use queue_ctl.Service.Queue.{Settings}
use queue_ctl.Lifecycle.Histories.{Operation, IsBounded, perform}
use queue_ctl.Cli.{Line}
use queue_ctl.Cli.Jobs as Jobs
use queue_ctl.Cli.Jobs.{EnqueueFlags, ListFlags}
use queue_ctl.Cli.Dead as Dead
use queue_ctl.Cli.Dead.{DeadListFlags, Target}
use queue_ctl.Cli.Telemetry

-- A command line that uses the database.
pub data Command : Type 0 where
  enqueue : EnqueueFlags → String → String → Command
  list : ListFlags → Command
  status : String → Command
  purge : Duration → Command
  metrics : Command
  dlq_list : DeadListFlags → Command
  dlq_retry dlq_delete : Target → Command
  dlq_restore : String → String → Command
  dlq_stats : Command

-- A command line, or a call of a worker process.
pub data Call : Type 0 where
  command : Command → Call
  operation : Operation → Call

-- The max_retries of an enqueue is below the largest int64.
abbrev pub IsBoundedCall : Call → Type 0
IsBoundedCall (command (enqueue flags job_type payload)) = pos_part flags.max_retries + 1 < 2 ^ 63
IsBoundedCall (command _) = Unit
IsBoundedCall (operation op) = IsBounded op

module _ (env : Env) (average : List ExecutionLog → Duration) (s : Settings) where
  -- the RunE of the command
  unfoldable pub run_command : Command → Exec (List Line)
  run_command (enqueue flags job_type payload) = Jobs.enqueue env s flags job_type payload
  run_command (list flags) = Jobs.list env flags
  run_command (status id) = Jobs.status env id
  run_command (purge older_than) = Jobs.purge env older_than
  run_command metrics = Telemetry.metrics env average
  run_command (dlq_list flags) = Dead.list env flags
  run_command (dlq_retry target) = Dead.retry env target
  run_command (dlq_delete target) = Dead.delete env target
  run_command (dlq_restore id queue) = Dead.restore env id queue
  run_command dlq_stats = Dead.stats env

  unfoldable pub answer : Call → World → World
  unfolding run_command
  answer (command c) w = (run_command c w).1
  answer (operation op) w = perform env s op w

  unfoldable pub session : List Call → World → World
  unfolding answer
  session [] w = w
  session (call ∷ calls) w = session calls (answer call w)
