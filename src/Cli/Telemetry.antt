-- ===== src/Cli/Telemetry.antt =====
-- internal/cli/metrics.go and the format check of config.go.
use queue_ctl.Prelude.{ℕ, ◌+◌, ◌*◌, ◌/◌, String, not, ◌&&◌, List, [], ◌∷◌, if◌then◌else◌}
use queue_ctl.Prelude.Int.{pos, negsuc, ◌-ℤ◌}
use queue_ctl.Prelude.Text.{◌^^◌}
use queue_ctl.Domain.Errors.{Result, ok, err, refuse, wrap, ◌>>◌}
use queue_ctl.Domain.Job.{Duration}
use queue_ctl.Domain.ExecutionLog.{ExecutionLog}
use queue_ctl.Config.{Config, is_word}
use queue_ctl.Store.{Env, Exec, pure, wrapping, ◌>>=◌}
use queue_ctl.Metrics.{QueueMetrics, get_metrics}
use queue_ctl.Cli.{Cell, text, number, count, period, decimal, Line, out}

-- time.Millisecond
abbrev millisecond : ℕ
millisecond = 1000000

-- d.Round(time.Millisecond) where d is not within a millisecond of the ends of an int64: to the
-- nearest multiple, half away from zero
unfoldable pub rounded : Duration → Duration
unfolding ◌-ℤ◌
rounded (pos n) = pos ((n + 500000) / millisecond * millisecond)
rounded (negsuc n) = pos 0 -ℤ pos ((n + 500001) / millisecond * millisecond)

abbrev entry : String → Cell → Line
entry name cell = out (text name ∷ cell ∷ [])

abbrev rule : Line
rule = out (text "============================================================" ∷ [])

abbrev gap : Line
gap = out (text "\t" ∷ [])

unfoldable pub report : QueueMetrics → List Line
unfolding rounded
report m =
    rule
    ∷ out (text "                     QueueCTL Telemetry Metrics             " ∷ [])
    ∷ rule
    ∷ out (text "Job States:" ∷ [])
    ∷ entry "  Pending Jobs:\t" (count m.pending_count)
    ∷ entry "  Running Jobs:\t" (count m.running_count)
    ∷ entry "  Completed Jobs:\t" (count m.completed_count)
    ∷ entry "  Failed Jobs:\t" (count m.failed_count)
    ∷ entry "  Dead Letter Queue:\t" (count m.dlq_count)
    ∷ gap
    ∷ out (text "Execution Performance:" ∷ [])
    ∷ entry "  Total Reschedule Retries:\t" (number m.total_retries)
    ∷ entry "  Average Execution Runtime:\t" (period (rounded m.average_runtime))
    ∷ out (text "  Attempt Success Rate:\t" ∷ decimal m.success_rate ∷ text "%" ∷ [])
    ∷ gap
    ∷ out (text "Worker Telemetry:" ∷ [])
    ∷ entry "  Registered Worker Nodes:\t" (count m.total_workers_count)
    ∷ entry "  Active Workers:\t" (count m.active_workers_count)
    ∷ out (text "  Worker Node Utilization:\t" ∷ decimal m.worker_utilization ∷ text "%" ∷ [])
    ∷ rule
    ∷ []

-- `metrics`
unfoldable pub metrics : Env → (List ExecutionLog → Duration) → Exec (List Line)
unfolding report
metrics env average = do
  m ← wrapping "failed to retrieve metrics" (get_metrics env average)
  pure (report m)

-- `config`: `to_json` is json.MarshalIndent and `to_yaml` is yaml.Marshal of the configuration.
module _ (to_json to_yaml : Config → Result String) where
  abbrev printed : String → Result String → Result (List Line)
  printed failure (ok text_of) = ok (out (text text_of ∷ []) ∷ [])
  printed failure (err e) = err (wrap failure e)

  unfoldable pub config : Config → String → Result (List Line)
  unfolding is_word
  config c format =
      refuse (not (is_word "yaml" format) && not (is_word "json" format))
        ("invalid config format '" ^^ format ^^ "'. Must be either 'yaml' or 'json'")
      >> (if is_word "json" format
          then printed "failed to marshal config to JSON" (to_json c)
          else printed "failed to marshal config to YAML" (to_yaml c))
