-- ===== src/Domain/ExecutionLog.antt =====
-- internal/domain/execution_log.go: the record of one attempt, and its check.
use queue_ctl.Prelude.{String, Bool, true, false, ◌==◌}
use queue_ctl.Prelude.Int.{ℤ, pos, leb_ℤ, eqb_ℤ}
use queue_ctl.Domain.Errors.{Result, refuse, ◌>>◌}
use queue_ctl.Domain.Job.{Time}

-- ExecutionStatus is a string type. `other` holds a text that is neither constant.
pub data ExecutionStatus : Type 0 where
  success failed : ExecutionStatus
  other : String → ExecutionStatus

abbrev pub execution_status_text : ExecutionStatus → String
execution_status_text success = "success"
execution_status_text failed = "failed"
execution_status_text (other t) = t

-- a == b on two statuses
unfoldable pub execution_status_eq : ExecutionStatus → ExecutionStatus → Bool
execution_status_eq success success = true
execution_status_eq failed failed = true
execution_status_eq (other s) (other t) = s == t
execution_status_eq _ _ = false

pub record ExecutionLog : Type 0 where
  pub id : String
  pub job_id : String
  pub worker_id : String
  pub attempt : ℤ
  pub status : ExecutionStatus
  pub started_at : Time
  pub finished_at : Time
  pub error_message : String

-- t.IsZero()
abbrev pub is_zero : Time → Bool
is_zero t = eqb_ℤ t (pos 0)

unfoldable pub validate : ExecutionLog → Result (Unit {0})
validate l = do
  refuse (l.id == "") "invalid execution log: missing ID"
  refuse (l.job_id == "") "invalid execution log: missing job ID"
  refuse (l.worker_id == "") "invalid execution log: missing worker ID"
  refuse (leb_ℤ l.attempt (pos 0)) "invalid execution log: attempt count must be greater than zero"
  refuse (is_zero l.started_at) "invalid execution log: missing started timestamp"
