-- ===== src/Domain/Job.antt =====
-- internal/domain/job.go: the job, its states and the methods that read no clock.
use queue_ctl.Prelude.{String, Bool, true, false, ◌||◌, ◌==◌, if◌then◌else◌}
use queue_ctl.Prelude.Int.{ℤ, pos, ltb_ℤ}
use queue_ctl.Prelude.Text.{◌^^◌}
use queue_ctl.Domain.Errors.{Result, ok, err, msg, refuse, ◌>>◌}

-- JobStatus is a string type. `unsupported` holds a text that is none of the five constants.
pub data JobStatus : Type 0 where
  pending running completed failed dead_letter : JobStatus
  unsupported : String → JobStatus

-- string(status)
unfoldable pub status_text : JobStatus → String
status_text pending = "pending"
status_text running = "running"
status_text completed = "completed"
status_text failed = "failed"
status_text dead_letter = "dead_letter"
status_text (unsupported t) = t

-- domain.JobStatus(text)
unfoldable pub to_status : String → JobStatus
to_status t =
    if t == "pending"
    then pending
    else if t == "running"
    then running
    else if t == "completed"
    then completed
    else if t == "failed"
    then failed
    else if t == "dead_letter"
    then dead_letter
    else unsupported t

-- a == b on two statuses
unfoldable pub status_eq : JobStatus → JobStatus → Bool
status_eq pending pending = true
status_eq running running = true
status_eq completed completed = true
status_eq failed failed = true
status_eq dead_letter dead_letter = true
status_eq (unsupported s) (unsupported t) = s == t
status_eq _ _ = false

-- Times are nanoseconds since Go's zero time, so that IsZero is `pos 0`.
abbrev pub Time : Type 0
Time = ℤ

-- time.Duration, in nanoseconds.
abbrev pub Duration : Type 0
Duration = ℤ

pub record Job : Type 0 where
  pub id : String
  pub job_type : String
  pub payload : String
  pub queue : String
  pub status : JobStatus
  pub priority : ℤ
  pub max_retries : ℤ
  pub retries_count : ℤ
  pub error_message : String
  pub run_at : Time
  pub created_at : Time
  pub updated_at : Time

abbrev pub is_supported : JobStatus → Bool
is_supported (unsupported _) = false
is_supported _ = true

-- the `switch` of Validate
abbrev check_status : JobStatus → Result (Unit {0})
check_status (unsupported t) = err (msg ("invalid job: unsupported status '" ^^ t ^^ "'"))
check_status _ = ok tt

unfoldable pub validate : Job → Result (Unit {0})
validate j = do
  refuse (j.id == "") "invalid job: missing ID"
  refuse (j.job_type == "") "invalid job: missing type"
  refuse (j.queue == "") "invalid job: missing queue name"
  check_status j.status
  refuse (ltb_ℤ j.retries_count (pos 0)) "invalid job: retries count cannot be negative"
  refuse (ltb_ℤ j.max_retries (pos 0)) "invalid job: max retries cannot be negative"

unfoldable pub is_retryable : Job → Bool
is_retryable j = ltb_ℤ j.retries_count j.max_retries

unfoldable pub has_failed : Job → Bool
unfolding status_eq
has_failed j = status_eq j.status failed || status_eq j.status dead_letter
