-- ===== src/Domain/Worker.antt =====
-- internal/domain/worker.go: a worker node, and the methods that read no clock. The mutex that
-- guards its fields is not modelled: each method is one step.
use queue_ctl.Prelude.{String, Bool, true, false, ◌==◌}
use queue_ctl.Prelude.Int.{ℤ, pos, leb_ℤ}
use queue_ctl.Prelude.Text.{◌^^◌}
use queue_ctl.Domain.Errors.{Result, ok, err, msg, refuse, ◌>>◌}
use queue_ctl.Domain.Job.{Time}

-- WorkerStatus is a string type. `other` holds a text that is none of the three constants.
pub data WorkerStatus : Type 0 where
  active idle stopped : WorkerStatus
  other : String → WorkerStatus

-- a == b on two statuses
unfoldable pub worker_status_eq : WorkerStatus → WorkerStatus → Bool
worker_status_eq active active = true
worker_status_eq idle idle = true
worker_status_eq stopped stopped = true
worker_status_eq (other s) (other t) = s == t
worker_status_eq _ _ = false

pub record Worker : Type 0 where
  pub id : String
  pub hostname : String
  pub queue : String
  pub concurrency : ℤ
  pub status : WorkerStatus
  pub started_at : Time
  pub last_heartbeat : Time

-- the `switch` of Validate
abbrev check_status : WorkerStatus → Result (Unit {0})
check_status (other t) = err (msg ("invalid worker: unsupported status '" ^^ t ^^ "'"))
check_status _ = ok tt

unfoldable pub validate : Worker → Result (Unit {0})
validate w = do
  refuse (w.id == "") "invalid worker: missing ID"
  refuse (w.hostname == "") "invalid worker: missing hostname"
  refuse (leb_ℤ w.concurrency (pos 0)) "invalid worker: concurrency limit must be greater than zero"
  check_status w.status

abbrev pub get_status : Worker → WorkerStatus
get_status w = w.status

abbrev pub get_last_heartbeat : Worker → Time
get_last_heartbeat w = w.last_heartbeat
