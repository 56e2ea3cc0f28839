-- ===== src/Scenarios/Sample.antt =====
-- Concrete jobs, logs, workers and states, as internal/domain and internal/database hold them.
use queue_ctl.Prelude.{refl, String, ℕ, ◌+◌, none, some, List, [], ◌∷◌, eqb, if◌then◌else◌, true}
use queue_ctl.Prelude.Int.{pos, negsuc, ltb_ℤ}
use queue_ctl.Domain.Errors.{Error, msg}
use queue_ctl.Domain.Job.{Job, pending, running, dead_letter}
use queue_ctl.Domain.ExecutionLog.{ExecutionLog, failed}
use queue_ctl.Domain.Worker.{Worker, active}
use queue_ctl.Store.{Env, World}
use queue_ctl.Service.Queue.{Settings}
use queue_ctl.Service.Outcomes.Calm.{IsCalm}

abbrev name_of : ℕ → String
name_of n = if eqb n 0 then "id-0" else if eqb n 1 then "id-1" else "id-2"

-- A clock that advances by one with each reading, a driver without faults.
abbrev pub calm_env : Env
calm_env = record {
  clock = λ n. pos (1000 + n);
  uuid = name_of;
  fault = λ n. none;
  valid_json = λ text. true;
  int64_overflow = negsuc 9223372036854775807;
  before_local = ltb_ℤ;
}

pub calm_env-IsCalm : IsCalm calm_env
calm_env-IsCalm n = refl

-- The same with a driver that fails at one of its calls.
abbrev pub broken_env : ℕ → Env
broken_env call = record calm_env {
  fault = λ n. if eqb n call then some "disk I/O error" else none;
}

abbrev pub sample_settings : Settings
sample_settings = record {
  max_retries = pos 3;
  backoff = record { base_delay = pos 2000000000; max_delay = pos 30000000000 };
  has_scheduler = true;
}

abbrev pub waiting_job : Job
waiting_job = record {
  id = "job-1";
  job_type = "email";
  payload = "{}";
  queue = "default";
  status = pending;
  priority = pos 1;
  max_retries = pos 1;
  retries_count = pos 0;
  error_message = "";
  run_at = pos 500;
  created_at = pos 400;
  updated_at = pos 400;
}

abbrev pub urgent_job : Job
urgent_job = record waiting_job { id = "job-2"; priority = pos 5; run_at = pos 600 }

abbrev pub running_job : Job
running_job = record waiting_job { status = running; updated_at = pos 700 }

abbrev pub dead_job : Job
dead_job = record waiting_job {
  status = dead_letter;
  retries_count = pos 2;
  error_message = "boom";
}

abbrev pub open_log : ExecutionLog
open_log = record {
  id = "log-1";
  job_id = "job-1";
  worker_id = "worker-1";
  attempt = pos 1;
  status = failed;
  started_at = pos 700;
  finished_at = pos 0;
  error_message = "";
}

-- The log of a second attempt that has ended.
abbrev pub closed_log : ExecutionLog
closed_log = record open_log { id = "log-0"; attempt = pos 2; finished_at = pos 650 }

abbrev pub sample_worker : Worker
sample_worker = record {
  id = "worker-1";
  hostname = "host";
  queue = "default";
  concurrency = pos 2;
  status = active;
  started_at = pos 100;
  last_heartbeat = pos 690;
}

abbrev pub world_of : List Job → List ExecutionLog → World
world_of jobs logs = record {
  db = record { jobs = jobs; workers = sample_worker ∷ []; logs = logs };
  reads = 0;
  ids = 0;
  calls = 0;
  events = 0;
  handlers = [];
}

abbrev pub empty_world : World
empty_world = world_of [] []

abbrev pub waiting_world : World
waiting_world = world_of (waiting_job ∷ urgent_job ∷ []) []

abbrev pub running_world : World
running_world = world_of (running_job ∷ urgent_job ∷ []) (open_log ∷ [])

abbrev pub dead_world : World
dead_world = world_of (dead_job ∷ []) []

-- A job that is run again after it was revived: its log of the higher attempt is closed.
abbrev pub stuck_world : World
stuck_world = world_of (running_job ∷ []) (closed_log ∷ open_log ∷ [])

abbrev pub boom : Error
boom = msg "boom"
