-- ===== src/Service/Reclaim/Spares.antt =====
-- The jobs that ReclaimOrphanedJobs leaves to their workers.
use queue_ctl.Prelude.{◌+◌, ◌≡◌, false, none, some, arith, get_last?, find_row}
use queue_ctl.Domain.Job.{Job}
use queue_ctl.Domain.ExecutionLog.{ExecutionLog}
use queue_ctl.Domain.Worker.{Worker, stopped, worker_status_eq}
use queue_ctl.Store.{Env, World}
use queue_ctl.Repository.Logs as Logs
use queue_ctl.Repository.Workers as Workers
use queue_ctl.Service.Queue.{Settings}
use queue_ctl.Service.Reclaim.{find_dead_owner, reclaim_one}

-- The body of the loop of ReclaimOrphanedJobs leaves all tables as they are if the last log of the
-- job belongs to a worker whose row is not stopped, and the driver reports no fault when that row is
-- read, which is the second call of the database.
pub reclaim_one-spares :
    (env : Env) (s : Settings) (job : Job) (w : World) (l : ExecutionLog) (owner : Worker)
    → get_last? (Logs.logs_of job.id w.db.logs) ≡ some l
    → find_row (Workers.has_id l.worker_id) w.db.workers ≡ some owner
    → worker_status_eq owner.status stopped ≡ false
    → env.fault (w.calls + 1) ≡ none
    → (reclaim_one env s job w).db ≡ w.db
unfolding reclaim_one find_dead_owner Logs.get_by_job_id Workers.get_by_id
reclaim_one-spares env s job w l owner last row alive calm = ground arith
