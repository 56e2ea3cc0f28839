-- ===== src/Cli/Jobs.antt =====
-- internal/cli/enqueue.go, list.go, status.go and purge.go.
use queue_ctl.Prelude.{String, List, [], ◌∷◌, ◌++◌, ◌==◌, if◌then◌else◌}
use queue_ctl.Prelude.Int.{ℤ, pos, ltb_ℤ, ◌+ℤ◌}
use queue_ctl.Prelude.Text.{◌^^◌}
use queue_ctl.Domain.Errors.{Result, ok, err, msg, refuse}
use queue_ctl.Domain.Job.{
  Job, JobStatus, Duration, pending, running, completed, failed, dead_letter, unsupported,
  status_text, to_status,
}
use queue_ctl.Store.{Env, Exec, pure, lift, wrapping, now, ◌>>=◌, ◌>>◌}
use queue_ctl.Service.Queue as Queue
use queue_ctl.Service.Queue.{Settings, validate_json}
use queue_ctl.Repository.Stats.{Group, stat, get_job_stats}
use queue_ctl.Cli.{
  Cell, text, bytes, number, count, date, period, Line, out, shortened, limit_or_default,
  day_layout, rfc3339,
}

-- The flags of `enqueue`.
pub record EnqueueFlags : Type 0 where
  pub queue : String
  pub delay : Duration
  pub max_retries : ℤ
  pub priority : ℤ

-- The flags of `list`.
pub record ListFlags : Type 0 where
  pub queue : String
  pub status : String
  pub limit : ℤ
  pub search : String

abbrev label : String → Cell → Line
label name cell = out (text name ∷ cell ∷ [])

abbrev enqueued_lines : Job → List Line
enqueued_lines job =
    out (text "Job enqueued successfully:" ∷ [])
    ∷ label "  ID:           " (text job.id)
    ∷ label "  Type:         " (text job.job_type)
    ∷ label "  Queue:        " (text job.queue)
    ∷ label "  Status:       " (text (status_text job.status))
    ∷ label "  Priority:     " (number job.priority)
    ∷ label "  Max Retries:  " (number job.max_retries)
    ∷ label "  Scheduled At: " (date rfc3339 job.run_at)
    ∷ []

-- the `switch` on the status filter
abbrev check_known : String → JobStatus → Result (Unit {0})
check_known filter (unsupported t) = err (
    msg (
      "invalid status filter '" ^^ filter
      ^^ "'. Must be one of: pending, running, completed, failed, dead_letter"))
check_known filter _ = ok tt

unfoldable pub check_filter : String → Result (Unit {0})
unfolding to_status
check_filter filter = if filter == "" then ok tt else check_known filter (to_status filter)

-- `errStr`
unfoldable pub last_error : String → Cell
unfolding shortened
last_error e = if e == "" then text "-" else bytes (shortened 30 e)

unfoldable pub listed_line : Job → Line
unfolding last_error status_text
listed_line job = out (
    text job.id
    ∷ text job.job_type
    ∷ text job.queue
    ∷ text (status_text job.status)
    ∷ number job.retries_count
    ∷ text "/"
    ∷ number job.max_retries
    ∷ date day_layout job.run_at
    ∷ last_error job.error_message
    ∷ [])

unfoldable pub listed_lines : List Job → List Line
unfolding listed_line
listed_lines [] = []
listed_lines (job ∷ jobs) = listed_line job ∷ listed_lines jobs

unfoldable pub job_table : List Job → List Line
unfolding listed_lines
job_table [] = out (text "No jobs found matching the specified filters." ∷ []) ∷ []
job_table (job ∷ jobs) =
    out (text "JOB ID\tTYPE\tQUEUE\tSTATUS\tRETRIES\tSCHEDULED RUN\tLAST ERROR" ∷ [])
    ∷ listed_lines (job ∷ jobs)

-- the line of the last error of `status --id`, if there is one
abbrev error_line : String → List Line
error_line e = if e == "" then [] else label "  Last Error:    " (text e) ∷ []

abbrev detail_lines : Job → List Line
detail_lines job =
    (out (text "Job Details:" ∷ [])
      ∷ label "  ID:            " (text job.id)
      ∷ label "  Type:          " (text job.job_type)
      ∷ label "  Payload:       " (text job.payload)
      ∷ label "  Queue:         " (text job.queue)
      ∷ label "  Status:        " (text (status_text job.status))
      ∷ label "  Max Retries:   " (number job.max_retries)
      ∷ label "  Retries Run:   " (number job.retries_count)
      ∷ label "  Scheduled Run: " (date rfc3339 job.run_at)
      ∷ label "  Created At:    " (date rfc3339 job.created_at)
      ∷ label "  Updated At:    " (date rfc3339 job.updated_at)
      ∷ [])
    ++ error_line job.error_message

-- A queue in front of those that are known, unless it is one of them.
unfoldable pub add_queue : String → List String → List String
add_queue q [] = q ∷ []
add_queue q (x ∷ xs) = let rest = add_queue q xs in if x == q then x ∷ xs else x ∷ rest

-- The keys of the map that GetStats returns, in an order that Go leaves open.
unfoldable pub queues : List Group → List String
unfolding add_queue
queues [] = []
queues (g ∷ gs) = add_queue g.queue (queues gs)

abbrev stats_line : List Group → String → Line
stats_line stats q = out (
    text q
    ∷ count (stat q pending stats)
    ∷ count (stat q running stats)
    ∷ count (stat q completed stats)
    ∷ count (stat q failed stats)
    ∷ count (stat q dead_letter stats)
    ∷ [])

unfoldable pub stats_lines : List Group → List String → List Line
stats_lines stats [] = []
stats_lines stats (q ∷ qs) = stats_line stats q ∷ stats_lines stats qs

unfoldable pub stats_table : List Group → List Line
unfolding stats_lines queues
stats_table [] = out (text "No jobs or queues currently exist in the database." ∷ []) ∷ []
stats_table (g ∷ gs) =
    out (text "Queue Metrics Summary:" ∷ [])
    ∷ out (text "QUEUE NAME\tPENDING\tRUNNING\tCOMPLETED\tFAILED\tDLQ (DEAD LETTER)" ∷ [])
    ∷ stats_lines (g ∷ gs) (queues (g ∷ gs))

module _ (env : Env) where
  -- `enqueue job_type payload`
  unfoldable pub enqueue : Settings → EnqueueFlags → String → String → Exec (List Line)
  unfolding ◌+ℤ◌ status_text
  enqueue s flags job_type payload = do
    lift (refuse (job_type == "") "job-type cannot be empty")
    wrapping "invalid payload format" (lift (validate_json env payload))
    lift (refuse (ltb_ℤ flags.max_retries (pos 0)) "max-retries limit cannot be negative")
    t ← now env
    let run_at = if ltb_ℤ (pos 0) flags.delay then t +ℤ flags.delay else t
    job ←
        wrapping "failed to enqueue job"
          (Queue.enqueue env s job_type payload flags.queue flags.priority run_at flags.max_retries)
    pure (enqueued_lines job)

  -- `list`
  unfoldable pub list : ListFlags → Exec (List Line)
  unfolding check_filter to_status job_table
  list flags = do
    lift (refuse (ltb_ℤ flags.limit (pos 0)) "limit count cannot be negative")
    lift (refuse (ltb_ℤ (pos 500) flags.limit) "limit count cannot exceed 500 records")
    lift (check_filter flags.status)
    jobs ← wrapping "failed to query jobs from database" (
        Queue.list_jobs env flags.queue (to_status flags.status) flags.search
          (limit_or_default flags.limit))
    pure (job_table jobs)

  unfoldable pub show_job : String → Exec (List Line)
  unfolding status_text
  show_job id = do
    job ← wrapping "failed to retrieve job details" (Queue.get_job env id)
    pure (detail_lines job)

  unfoldable pub show_stats : Exec (List Line)
  unfolding stats_table
  show_stats = do
    stats ← wrapping "failed to query queue metrics" (get_job_stats env)
    pure (stats_table stats)

  -- `status`, where `id` is the flag --id
  unfoldable pub status : String → Exec (List Line)
  unfolding show_job show_stats
  status id = if id == "" then show_stats else show_job id

  -- `purge`
  unfoldable pub purge : Duration → Exec (List Line)
  purge older_than = do
    deleted ← Queue.purge_completed env older_than
    pure (
        out (
          text "Purge operation completed successfully. Deleted "
          ∷ count deleted
          ∷ text " completed jobs older than "
          ∷ period older_than
          ∷ text "."
          ∷ [])
        ∷ [])
