-- ===== src/Cli/Dead.antt =====
-- internal/cli/dlq.go: the commands on the dead letter queue.

pub mod Rows
pub mod Emptied
use queue_ctl.Prelude.{
  ℕ, ◌+◌, String, Bool, true, false, not, ◌&&◌, List, [], ◌∷◌, ◌++◌, ◌==◌, length, if◌then◌else◌,
}
use queue_ctl.Prelude.Int.{ℤ, pos, ltb_ℤ}
use queue_ctl.Domain.Errors.{Result, ok, err, refuse, error_text}
use queue_ctl.Domain.Job.{Job}
use queue_ctl.Store.{Env, World, Exec, pure, lift, wrapping, ◌>>=◌, ◌>>◌}
use queue_ctl.Repository.Stats.{Group, get_dead_stats}
use queue_ctl.Dlq as Dlq
use queue_ctl.Cli.{
  Cell, text, bytes, number, count, date, Line, out, warning, shortened, limit_or_default,
  day_layout,
}

-- The flags of `dlq list`.
pub record DeadListFlags : Type 0 where
  pub queue : String
  pub limit : ℤ
  pub search : String

-- The flags --id and --all of `dlq retry` and `dlq delete`.
pub record Target : Type 0 where
  pub id : String
  pub all : Bool

-- What the loop over all dead jobs has done: how many calls returned no error, and the warnings.
pub record Swept : Type 0 where
  pub successes : ℕ
  pub warnings : List Line

-- The words that tell `dlq retry` and `dlq delete` apart.
pub record Wording : Type 0 where
  pub verb : String
  pub one_done : String
  pub none_found : String
  pub start : String
  pub end : String

unfoldable pub dead_line : Job → Line
unfolding shortened
dead_line job = out (
    text job.id
    ∷ text job.job_type
    ∷ text job.queue
    ∷ number job.retries_count
    ∷ text "/"
    ∷ number job.max_retries
    ∷ date day_layout job.updated_at
    ∷ bytes (shortened 40 job.error_message)
    ∷ [])

unfoldable pub dead_lines : List Job → List Line
unfolding dead_line
dead_lines [] = []
dead_lines (job ∷ jobs) = dead_line job ∷ dead_lines jobs

unfoldable pub dead_table : List Job → List Line
unfolding dead_lines
dead_table [] = out (text "No jobs found in the Dead Letter Queue." ∷ []) ∷ []
dead_table (job ∷ jobs) =
    out (text "JOB ID\tTYPE\tQUEUE\tRETRIES\tFAILED AT\tERROR REASON" ∷ [])
    ∷ dead_lines (job ∷ jobs)

unfoldable pub dead_stats_lines : List Group → List Line
dead_stats_lines [] = []
dead_stats_lines (g ∷ gs) = out (text g.queue ∷ count g.count ∷ []) ∷ dead_stats_lines gs

unfoldable pub dead_stats_table : List Group → List Line
unfolding dead_stats_lines
dead_stats_table [] = out (text "Dead Letter Queue is empty." ∷ []) ∷ []
dead_stats_table (g ∷ gs) =
    out (text "QUEUE NAME\tDEAD LETTER JOBS COUNT" ∷ []) ∷ dead_stats_lines (g ∷ gs)

abbrev pub retry_wording : Wording
retry_wording = record {
  verb = "retry";
  one_done = " successfully re-queued to pending state.";
  none_found = "No dead letter jobs found to retry.";
  start = "Re-queueing ";
  end = "Successfully re-queued ";
}

abbrev pub delete_wording : Wording
delete_wording = record {
  verb = "delete";
  one_done = " permanently deleted from DLQ.";
  none_found = "No dead letter jobs found to delete.";
  start = "Deleting ";
  end = "Successfully deleted ";
}

abbrev start_line : Wording → ℕ → Line
start_line words n = out (text words.start ∷ count n ∷ text " jobs from Dead Letter Queue..." ∷ [])

abbrev end_line : Wording → ℕ → ℕ → Line
end_line words done n =
    out (text words.end ∷ count done ∷ text " out of " ∷ count n ∷ text " dead letter jobs." ∷ [])

-- the lines of a sweep of n jobs
unfoldable pub swept_lines : Wording → ℕ → Swept → List Line
swept_lines words n swept =
    (start_line words n ∷ []) ++ swept.warnings ++ end_line words swept.successes n ∷ []

-- `successCount++`, or a warning and `continue`
unfoldable pub tallied : Wording → Job → Result (Unit {0}) → Swept → Swept
unfolding error_text
tallied words job (ok _) swept = record swept { successes = swept.successes + 1 }
tallied words job (err e) swept = record swept {
  warnings =
      swept.warnings
      ++ warning (
          text "Warning: failed to "
          ∷ text words.verb
          ∷ text " job "
          ∷ text job.id
          ∷ text ": "
          ∷ text (error_text e)
          ∷ [])
        ∷ [];
}

-- the loop over the dead jobs, with the call that it makes for each
unfoldable pub sweep :
    Wording → (String → Exec (Unit {0})) → List Job → Swept → World → Swept × World
unfolding tallied
sweep words call [] swept w = (swept, w)
sweep words call (job ∷ jobs) swept w =
    let (r, w') = call job.id w in sweep words call jobs (tallied words job r swept) w'

abbrev pub no_sweep : Swept
no_sweep = record { successes = 0; warnings = [] }

unfoldable pub sweep_found : Wording → (String → Exec (Unit {0})) → List Job → Exec (List Line)
unfolding sweep swept_lines
sweep_found words call [] w = (ok (out (text words.none_found ∷ []) ∷ []), w)
sweep_found words call (job ∷ jobs) w =
    let (swept, w') = sweep words call (job ∷ jobs) no_sweep w in
    (ok (swept_lines words (length (job ∷ jobs)) swept), w')

module _ (env : Env) where
  -- `dlq list`
  unfoldable pub list : DeadListFlags → Exec (List Line)
  unfolding dead_table
  list flags = do
    lift (refuse (ltb_ℤ flags.limit (pos 0)) "limit count cannot be negative")
    jobs ←
        wrapping "failed to query DLQ jobs"
          (Dlq.list env flags.queue flags.search (limit_or_default flags.limit))
    pure (dead_table jobs)

  -- the two guards on --id and --all
  abbrev pub check_target : Target → Exec (Unit {0})
  check_target target = do
    lift (
        refuse (target.id == "" && not target.all)
          "must specify either a specific job --id or --all")
    lift (
        refuse (not (target.id == "") && target.all)
          "cannot specify both a specific job --id and --all")

  abbrev pub for_one : Wording → String → (String → Exec (Unit {0})) → String → Exec (List Line)
  for_one words failure call id = do
    wrapping failure (call id)
    pure (out (text "Job " ∷ text id ∷ text words.one_done ∷ []) ∷ [])

  unfoldable pub for_all : Wording → (String → Exec (Unit {0})) → Exec (List Line)
  unfolding sweep_found
  for_all words call = do
    jobs ← wrapping "failed to query DLQ jobs" (Dlq.list env "" "" (pos 1000))
    sweep_found words call jobs

  -- `dlq retry`
  unfoldable pub retry : Target → Exec (List Line)
  unfolding for_all
  retry target = do
    check_target target
    if target.id == ""
        then for_all retry_wording (Dlq.retry env)
        else for_one retry_wording "failed to retry job" (Dlq.retry env) target.id

  -- `dlq delete`
  unfoldable pub delete : Target → Exec (List Line)
  unfolding for_all
  delete target = do
    check_target target
    if target.id == ""
        then for_all delete_wording (Dlq.delete_dead env)
        else for_one delete_wording "failed to delete job" (Dlq.delete_dead env) target.id

  -- `dlq restore`
  unfoldable pub restore : String → String → Exec (List Line)
  restore id queue = do
    lift (refuse (id == "") "must specify a job --id to restore")
    lift (refuse (queue == "") "must specify a target --queue name")
    wrapping "failed to restore job" (Dlq.restore env id queue)
    pure (
        out (
          text "Job "
          ∷ text id
          ∷ text " successfully restored to '"
          ∷ text queue
          ∷ text "' queue as pending."
          ∷ [])
        ∷ [])

  -- `dlq stats`
  unfoldable pub stats : Exec (List Line)
  unfolding dead_stats_table
  stats = do
    groups ← wrapping "failed to fetch DLQ statistics" (get_dead_stats env)
    pure (dead_stats_table groups)
