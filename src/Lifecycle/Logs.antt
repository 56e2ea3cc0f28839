-- ===== src/Lifecycle/Logs.antt =====
-- The invariant of the table execution_logs, and the statements that write it.
pub mod Outcomes
pub mod Fetch
pub mod Histories
use queue_ctl.Prelude.{
  String, ◌+◌, ◌≤◌, ◌≡◌, ◌⊎◌, inl, inr, ap, sym, subst, refl, Bool, true, false, Bool-cases, Option,
  none, some, Option-cases, List, [], ◌∷◌, ◌++◌, arith, All, count_rows, find_row, update_rows,
  get_last?, eqb, ◌==◌, where_rows, order_by, eq_iff, eq_refl, if◌then◌else◌,
}
use queue_ctl.Prelude.Int.{pos, ◌≤ℤ◌, ltb_ℤ}
use queue_ctl.Prelude.Lists.Keys.{
  All-update_rows, All-append, only_row, All-found, count_rows-append,
}
use queue_ctl.Prelude.Lists.Order.{All-map, All-where_rows, All-order_by}
use queue_ctl.Prelude.Lists.Rows.{count_rows-update_rows}
use queue_ctl.Domain.ExecutionLog.{ExecutionLog, ExecutionStatus, success, failed, other, is_zero}
use queue_ctl.Domain.Clocked.{complete, or_now}
use queue_ctl.Store.{Env, Db, World, driver_call, now}
use queue_ctl.Repository.Logs as Logs
use queue_ctl.Service.Outcomes.{close_if}
use queue_ctl.Service.Outcomes.Calm.{All-get_last?}

-- A log is open, or has ended no earlier than it started.
abbrev pub IsOrdered : ExecutionLog → Type 0
IsOrdered l = (l.finished_at ≡ pos 0) ⊎ (l.started_at ≤ℤ l.finished_at)

pub record LogsSound (logs : List ExecutionLog) : Type 0 where
  pub unique : (id : String) → count_rows (Logs.has_id id) logs ≤ 1
  pub ordered : All IsOrdered logs

-- The log of an identifier is closed at a time that is not before its start.
update-LogsSound :
    (l l' : ExecutionLog) (logs : List ExecutionLog)
    → find_row (Logs.has_id l.id) logs ≡ some l
    → l.started_at ≤ℤ l'.finished_at
    → LogsSound logs
    → LogsSound (update_rows (Logs.has_id l.id) (Logs.updated_log l') logs)
update-LogsSound l l' logs found later s = record {
  unique = λ id.
      subst (λ n. n ≤ 1)
        (sym (
          count_rows-update_rows (Logs.has_id l.id) (Logs.has_id id) (Logs.updated_log l') logs
            (λ x. refl)))
        (s.unique id);
  ordered =
      All-update_rows IsOrdered (Logs.has_id l.id) (Logs.updated_log l') logs
        (All-map logs (λ x only passes. inr (let same = only passes in ground arith))
          (only_row (Logs.has_id l.id) logs found (s.unique l.id)))
        s.ordered;
}

pub append-LogsSound :
    (l : ExecutionLog) (logs : List ExecutionLog)
    → count_rows (Logs.has_id l.id) logs ≡ 0
    → l.finished_at ≡ pos 0
    → LogsSound logs
    → LogsSound (logs ++ l ∷ [])
unfolding count_rows
append-LogsSound l logs new open_yet s = record {
  unique = λ id. elim (Bool-cases (l.id == id)) [
    | inl e ↦
        let same : l.id ≡ id = ground (arith, eq_iff l.id id) in
        subst (λ k. count_rows (Logs.has_id k) (logs ++ l ∷ []) ≤ 1) same
          (rw (count_rows-append (Logs.has_id l.id) logs l) (ground (arith, eq_refl l.id)))
    | inr e ↦ let c = s.unique id in rw (count_rows-append (Logs.has_id id) logs l) (ground arith)
  ];
  ordered = All-append IsOrdered logs l s.ordered (inl open_yet);
}

-- The last log of a job is the one that its identifier finds.
pub last_found :
    (job_id : String) (logs : List ExecutionLog) {l : ExecutionLog}
    → LogsSound logs
    → get_last? (Logs.logs_of job_id logs) ≡ some l
    → find_row (Logs.has_id l.id) logs ≡ some l
unfolding Logs.logs_of
last_found job_id logs {l} s e =
    let P = λ (l : ExecutionLog).
      (Logs.of_job job_id l ≡ true) × (find_row (Logs.has_id l.id) logs ≡ some l) in
    let selected = where_rows (Logs.of_job job_id) logs in
    (All-get_last? P (order_by Logs.attempted_before selected)
      (All-order_by Logs.attempted_before P selected (
        All-where_rows (λ l. find_row (Logs.has_id l.id) logs ≡ some l) (Logs.of_job job_id) logs
          (All-map logs (λ l h. h (s.unique l.id)) (All-found (λ l. l.id) logs))))
      e).1

module _ (env : Env) where
  -- A log that is closed with a status that Complete accepts.
  abbrev closed : ExecutionStatus → String → ExecutionLog → World → ExecutionLog
  closed status text l w = record l {
    status = status;
    finished_at =
        if is_zero (env.clock w.reads) then env.clock (w.reads + 1) else env.clock w.reads;
    error_message = text;
  }

  closes :
      (status : ExecutionStatus) (text : String) (l : ExecutionLog) (w : World)
      → (status ≡ success) ⊎ (status ≡ failed)
      → let after = (close_if env true status text l w).1.db.logs in
        (after ≡ w.db.logs)
        ⊎ ((l' : ExecutionLog) × (l.started_at ≤ℤ l'.finished_at)
            × (after ≡ update_rows (Logs.has_id l.id) (Logs.updated_log l') w.db.logs))
  unfolding now complete or_now Logs.update
  closes (other x) text l w known = absurd (ground arith)
  closes success text l w known =
      let l' = closed success text l w in
      elim (Bool-cases (ltb_ℤ l'.finished_at l.started_at)) [
        | inl early ↦ inl (ground arith)
        | inr e ↦ elim (Option-cases (env.fault w.calls)) [
          | inl none_faults ↦ inr (l', ground arith, ground arith)
          | inr (x, fault) ↦ inl (ground arith)
        ]
      ]
  closes failed text l w known =
      let l' = closed failed text l w in
      elim (Bool-cases (ltb_ℤ l'.finished_at l.started_at)) [
        | inl early ↦ inl (ground arith)
        | inr e ↦ elim (Option-cases (env.fault w.calls)) [
          | inl none_faults ↦ inr (l', ground arith, ground arith)
          | inr (x, fault) ↦ inl (ground arith)
        ]
      ]

  -- Closing a log leaves the table alone, or closes the log in it.
  close_cases :
      (status : ExecutionStatus) (text : String) (l : ExecutionLog) (w : World)
      → let after = (close_if env true status text l w).1.db.logs in
        (after ≡ w.db.logs)
        ⊎ ((l' : ExecutionLog) × (l.started_at ≤ℤ l'.finished_at)
            × (after ≡ update_rows (Logs.has_id l.id) (Logs.updated_log l') w.db.logs))
  unfolding now complete or_now Logs.update
  close_cases (other x) text l w = inl (ground arith)
  close_cases success text l w = closes success text l w (inl refl)
  close_cases failed text l w = closes failed text l w (inr refl)

  pub close_if-LogsSound :
      (b : Bool) (status : ExecutionStatus) (text : String) (l : ExecutionLog) (w : World)
      → find_row (Logs.has_id l.id) w.db.logs ≡ some l
      → LogsSound w.db.logs
      → LogsSound (close_if env b status text l w).1.db.logs
  close_if-LogsSound false status text l w found s = s
  close_if-LogsSound true status text l w found s = elim (close_cases status text l w) [
    | inl same ↦ subst LogsSound (sym same) s
    | inr (l', later, written) ↦
        subst LogsSound (sym written) (update-LogsSound l l' w.db.logs found later s)
  ]
