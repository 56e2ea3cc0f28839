-- ===== src/Cli/Dead/Emptied.antt =====
-- What `dlq delete --all` of internal/cli/dlq.go leaves behind when the driver reports no fault.
use queue_ctl.Prelude.{
  ℕ, zero, suc, ◌+◌, ◌≤◌, ◌≡◌, refl, ap, sym, subst, ◌∙◌, String, true, not, some, List, [], ◌∷◌,
  arith, eq_iff, eq_refl, ◌==◌, length, count_rows, where_rows, Bool-cases, inl, inr,
}
use queue_ctl.Prelude.Int.{pos}
use queue_ctl.Prelude.Lists.Rows.{count_rows_found, count_rows-where_rows}
use queue_ctl.Prelude.Lists.Measure.{count_rows-order_by, take-all}
use queue_ctl.Domain.Errors.{ok}
use queue_ctl.Domain.Job.{Job, dead_letter}
use queue_ctl.Store.{Env, Db, World}
use queue_ctl.Repository.Jobs as Jobs
use queue_ctl.Repository.Jobs.{has_id, is_listed, listed_before}
use queue_ctl.Repository.Jobs.Save.{row_in}
use queue_ctl.Dlq.{fetch_dead, delete_dead}
use queue_ctl.Dlq as Dlq
use queue_ctl.Lifecycle.Table.{Unique}
use queue_ctl.Service.Outcomes.Calm.{IsCalm}
use queue_ctl.Cli.{Line, out, text}
use queue_ctl.Cli.Dead.{
  Swept, sweep, sweep_found, for_all, swept_lines, tallied, no_sweep, delete_wording, delete,
}
use queue_ctl.Cli.Dead.Rows.{
  is_dead, dead_at, without, dead_at-count, find_dead, dead_at-without_self, dead_at-without,
  alive-without, all_alive, dead_rows, selected_at, length-dead_rows,
}

-- What `dlq delete --all` prints when it finds and deletes `n` dead jobs.
abbrev pub deleted_report : ℕ → List Line
deleted_report zero = out (text delete_wording.none_found ∷ []) ∷ []
deleted_report (suc n) =
    swept_lines delete_wording (suc n) (record { successes = suc n; warnings = [] })

module _ (env : Env) (calm : IsCalm env) where
  delete_dead_ok :
      (id : String) (w : World) {row : Job}
      → row_in id w.db.jobs ≡ some row
      → is_dead row ≡ true
      → ((delete_dead env id w).0 ≡ ok tt)
        × ((delete_dead env id w).1.db.jobs ≡ without id w.db.jobs)
  unfolding delete_dead fetch_dead Jobs.get_by_id Jobs.delete
  delete_dead_ok id w {row} found dead = (
    ground (
      arith,
      calm w.calls,
      calm (w.calls + 1),
      calm (w.calls + 1 + 1),
      count_rows_found (has_id id) w.db.jobs found,
    ),
    ground (
      arith,
      calm w.calls,
      calm (w.calls + 1),
      calm (w.calls + 1 + 1),
      count_rows_found (has_id id) w.db.jobs found,
    ),
  )

  deleted_Unique : (id : String) (rows : List Job) → Unique rows → Unique (without id rows)
  deleted_Unique id rows u = record {
    at = λ other.
        (let c = u.at other in
          omega (arith, count_rows-where_rows (has_id other) (λ j. not (has_id id j)) rows));
  }

  listed_rest :
      (job : Job) (jobs rows : List Job)
      → Unique rows
      → ((id : String) → dead_at id rows ≡ count_rows (has_id id) (job ∷ jobs))
      → (id : String) → dead_at id (without job.id rows) ≡ count_rows (has_id id) jobs
  unfolding count_rows
  listed_rest job jobs rows u listed id = elim (Bool-cases (job.id == id)) [
    | inl e ↦
        let same : job.id ≡ id = ground (arith, eq_iff job.id id) in
        let here : dead_at job.id rows ≡ suc (count_rows (has_id job.id) jobs) =
          listed job.id ∙ rw (eq_refl job.id) refl in
        let none_left : count_rows (has_id job.id) jobs ≡ 0 =
          (let c = u.at job.id in omega (arith, dead_at-count job.id rows)) in
        subst (λ k. dead_at k (without job.id rows) ≡ count_rows (has_id k) jobs) same
          (dead_at-without_self job.id rows ∙ sym none_left)
    | inr e ↦
        dead_at-without job.id id rows (λ k. ground (arith, eq_iff job.id id))
        ∙ listed id
        ∙ rw e refl
  ]

  -- The dead jobs of the table are those of the list: the loop deletes each of them.
  swept_dead :
      (jobs : List Job) (swept : Swept) (w : World)
      → Unique w.db.jobs
      → ((id : String) → dead_at id w.db.jobs ≡ count_rows (has_id id) jobs)
      → let (swept', w') = sweep delete_wording (delete_dead env) jobs swept w in
        (swept' ≡ record swept { successes = swept.successes + length jobs })
        × (w'.db.jobs ≡ where_rows (λ j. not (is_dead j)) w.db.jobs)
  unfolding sweep count_rows tallied
  swept_dead [] swept w u listed = (ground arith, sym (all_alive w.db.jobs listed))
  swept_dead (job ∷ jobs) swept w u listed =
      let here : dead_at job.id w.db.jobs ≡ suc (count_rows (has_id job.id) jobs) =
        listed job.id ∙ rw (eq_refl job.id) refl in
      let one = u.at job.id in
      let (row, found, dead) = find_dead job.id w.db.jobs _ here one in
      let (done, after) = delete_dead_ok job.id w found dead in
      let w' = (delete_dead env job.id w).1 in
      let swept' = record swept { successes = swept.successes + 1 } in
      let (rest, emptied) =
        swept_dead jobs swept' w' (subst Unique (sym after) (deleted_Unique job.id w.db.jobs u)) (
          subst (λ rows. (id : String) → dead_at id rows ≡ count_rows (has_id id) jobs) (sym after)
            (listed_rest job jobs w.db.jobs u listed)) in
      let whole : dead_at job.id w.db.jobs ≡ count_rows (has_id job.id) w.db.jobs =
        omega (arith, dead_at-count job.id w.db.jobs) in
      let kept =
        ap (where_rows (λ j. not (is_dead j))) after ∙ alive-without job.id w.db.jobs whole in
      subst
        (λ r.
          let (end, w'') =
            sweep delete_wording (delete_dead env) jobs (tallied delete_wording job r swept) w' in
          (end ≡ record swept { successes = swept.successes + suc (length jobs) })
          × (w''.db.jobs ≡ where_rows (λ j. not (is_dead j)) w.db.jobs))
        (sym done) (rest ∙ ap (λ n. record swept { successes = n }) (omega arith), emptied ∙ kept)

  listed_dead :
      (w : World)
      → count_rows is_dead w.db.jobs ≤ 1000
      → ((Dlq.list env "" "" (pos 1000) w).0 ≡ ok (dead_rows w.db.jobs))
        × ((Dlq.list env "" "" (pos 1000) w).1.db ≡ w.db)
  unfolding Dlq.list Jobs.list_jobs
  listed_dead w few =
      let all = take-all 1000 (dead_rows w.db.jobs) (omega (arith, length-dead_rows w.db.jobs)) in
      (ground (arith, calm w.calls), ground (arith, calm w.calls))

  found_swept :
      (jobs : List Job) (w : World)
      → Unique w.db.jobs
      → ((id : String) → dead_at id w.db.jobs ≡ count_rows (has_id id) jobs)
      → ((sweep_found delete_wording (delete_dead env) jobs w).0
          ≡ ok (deleted_report (length jobs)))
        × ((sweep_found delete_wording (delete_dead env) jobs w).1.db.jobs
            ≡ where_rows (λ j. not (is_dead j)) w.db.jobs)
  unfolding sweep_found count_rows
  found_swept [] w u listed = (refl, sym (all_alive w.db.jobs listed))
  found_swept (job ∷ jobs) w u listed =
      let (end, emptied) = swept_dead (job ∷ jobs) no_sweep w u listed in
      (
        ap (λ k. ok (swept_lines delete_wording (suc (length jobs)) k)) end
            ∙ ap
                (λ n. ok (
                  swept_lines delete_wording (suc (length jobs))
                    (record { successes = n; warnings = [] })))
                (omega arith),
        emptied,
      )

  -- With a driver that reports no fault, a jobs table whose key is unique and at most 1000 dead jobs,
  -- `dlq delete --all` returns no error and no warning and reports that it deleted as many jobs as
  -- were dead; afterwards the table is the rows that were not dead, in their order.
  pub delete_all-empties :
      (w : World)
      → Unique w.db.jobs
      → count_rows is_dead w.db.jobs ≤ 1000
      → let (printed, w') = delete env (record { id = ""; all = true }) w in
        (printed ≡ ok (deleted_report (count_rows is_dead w.db.jobs)))
        × (w'.db.jobs ≡ where_rows (λ j. not (is_dead j)) w.db.jobs)
  unfolding delete for_all
  delete_all-empties w u few =
      let rows = w.db.jobs in
      let (found, read) = listed_dead w few in
      let w₁ = (Dlq.list env "" "" (pos 1000) w).1 in
      let at : (id : String) → dead_at id rows ≡ count_rows (has_id id) (dead_rows rows) = λ id.
        selected_at id rows
        ∙ sym (
            count_rows-order_by (has_id id) listed_before
              (where_rows (is_listed "" dead_letter "") rows)) in
      let (printed, emptied) =
        found_swept (dead_rows rows) w₁ (subst (λ db. Unique db.jobs) (sym read) u) (
          subst
            (λ (db : Db).
              (id : String) → dead_at id db.jobs ≡ count_rows (has_id id) (dead_rows rows))
            (sym read) at) in
      rw found (
        printed ∙ ap (λ n. ok (deleted_report n)) (length-dead_rows rows),
        emptied ∙ ap (λ db. where_rows (λ j. not (is_dead j)) db.jobs) read,
      )
