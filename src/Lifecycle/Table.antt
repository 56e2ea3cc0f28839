-- ===== src/Lifecycle/Table.antt =====
-- Writes to the jobs table as steps of the contract.
use mathlib.Core.Option
use queue_ctl.Prelude.{
  if◌then◌else◌, String, ◌≤◌, ◌≡◌, ◌≢◌, refl, sym, ◌∙◌, subst, true, false, Option, none, some,
  List, arith, ◌==◌, eq_iff, eq_refl, [], ◌∷◌, ◌++◌, find_row, count_rows, where_rows, update_rows,
  inl, inr, Bool-cases, Option-cases, ◌⊎◌, Bool,
}
use queue_ctl.Prelude.Lists.Keys.{count_rows-append}
use queue_ctl.Prelude.Lists.Rows.{
  count_rows-update_rows, find_row-append_none, find_row-append_some, find_row-none,
  find_row-where_rows-none, find_row-where_rows_one, count_rows-where_rows, find_row-update_rows,
}
use queue_ctl.Domain.Job.{Job, completed, dead_letter}
use queue_ctl.Repository.Jobs.{has_id}
use queue_ctl.Repository.Jobs.Lookup.{row_of-id}
use queue_ctl.Repository.Jobs.Save.{row_in, Written}
use queue_ctl.Lifecycle.{Move, IsNew, Change, keeps, adds, moves, removes, Step, Run, stop, next}

-- No identifier has two rows.
pub record Unique (rows : List Job) : Type 0 where
  pub at : (id : String) → count_rows (has_id id) rows ≤ 1

-- What an operation does to the table is a run of the contract, and keeps the key unique.
pub record Refines (before after : List Job) : Type 0 where
  pub run : Unique before → Run before after
  pub unique : Unique before → Unique after

Run-append : {a b c : List Job} → Run a b → Run b c → Run a c
Run-append (stop _) r = r
Run-append {c = c} (next a m b s q) r = next a m c s (Run-append q r)

pub Refines-refl : (rows : List Job) → Refines rows rows
Refines-refl rows = record { run = λ u. stop rows; unique = λ u. u }

pub Refines-same : {before after : List Job} → after ≡ before → Refines before after
Refines-same {before} e = subst (λ rows. Refines before rows) (sym e) (Refines-refl before)

pub Refines-given :
    {before after : List Job} → (Unique before → Refines before after) → Refines before after
Refines-given r = record { run = λ u. (r u).run u; unique = λ u. (r u).unique u }

pub Refines-trans : {a b c : List Job} → Refines a b → Refines b c → Refines a c
Refines-trans r q = record {
  run = λ u. Run-append (r.run u) (q.run (r.unique u));
  unique = λ u. q.unique (r.unique u);
}

one-Step : {before after : List Job} → Step before after → Run before after
one-Step {before} {after} s = next before after after s (stop after)

Change-same : {o o' : Option Job} → o' ≡ o → Change o o'
Change-same {o} e = subst (λ k. Change o k) (sym e) (keeps o)

Change-eq : {o o' p p' : Option Job} → o ≡ p → o' ≡ p' → Change p p' → Change o o'
Change-eq {p} e e' c = rw e (rw e' c)

-- One write along an edge of the state machine.
Written-Step :
    {id : String} {row row' : Job} {before after : List Job}
    → Move row row'
    → row_in id before ≡ some row
    → Written id row' before after
    → Step before after
Written-Step {id} {row} {row'} {before} {after} m found w = record {
  at = λ other. elim (Bool-cases (other == id)) [
    | inl e ↦
        let same : other ≡ id = ground (arith, eq_iff other id) in
        subst (λ k. Change (row_in k before) (row_in k after)) (sym same)
          (Change-eq found w.written (moves row row' m))
    | inr e ↦ Change-same (w.others other (λ k. ground (arith, eq_iff other id)))
  ];
}

pub Refines-Written :
    {id : String} {row row' : Job} {before after : List Job}
    → Move row row'
    → row_in id before ≡ some row
    → Written id row' before after
    → ((other : String) → count_rows (has_id other) after ≡ count_rows (has_id other) before)
    → Refines before after
Refines-Written m found w counts = record {
  run = λ u. one-Step (Written-Step m found w);
  unique = λ u. record { at = λ other. rw (counts other) (u.at other) };
}

not_found :
    (id : String) (rows : List Job) → count_rows (has_id id) rows ≡ 0 → row_in id rows ≡ none
not_found id rows h = find_row-none (has_id id) rows h

-- The insertion of a new job.
module _ (job : Job) (rows : List Job) (free : count_rows (has_id job.id) rows ≡ 0) where
  appended_here : row_in job.id (rows ++ job ∷ []) ≡ some job
  unfolding find_row
  appended_here =
      find_row-append_none (has_id job.id) rows (job ∷ []) (not_found job.id rows free)
      ∙ ground (arith, eq_refl job.id)

  appended_others :
      (other : String)
      → (job.id == other) ≡ false
      → row_in other (rows ++ job ∷ []) ≡ row_in other rows
  unfolding find_row
  appended_others other ne = elim (Option-cases (row_in other rows)) [
    | inl e ↦ find_row-append_none (has_id other) rows (job ∷ []) e ∙ ground arith
    | inr (row, e) ↦ find_row-append_some (has_id other) rows (job ∷ []) e ∙ sym e
  ]

  append-Step : IsNew job → Step rows (rows ++ job ∷ [])
  append-Step new = record {
    at = λ other. elim (Bool-cases (job.id == other)) [
      | inl e ↦
          let same : job.id ≡ other = ground (arith, eq_iff job.id other) in
          subst (λ k. Change (row_in k rows) (row_in k (rows ++ job ∷ []))) same
            (Change-eq (not_found job.id rows free) appended_here (adds job new))
      | inr e ↦ Change-same (appended_others other e)
    ];
  }

  append-Unique : Unique rows → Unique (rows ++ job ∷ [])
  unfolding count_rows
  append-Unique u = record {
    at = λ other. elim (Bool-cases (job.id == other)) [
      | inl e ↦
          let same : job.id ≡ other = ground (arith, eq_iff job.id other) in
          subst (λ k. count_rows (has_id k) (rows ++ job ∷ []) ≤ 1) same
            (rw (count_rows-append (has_id job.id) rows job) (ground (arith, eq_refl job.id)))
      | inr e ↦
          (let c = u.at other in rw (count_rows-append (has_id other) rows job) (ground arith))
    ];
  }

  pub Refines-append : IsNew job → Refines rows (rows ++ job ∷ [])
  Refines-append new = record { run = λ u. one-Step (append-Step new); unique = append-Unique }

-- The deletion of rows whose job is over.
module _ (q : Job → Bool) (rows : List Job) where
  deleted_at :
      (id : String) (o : Option Job)
      → row_in id rows ≡ o
      → count_rows (has_id id) rows ≤ 1
      → ((row : Job)
          → row_in id rows ≡ some row
          → q row ≡ false
          → (row.status ≡ completed) ⊎ (row.status ≡ dead_letter))
      → Change (row_in id rows) (row_in id (where_rows q rows))
  deleted_at id none e c over =
      Change-eq e (find_row-where_rows-none (has_id id) q rows e) (keeps none)
  deleted_at id (some row) e c over =
      let after = find_row-where_rows_one (has_id id) q rows c e in
      elim (Bool-cases (q row)) [
        | inl k ↦ Change-eq e (after ∙ rw k refl) (keeps (some row))
        | inr k ↦ Change-eq e (after ∙ rw k refl) (removes row (over row e k))
      ]

  pub Refines-delete :
      ((id : String) (row : Job)
        → row_in id rows ≡ some row
        → q row ≡ false
        → (row.status ≡ completed) ⊎ (row.status ≡ dead_letter))
      → Refines rows (where_rows q rows)
  Refines-delete over = record {
    run = λ u.
        one-Step (record { at = λ id. deleted_at id (row_in id rows) refl (u.at id) (over id) });
    unique = λ u. record {
      at = λ id. (let c = u.at id in omega (arith, count_rows-where_rows (has_id id) q rows));
    };
  }

-- A change of the row of one identifier that keeps the identifier.
module _ (p : Job → Bool) (f : Job → Job) (id : String) (rows : List Job) where
  elsewhere :
      (other : String) (o : Option Job)
      → ((x : Job) → p x ≡ true → x.id ≡ id)
      → other ≢ id
      → row_in other rows ≡ o
      → Option.map (λ x. if p x then f x else x) o ≡ o
  elsewhere other none only ne e = refl
  elsewhere other (some row) only ne e = ground (arith, only row, row_of-id other rows e)

  set-Written :
      {row : Job}
      → ((x : Job) → p x ≡ true → x.id ≡ id)
      → ((x : Job) → (f x).id ≡ x.id)
      → row_in id rows ≡ some row
      → p row ≡ true
      → Written id (f row) rows (update_rows p f rows)
  set-Written only keeps_id found hit = record {
    written =
        find_row-update_rows p (has_id id) f rows (λ x. rw (keeps_id x) refl)
        ∙ rw (found, hit) refl;
    others = λ other ne.
        find_row-update_rows p (has_id other) f rows (λ x. rw (keeps_id x) refl)
        ∙ elsewhere other (row_in other rows) only ne refl;
  }

  pub Refines-set :
      {row : Job}
      → ((x : Job) → p x ≡ true → x.id ≡ id)
      → ((x : Job) → (f x).id ≡ x.id)
      → (Unique rows → row_in id rows ≡ some row)
      → p row ≡ true
      → Move row (f row)
      → Refines rows (update_rows p f rows)
  Refines-set only keeps_id found hit m = record {
    run = λ u. one-Step (Written-Step m (found u) (set-Written only keeps_id (found u) hit));
    unique = λ u. record {
      at = λ other.
          rw (count_rows-update_rows p (has_id other) f rows (λ x. rw (keeps_id x) refl))
            (u.at other);
    };
  }
