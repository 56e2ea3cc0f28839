-- ===== src/Repository/Stats/Counts.antt =====
-- The statistics are the counts of the rows.
use queue_ctl.Prelude.{
  ℕ, suc, String, Bool, true, false, ◌&&◌, ◌≡◌, refl, ap, ◌∙◌, List, [], ◌∷◌, ◌==◌, eq_iff, arith,
  count_rows, Bool-cases, inl, inr, if◌then◌else◌, subst, ◌↔◌,
}
use queue_ctl.Domain.Errors.{ok}
use queue_ctl.Domain.Job.{
  Job, JobStatus, pending, running, completed, failed, dead_letter, unsupported, status_eq,
}
use queue_ctl.Store.{Env, World}
use queue_ctl.Repository.Jobs.{group_count}
use queue_ctl.Repository.Stats.{Group, is_group, count_in, groups, stat, get_queue_stats}

pub status_eq_iff : (a b : JobStatus) → (status_eq a b ≡ true) ↔ (a ≡ b)
unfolding status_eq
status_eq_iff pending b = ground arith
status_eq_iff running b = ground arith
status_eq_iff completed b = ground arith
status_eq_iff failed b = ground arith
status_eq_iff dead_letter b = ground arith
status_eq_iff (unsupported s) pending = ground arith
status_eq_iff (unsupported s) running = ground arith
status_eq_iff (unsupported s) completed = ground arith
status_eq_iff (unsupported s) failed = ground arith
status_eq_iff (unsupported s) dead_letter = ground arith
status_eq_iff (unsupported s) (unsupported t) = ground (arith, eq_iff s t)

-- Whether a row of `q` and `s` is one of `queue` and `status`.
abbrev is_key : String → JobStatus → String → JobStatus → Bool
is_key queue status q s = q == queue && status_eq s status

module _ (queue : String) (status : JobStatus) (q : String) (s : JobStatus) (g : Group) where
  same_key : is_group q s g ≡ true → is_group queue status g ≡ is_key queue status q s
  same_key h =
      let same_queue : g.queue ≡ q = ground (arith, eq_iff g.queue q) in
      let same_status : g.status ≡ s = ground (arith, status_eq_iff g.status s) in
      rw (same_queue, same_status) refl

  other_key :
      is_group q s g ≡ false → is_group queue status g ≡ true → is_key queue status q s ≡ false
  other_key h k = elim (Bool-cases (is_key queue status q s)) [
    | inl e ↦
        let same_queue : q ≡ queue = ground (arith, eq_iff q queue) in
        let same_status : s ≡ status = ground (arith, status_eq_iff s status) in
        let clash : is_group queue status g ≡ false =
          subst (λ x. is_group x status g ≡ false) same_queue
            (subst (λ x. is_group q x g ≡ false) same_status h) in
        absurd (ground arith)
    | inr e ↦ e
  ]

-- What one more row adds to a count.
abbrev pub more : Bool → ℕ → ℕ
more b n = if b then suc n else n

same_more : (b k : Bool) (n m : ℕ) → b ≡ k → (if b then suc n else m) ≡ more k (if b then n else m)
same_more true k n m h = rw (← h) refl
same_more false k n m h = rw (← h) refl

other_more :
    (b k : Bool) (n m x : ℕ)
    → (b ≡ true → k ≡ false)
    → x ≡ more k m
    → (if b then n else x) ≡ more k (if b then n else m)
other_more true k n m x h e = rw (h refl) refl
other_more false k n m x h e = e

stat-count_in :
    (queue : String) (status : JobStatus) (q : String) (s : JobStatus) (gs : List Group)
    → stat queue status (count_in q s gs) ≡ more (is_key queue status q s) (stat queue status gs)
unfolding stat count_in
stat-count_in queue status q s [] = refl
stat-count_in queue status q s (g ∷ gs) = elim (Bool-cases (is_group q s g)) [
  | inl e ↦ rw e (
      same_more (is_group queue status g) (is_key queue status q s) g.count (stat queue status gs)
        (same_key queue status q s g e))
  | inr e ↦ rw e (
      other_more (is_group queue status g) (is_key queue status q s) g.count (stat queue status gs)
        _ (other_key queue status q s g e) (stat-count_in queue status q s gs))
]

stat-groups :
    (queue : String) (status : JobStatus) (rows : List Job)
    → stat queue status (groups rows) ≡ group_count queue status rows
unfolding groups group_count count_rows stat
stat-groups queue status [] = refl
stat-groups queue status (j ∷ js) =
    stat-count_in queue status j.queue j.status (groups js)
    ∙ ap (more (is_key queue status j.queue j.status)) (stat-groups queue status js)

-- If GetQueueStats returns statistics, then the entry of each queue and state, or 0 where there is
-- none, is the number of the rows of the table in that queue and state; the tables are as before.
pub get_queue_stats-counts :
    (env : Env) (w : World) {stats : List Group}
    → (get_queue_stats env w).0 ≡ ok stats
    → ((queue : String) (status : JobStatus)
        → stat queue status stats ≡ group_count queue status w.db.jobs)
      × ((get_queue_stats env w).1.db ≡ w.db)
unfolding get_queue_stats
get_queue_stats-counts env w {stats} h =
    let same : groups w.db.jobs ≡ stats = ground arith in
    (
      (λ queue status.
          subst (λ gs. stat queue status gs ≡ group_count queue status w.db.jobs) same
            (stat-groups queue status w.db.jobs)),
      ground arith,
    )
