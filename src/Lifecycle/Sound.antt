-- ===== src/Lifecycle/Sound.antt =====
-- What holds of every row that the contract of the queue allows.
use queue_ctl.Prelude.{
  String, ◌+◌, ◌<◌, ◌^◌, ◌≡◌, ◌≢◌, refl, ap, sym, ◌∙◌, true, Option, none, some, List, arith,
  eq_iff, [], find_row,
}
use queue_ctl.Prelude.Int.{ℤ, pos, negsuc, pos_part, ◌+ℤ◌, ◌≤ℤ◌, ◌<ℤ◌, wrap64, wrap64_next}
use queue_ctl.Domain.Errors.{ok}
use queue_ctl.Domain.Job.{Job, JobStatus, dead_letter, is_supported, validate}
use queue_ctl.Repository.Jobs.Save.{row_in}
use queue_ctl.Lifecycle.{
  Move, starts, completes, retries, dies, revives, IsNew, Change, keeps, adds, moves, removes, Run,
  stop, next,
}

-- What an operation never changes in a row.
pub record IsFixed (id job_type queue : String) (max : ℤ) : Type 0 where
  pub has_id : id ≢ ""
  pub has_type : job_type ≢ ""
  pub has_queue : queue ≢ ""
  pub max_known : pos 0 ≤ℤ max
  pub max_bounded : pos_part max + 1 < 2 ^ 63

-- A row of the queue is valid; unless it is dead its failures are at most max_retries, and when it is
-- dead they are one more.
pub record IsSound (row : Job) : Type 0 where
  pub fixed : IsFixed row.id row.job_type row.queue row.max_retries
  pub supported : is_supported row.status ≡ true
  pub counted : pos 0 ≤ℤ row.retries_count
  pub in_budget : row.status ≢ dead_letter → row.retries_count ≤ℤ row.max_retries
  pub exhausted : row.status ≡ dead_letter → row.retries_count ≡ pos (pos_part row.max_retries + 1)

pub IsSound-valid : (row : Job) → IsSound row → validate row ≡ ok tt
unfolding validate
IsSound-valid row s =
    let i = s.fixed.has_id in
    let t = s.fixed.has_type in
    let q = s.fixed.has_queue in
    let k = s.supported in
    let c = s.counted in
    let m = s.fixed.max_known in
    ground (arith, eq_iff row.id "", eq_iff row.job_type "", eq_iff row.queue "")

-- One more failure of a job in its budget does not wrap.
next_count :
    (n max : ℤ)
    → pos 0 ≤ℤ n
    → n ≤ℤ max
    → pos_part max + 1 < 2 ^ 63
    → wrap64 (n +ℤ pos 1) ≡ pos (pos_part n + 1)
next_count (pos n) max c h b = wrap64_next n (omega arith)
next_count (negsuc n) max c h b = absurd (omega arith)

dead_count :
    (n max : ℤ)
    → pos 0 ≤ℤ n
    → n ≤ℤ max
    → pos 0 ≤ℤ max
    → pos_part max + 1 < 2 ^ 63
    → max <ℤ wrap64 (n +ℤ pos 1)
    → wrap64 (n +ℤ pos 1) ≡ pos (pos_part max + 1)
dead_count n max c h m b k =
    let count = next_count n max c h b in
    count ∙ ap pos (let k' = rw count at k in go n max c h m k')
  where
    go :
        (n max : ℤ)
        → pos 0 ≤ℤ n
        → n ≤ℤ max
        → pos 0 ≤ℤ max
        → max <ℤ pos (pos_part n + 1)
        → pos_part n + 1 ≡ pos_part max + 1
    go (pos n) (pos max) c h m k = omega arith
    go (negsuc n) max c h m k = absurd (omega arith)
    go (pos n) (negsuc max) c h m k = absurd (omega arith)

IsNew-IsSound : (row : Job) → IsNew row → IsSound row
IsNew-IsSound row n = record {
  fixed = record {
    has_id = n.has_id;
    has_type = n.has_type;
    has_queue = n.has_queue;
    max_known = n.max_known;
    max_bounded = n.max_bounded;
  };
  supported = ap is_supported n.is_pending;
  counted = (let c = n.not_tried in rw c (omega arith));
  in_budget = λ _. (let c = n.not_tried in let m = n.max_known in rw c m);
  exhausted = λ d. (let p = n.is_pending in cc);
}

-- An edge that leaves the count alone, between two states that are not dead.
alive_IsSound :
    (row : Job) {status : JobStatus}
    → IsSound row
    → row.status ≡ status
    → status ≢ dead_letter
    → row.retries_count ≤ℤ row.max_retries
alive_IsSound row s p alive = s.in_budget (λ d. alive (sym p ∙ d))

Move-IsSound : (row row' : Job) → Move row row' → IsSound row → IsSound row'
Move-IsSound row row' (starts _ t p) s = record {
  fixed = s.fixed;
  supported = refl;
  counted = s.counted;
  in_budget = λ _. alive_IsSound row s p (λ d. cc);
  exhausted = λ d. cc;
}
Move-IsSound row row' (completes _ t p) s = record {
  fixed = s.fixed;
  supported = refl;
  counted = s.counted;
  in_budget = λ _. alive_IsSound row s p (λ d. cc);
  exhausted = λ d. cc;
}
Move-IsSound row row' (retries _ text run t p low) s =
    let count =
      next_count row.retries_count row.max_retries s.counted (alive_IsSound row s p (λ d. cc))
        s.fixed.max_bounded in
    record {
      fixed = s.fixed;
      supported = refl;
      counted = rw count (omega arith);
      in_budget = λ _. low;
      exhausted = λ d. cc;
    }
Move-IsSound row row' (dies _ text t p high) s =
    let alive = alive_IsSound row s p (λ d. cc) in
    let count = next_count row.retries_count row.max_retries s.counted alive s.fixed.max_bounded in
    record {
      fixed = s.fixed;
      supported = refl;
      counted = rw count (omega arith);
      in_budget = λ n. absurd (n refl);
      exhausted = λ d.
          dead_count row.retries_count row.max_retries s.counted alive s.fixed.max_known
            s.fixed.max_bounded high;
    }
Move-IsSound row row' (revives _ run t p) s = record {
  fixed = s.fixed;
  supported = refl;
  counted = omega arith;
  in_budget = λ _. s.fixed.max_known;
  exhausted = λ d. cc;
}

abbrev pub Holds : (Job → Type 0) → Option Job → Type 0
Holds P none = Unit
Holds P (some row) = P row

Change-IsSound : (o o' : Option Job) → Change o o' → Holds IsSound o → Holds IsSound o'
Change-IsSound o o' (keeps _) h = h
Change-IsSound o o' (adds row n) h = IsNew-IsSound row n
Change-IsSound o o' (moves row row' m) h = Move-IsSound row row' m h
Change-IsSound o o' (removes row over) h = tt

-- Every row that can be found in a table is sound.
pub record AllSound (rows : List Job) : Type 0 where
  pub at : (id : String) → Holds IsSound (row_in id rows)

pub AllSound-nil : AllSound []
unfolding find_row
AllSound-nil = record { at = λ id. tt }

pub Run-AllSound : (before after : List Job) → Run before after → AllSound before → AllSound after
Run-AllSound before after (stop _) h = h
Run-AllSound before after (next _ middle _ step run) h = Run-AllSound middle after run (record {
  at = λ id. Change-IsSound (row_in id before) (row_in id middle) (step.at id) (h.at id);
})
