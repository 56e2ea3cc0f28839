-- ===== src/Prelude/Lists/Rows.antt =====
-- Laws of the table operations.
use Prim.Native.Nat.{◌<◌, ◌≤◌}
use mathlib.Core.Path.{◌≡◌, refl}
use mathlib.Core.Bool.{Bool, true, false, not}
use mathlib.Core.List.{List, [], ◌∷◌, ◌++◌}
use mathlib.Core.Logic.{inl, inr}
use mathlib.Core.Option
use mathlib.Core.Option.{Option, none, some}
use native.Mathlib.Omega.{arith}
use queue_ctl.Prelude.Tests.{if◌then◌else◌, Bool-cases}
use queue_ctl.Prelude.Lists.{where_rows, update_rows, count_rows, find_row}

module _ {ℓ} {A : Type ℓ} (p : A → Bool) where
  -- An update that no row passes changes nothing.
  pub update_rows_none :
      (f : A → A) (rows : List A) → count_rows p rows ≡ 0 → update_rows p f rows ≡ rows
  unfolding update_rows count_rows
  update_rows_none f [] h = refl
  update_rows_none f (x ∷ xs) h = ground (arith, update_rows_none f xs)

  -- A test that the update leaves alone counts the same rows.
  pub count_rows-update_rows :
      (q : A → Bool) (f : A → A) (rows : List A)
      → ((x : A) → q (f x) ≡ q x)
      → count_rows q (update_rows p f rows) ≡ count_rows q rows
  unfolding update_rows count_rows
  count_rows-update_rows q f [] h = refl
  count_rows-update_rows q f (x ∷ xs) h = ground (arith, h x, count_rows-update_rows q f xs h)

  pub count_rows_sub :
      (q : A → Bool) (rows : List A)
      → ((x : A) → p x ≡ true → q x ≡ true)
      → count_rows p rows ≤ count_rows q rows
  unfolding count_rows
  count_rows_sub q [] h = omega arith
  count_rows_sub q (x ∷ xs) h = ground (arith, h x, count_rows_sub q xs h)

  -- After the rows that pass are changed so that they fail `q`, and if `q` passes no other, no row
  -- passes `q`.
  pub count_rows-update_rows_gone :
      (q : A → Bool) (f : A → A) (rows : List A)
      → ((x : A) → p x ≡ true → q (f x) ≡ false)
      → ((x : A) → p x ≡ false → q x ≡ false)
      → count_rows q (update_rows p f rows) ≡ 0
  unfolding update_rows count_rows
  count_rows-update_rows_gone q f [] h k = refl
  count_rows-update_rows_gone q f (x ∷ xs) h k =
      ground (arith, h x, k x, count_rows-update_rows_gone q f xs h k)

  pub find_row-update_rows :
      (q : A → Bool) (f : A → A) (rows : List A)
      → ((x : A) → q (f x) ≡ q x)
      → find_row q (update_rows p f rows)
        ≡ Option.map (λ x. if p x then f x else x) (find_row q rows)
  unfolding update_rows find_row
  find_row-update_rows q f [] h = refl
  find_row-update_rows q f (x ∷ xs) h = ground (arith, h x, find_row-update_rows q f xs h)

  pub find_row-append_none :
      (rows more : List A) → find_row p rows ≡ none → find_row p (rows ++ more) ≡ find_row p more
  unfolding find_row
  find_row-append_none [] more h = refl
  find_row-append_none (x ∷ xs) more h = ground (arith, find_row-append_none xs more)

  pub find_row-append_some :
      (rows more : List A) {a : A} → find_row p rows ≡ some a → find_row p (rows ++ more) ≡ some a
  unfolding find_row
  find_row-append_some [] more h = ground arith
  find_row-append_some (x ∷ xs) more {a} h = ground (arith, find_row-append_some xs more {a = a})

  pub find_row-none : (rows : List A) → count_rows p rows ≡ 0 → find_row p rows ≡ none
  unfolding find_row count_rows
  find_row-none [] h = refl
  find_row-none (x ∷ xs) h = ground (arith, find_row-none xs)

  pub find_row_passes : (rows : List A) {a : A} → find_row p rows ≡ some a → p a ≡ true
  unfolding find_row
  find_row_passes [] h = ground arith
  find_row_passes (x ∷ xs) {a} h = ground (arith, find_row_passes xs {a = a})

  pub count_rows_found : (rows : List A) {a : A} → find_row p rows ≡ some a → 0 < count_rows p rows
  unfolding find_row count_rows
  count_rows_found [] h = ground arith
  count_rows_found (x ∷ xs) {a} h = ground (arith, count_rows_found xs {a = a})

  -- What is deleted is not found, and what is kept is found as before.
  pub find_row-where_rows :
      (q : A → Bool) (rows : List A)
      → ((x : A) → q x ≡ true → p x ≡ true)
      → find_row q (where_rows p rows) ≡ find_row q rows
  unfolding where_rows find_row
  find_row-where_rows q [] h = refl
  find_row-where_rows q (x ∷ xs) h = ground (arith, h x, find_row-where_rows q xs h)

  pub count_rows-where_rows-not :
      (rows : List A) → count_rows p (where_rows (λ x. not (p x)) rows) ≡ 0
  unfolding where_rows count_rows
  count_rows-where_rows-not [] = refl
  count_rows-where_rows-not (x ∷ xs) = ground (arith, count_rows-where_rows-not xs)

  -- A row that alone passes `p`, after the rows that fail `q` are deleted.
  pub count_rows-where_rows :
      (q : A → Bool) (rows : List A) → count_rows p (where_rows q rows) ≤ count_rows p rows
  unfolding where_rows count_rows
  count_rows-where_rows q [] = omega arith
  count_rows-where_rows q (x ∷ xs) = ground (arith, count_rows-where_rows q xs)

  pub find_row-where_rows-none :
      (q : A → Bool) (rows : List A)
      → find_row p rows ≡ none
      → find_row p (where_rows q rows) ≡ none
  unfolding where_rows find_row
  find_row-where_rows-none q [] h = refl
  find_row-where_rows-none q (x ∷ xs) h = ground (arith, find_row-where_rows-none q xs)

  pub find_row-where_rows_one :
      (q : A → Bool) (rows : List A) {a : A}
      → count_rows p rows ≤ 1
      → find_row p rows ≡ some a
      → find_row p (where_rows q rows) ≡ (if q a then some a else none)
  unfolding where_rows find_row count_rows
  find_row-where_rows_one q [] u h = ground arith
  find_row-where_rows_one q (x ∷ xs) {a} u h = elim (Bool-cases (p x)) [
    | inl e ↦
        let same : x ≡ a = ground arith in
        let rest : find_row p xs ≡ none = find_row-none xs (ground arith) in
        let gone = find_row-where_rows-none q xs rest in rw (← same) (ground arith)
    | inr e ↦ ground (arith, find_row-where_rows_one q xs {a = a})
  ]

  pub count_rows_passed :
      (q : A → Bool) (rows : List A) {a : A}
      → find_row q rows ≡ some a
      → p a ≡ true
      → 0 < count_rows p rows
  unfolding find_row count_rows
  count_rows_passed q [] h k = ground arith
  count_rows_passed q (x ∷ xs) {a} h k = ground (arith, count_rows_passed q xs {a = a})
