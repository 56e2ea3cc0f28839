-- ===== src/Prelude/Lists/Keys.antt =====
-- Rows with a key: what a unique key says of the rows that are found and updated by it.
use Prim.Native.Nat.{◌+◌, ◌≤◌, ◌<◌}
use Prim.Native.String.{String}
use mathlib.Core.Path.{◌≡◌, refl}
use mathlib.Core.Bool.{Bool, true, false}
use mathlib.Core.List.{List, [], ◌∷◌, ◌++◌}
use mathlib.Core.Logic.{◌⊎◌, inl, inr}
use mathlib.Core.Option.{some}
use native.Mathlib.Omega.{arith}
use queue_ctl.Prelude.Tests.{Bool-cases}
use queue_ctl.Prelude.{◌==◌, eq_refl}
use queue_ctl.Prelude.Lists.{All, count_rows, find_row, update_rows}
use queue_ctl.Prelude.Lists.Order.{All-map, All-zip}

module _ {ℓ} {A : Type ℓ} where
  pub All-update_rows {κ} :
      (P : A → Type κ) (p : A → Bool) (f : A → A) (rows : List A)
      → All (λ x. p x ≡ true → P (f x)) rows
      → All P rows
      → All P (update_rows p f rows)
  unfolding update_rows
  All-update_rows P p f [] h k = tt
  All-update_rows P p f (x ∷ xs) h k = elim (Bool-cases (p x)) [
    | inl e ↦ rw e (h.0 e, All-update_rows P p f xs h.1 k.1)
    | inr e ↦ rw e (k.0, All-update_rows P p f xs h.1 k.1)
  ]

  pub All-append {κ} :
      (P : A → Type κ) (rows : List A) (x : A) → All P rows → P x → All P (rows ++ x ∷ [])
  All-append P [] x h k = (k, tt)
  All-append P (y ∷ ys) x h k = (h.0, All-append P ys x h.1 k)

  pub count_rows-append :
      (p : A → Bool) (rows : List A) (x : A)
      → count_rows p (rows ++ x ∷ []) ≡ count_rows p rows + count_rows p (x ∷ [])
  unfolding count_rows
  count_rows-append p [] x = omega arith
  count_rows-append p (y ∷ ys) x = ground (arith, count_rows-append p ys x)

  none_passes : (p : A → Bool) (rows : List A) → count_rows p rows ≤ 0 → All (λ x. p x ≡ false) rows
  unfolding count_rows
  none_passes p [] h = tt
  none_passes p (x ∷ xs) h = (ground arith, none_passes p xs (ground arith))

  -- Either no row passes, or one does, of which holds what holds of every row.
  pub some_passes {κ} :
      {Q : A → Type κ} (p : A → Bool) (rows : List A)
      → All Q rows
      → (count_rows p rows ≡ 0) ⊎ ((x : A) × (p x ≡ true) × Q x)
  unfolding count_rows
  some_passes p [] h = inl refl
  some_passes p (x ∷ xs) h = elim (Bool-cases (p x)) [
    | inl e ↦ inr (x, e, h.0)
    | inr e ↦ elim (some_passes p xs h.1) [ inl k ↦ inl (rw e k) | inr found ↦ inr found ]
  ]

  -- If at most one row passes, each that passes is the one that is found.
  pub only_row :
      (p : A → Bool) (rows : List A) {l : A}
      → find_row p rows ≡ some l
      → count_rows p rows ≤ 1
      → All (λ x. p x ≡ true → x ≡ l) rows
  unfolding count_rows find_row
  only_row p [] e h = tt
  only_row p (x ∷ xs) {l} e h = elim (Bool-cases (p x)) [
    | inl q ↦ (
      λ r. ground arith,
      All-map xs (λ y none some_passes. absurd (ground arith)) (none_passes p xs (ground arith)),
    )
    | inr q ↦ (λ r. absurd (ground arith), only_row p xs (ground arith) (ground arith))
  ]

  module _ (key : A → String) where
    pub All-counted : (rows : List A) → All (λ j. 0 < count_rows (λ x. key x == key j) rows) rows
    unfolding count_rows
    All-counted [] = tt
    All-counted (x ∷ xs) =
        (ground (arith, eq_refl (key x)), All-map xs (λ j h. ground arith) (All-counted xs))

    abbrev pub OnlyOne : List A → A → Type ℓ
    OnlyOne rows j =
        count_rows (λ x. key x == key j) rows ≤ 1 → find_row (λ x. key x == key j) rows ≡ some j

    pub All-found : (rows : List A) → All (OnlyOne rows) rows
    unfolding count_rows find_row
    All-found [] = tt
    All-found (x ∷ xs) = (
      λ h. ground (arith, eq_refl (key x)),
      All-map xs
          (λ j c u. elim (Bool-cases (key x == key j)) [
            | inl e ↦ absurd (ground arith)
            | inr e ↦ ground arith
          ])
          (All-zip (λ j. 0 < count_rows (λ x. key x == key j) xs) (OnlyOne xs) xs (All-counted xs)
            (All-found xs)),
    )
