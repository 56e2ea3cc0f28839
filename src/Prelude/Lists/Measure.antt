-- ===== src/Prelude/Lists/Measure.antt =====
-- How many rows a table operation leaves, whatever their order.
use Prim.Native.Nat.{ℕ, zero, suc, ◌≤◌}
use mathlib.Core.Path.{◌≡◌, refl, ap, ◌∙◌}
use mathlib.Core.Bool.{Bool}
use mathlib.Core.List.{List, [], ◌∷◌}
use native.Mathlib.Omega.{arith}
use queue_ctl.Prelude.Lists.{length, take, where_rows, count_rows, insert_row, order_by}

module _ {ℓ} {A : Type ℓ} where
  pub count_rows-length : (p : A → Bool) (rows : List A) → count_rows p rows ≤ length rows
  unfolding count_rows
  count_rows-length p [] = omega arith
  count_rows-length p (x ∷ xs) = ground (arith, count_rows-length p xs)

  length-insert_row :
      (before : A → A → Bool) (x : A) (rows : List A)
      → length (insert_row before x rows) ≡ suc (length rows)
  unfolding insert_row
  length-insert_row before x [] = refl
  length-insert_row before x (y ∷ ys) = ground (arith, length-insert_row before x ys)

  pub length-order_by :
      (before : A → A → Bool) (rows : List A) → length (order_by before rows) ≡ length rows
  unfolding order_by
  length-order_by before [] = refl
  length-order_by before (x ∷ xs) =
      ground (arith, length-insert_row before x (order_by before xs), length-order_by before xs)

  pub length-where_rows :
      (p : A → Bool) (rows : List A) → length (where_rows p rows) ≡ count_rows p rows
  unfolding where_rows count_rows
  length-where_rows p [] = refl
  length-where_rows p (x ∷ xs) = ground (arith, length-where_rows p xs)

  count_rows-insert_row :
      (p : A → Bool) (before : A → A → Bool) (x : A) (rows : List A)
      → count_rows p (insert_row before x rows) ≡ count_rows p (x ∷ rows)
  unfolding count_rows insert_row
  count_rows-insert_row p before x [] = refl
  count_rows-insert_row p before x (y ∷ ys) = ground (arith, count_rows-insert_row p before x ys)

  pub count_rows-order_by :
      (p : A → Bool) (before : A → A → Bool) (rows : List A)
      → count_rows p (order_by before rows) ≡ count_rows p rows
  unfolding count_rows order_by
  count_rows-order_by p before [] = refl
  count_rows-order_by p before (x ∷ xs) =
      count_rows-insert_row p before x (order_by before xs)
      ∙ ground (arith, count_rows-order_by p before xs)

  pub take-all : (n : ℕ) (rows : List A) → length rows ≤ n → take n rows ≡ rows
  take-all zero [] h = refl
  take-all zero (x ∷ xs) h = absurd (omega arith)
  take-all (suc n) [] h = refl
  take-all (suc n) (x ∷ xs) h = ap (λ r. x ∷ r) (take-all n xs (omega arith))

  pub length-take : (n : ℕ) (rows : List A) → length (take n rows) ≤ n
  length-take zero rows = omega arith
  length-take (suc n) [] = omega arith
  length-take (suc n) (x ∷ xs) = omega (arith, length-take n xs)
