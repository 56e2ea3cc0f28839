-- ===== src/Prelude/Lists/Last.antt =====
-- The last row of an ORDER BY.
use mathlib.Core.Path.{◌≡◌, refl}
use mathlib.Core.Bool.{Bool, true, false}
use mathlib.Core.List.{List, [], ◌∷◌, ◌++◌}
use mathlib.Core.Logic.{inl, inr}
use mathlib.Core.Option.{some}
use native.Mathlib.Omega.{arith}
use queue_ctl.Prelude.Tests.{Bool-cases}
use queue_ctl.Prelude.Lists.{All, get_last?, where_rows, insert_row, order_by}

module _ {ℓ} {A : Type ℓ} (before : A → A → Bool) where
  last_cons : (y : A) (ys : List A) {l : A} → get_last? ys ≡ some l → get_last? (y ∷ ys) ≡ some l
  last_cons y [] e = absurd (ground arith)
  last_cons y (z ∷ zs) e = e

  -- A row that the last row is not before goes in front of it.
  insert_row-last :
      (x l : A) (ys : List A)
      → before l x ≡ false
      → get_last? ys ≡ some l
      → get_last? (insert_row before x ys) ≡ some l
  unfolding insert_row
  insert_row-last x l [] h e = absurd (ground arith)
  insert_row-last x l (y ∷ []) h e = ground arith
  insert_row-last x l (y ∷ z ∷ zs) h e = elim (Bool-cases (before y x)) [
    | inl b ↦ rw b (last_cons y (insert_row before x (z ∷ zs)) (insert_row-last x l (z ∷ zs) h e))
    | inr b ↦ rw b e
  ]

  -- A row at the end of the table that is before no other row stays the last one.
  pub order_by-last :
      (p : A → Bool) (l : A) (rows : List A)
      → p l ≡ true
      → All (λ x. p x ≡ true → before l x ≡ false) rows
      → get_last? (order_by before (where_rows p (rows ++ l ∷ []))) ≡ some l
  unfolding where_rows order_by insert_row
  order_by-last p l [] h a = rw h refl
  order_by-last p l (x ∷ xs) h a = elim (Bool-cases (p x)) [
    | inl e ↦ rw e (insert_row-last x l _ (a.0 e) (order_by-last p l xs h a.1))
    | inr e ↦ rw e (order_by-last p l xs h a.1)
  ]
