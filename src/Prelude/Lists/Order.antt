-- ===== src/Prelude/Lists/Order.antt =====
-- ORDER BY: the sorted rows are the rows, and none is in front of one that comes before it.
use mathlib.Core.Path.{◌≡◌, refl}
use mathlib.Core.Bool.{Bool, true, false, not, ◌&&◌, ◌||◌}
use mathlib.Core.List.{List, [], ◌∷◌, Perm, Mem, mem-cons_self, mem-cons_of_mem}
use mathlib.Core.List.Perm
use mathlib.Core.Logic.{◌≢◌, inl, inr}
use mathlib.Core.Option.{some}
use native.Mathlib.Omega.{arith}
use queue_ctl.Prelude.Int.{ℤ, ltb_ℤ}
use queue_ctl.Prelude.Tests.{Bool-cases}
use queue_ctl.Prelude.Lists.{All, where_rows, insert_row, order_by, first_row}

-- An order that ranks rows: "not before" is transitive, and no two rows are before one another.
pub record IsRanking {ℓ} {A : Type ℓ} (before : A → A → Bool) : Type ℓ where
  pub not_before_trans : (x y z : A) → before y x ≡ false → before z y ≡ false → before z x ≡ false
  pub asym : (x y : A) → before x y ≡ true → before y x ≡ false

abbrev pub IsSorted {ℓ} : {A : Type ℓ} → (A → A → Bool) → List A → Type 0
IsSorted before [] = Unit
IsSorted before (x ∷ xs) = All (λ y. before y x ≡ false) xs × IsSorted before xs

some_inj {ℓ} : {A : Type ℓ} {x y : A} → some x ≡ some y → x ≡ y
some_inj e = cc

-- Rows ranked by `first`, and those that are level by `second`.
abbrev pub lexicographic {ℓ} : {A : Type ℓ} → (A → A → Bool) → (A → A → Bool) → A → A → Bool
lexicographic first second a b = first a b || not (first b a) && second a b

pub lexicographic-IsRanking {ℓ} :
    {A : Type ℓ} {first second : A → A → Bool}
    → IsRanking first
    → IsRanking second
    → IsRanking (lexicographic first second)
lexicographic-IsRanking r s = record {
  not_before_trans = λ x y z h k. ground (
    arith,
    r.not_before_trans x y z,
    r.not_before_trans z y x,
    r.not_before_trans y z x,
    r.not_before_trans y x z,
    r.not_before_trans x z y,
    r.not_before_trans z x y,
    s.not_before_trans x y z,
  );
  asym = λ x y h. ground (arith, r.asym x y, s.asym x y);
}

-- Rows ranked by a key, the least first.
pub key-IsRanking {ℓ} : {A : Type ℓ} (key : A → ℤ) → IsRanking (λ a b. ltb_ℤ (key a) (key b))
key-IsRanking key = record {
  not_before_trans = λ x y z h k. ground arith;
  asym = λ x y h. ground arith;
}

-- Rows ranked by a key, the greatest first.
pub key_desc-IsRanking {ℓ} : {A : Type ℓ} (key : A → ℤ) → IsRanking (λ a b. ltb_ℤ (key b) (key a))
key_desc-IsRanking key = record {
  not_before_trans = λ x y z h k. ground arith;
  asym = λ x y h. ground arith;
}

pub All-map {ℓ κ ι} :
    {A : Type ℓ} {P : A → Type κ} {Q : A → Type ι} (xs : List A)
    → ((x : A) → P x → Q x)
    → All P xs
    → All Q xs
All-map [] f h = tt
All-map (x ∷ xs) f h = (f x h.0, All-map xs f h.1)

pub All-zip {ℓ κ ι} :
    {A : Type ℓ} (P : A → Type κ) (Q : A → Type ι) (xs : List A)
    → All P xs
    → All Q xs
    → All (λ x. P x × Q x) xs
All-zip P Q [] h k = tt
All-zip P Q (x ∷ xs) h k = ((h.0, k.0), All-zip P Q xs h.1 k.1)

-- The rows of a table that pass a test pass it, and are rows of the table.
pub All-where_rows {ℓ κ} :
    {A : Type ℓ} (P : A → Type κ) (p : A → Bool) (xs : List A)
    → All P xs
    → All (λ x. (p x ≡ true) × P x) (where_rows p xs)
unfolding where_rows
All-where_rows P p [] h = tt
All-where_rows P p (x ∷ xs) h = elim (Bool-cases (p x)) [
  | inl e ↦ rw e ((e, h.0), All-where_rows P p xs h.1)
  | inr e ↦ rw e (All-where_rows P p xs h.1)
]

-- What holds of the rows that pass holds of every row, if it passes.
pub All-of_where_rows {ℓ κ} :
    {A : Type ℓ} (P : A → Type κ) (p : A → Bool) (xs : List A)
    → All P (where_rows p xs)
    → All (λ x. p x ≡ true → P x) xs
unfolding where_rows
All-of_where_rows P p [] h = tt
All-of_where_rows P p (x ∷ xs) h = elim (Bool-cases (p x)) [
  | inl e ↦
      let k : P x × All P (where_rows p xs) = rw e at h in
      ((λ _. k.0), All-of_where_rows P p xs k.1)
  | inr e ↦ ((λ t. cc), All-of_where_rows P p xs (rw e at h))
]

pub All-Mem {ℓ} : {A : Type ℓ} (xs : List A) → All (λ x. Mem x xs) xs
All-Mem [] = tt
All-Mem (x ∷ xs) = (mem-cons_self, All-map xs (λ y m. mem-cons_of_mem x m) (All-Mem xs))

pub All-first_row {ℓ κ} :
    {A : Type ℓ} (P : A → Type κ) (xs : List A) {h : A} → first_row xs ≡ some h → All P xs → P h
All-first_row P [] e a = cc
All-first_row P (x ∷ xs) {h} e a = let same : x ≡ h = some_inj e in rw (← same) a.0

module _ {ℓ} {A : Type ℓ} (before : A → A → Bool) where
  pub All-insert_row {κ} :
      (P : A → Type κ) (x : A) (ys : List A) → P x → All P ys → All P (insert_row before x ys)
  unfolding insert_row
  All-insert_row P x [] px h = (px, h)
  All-insert_row P x (y ∷ ys) px h = elim (Bool-cases (before y x)) [
    | inl e ↦ rw e (h.0, All-insert_row P x ys px h.1)
    | inr e ↦ rw e (px, h)
  ]

  pub All-order_by {κ} : (P : A → Type κ) (xs : List A) → All P xs → All P (order_by before xs)
  unfolding order_by
  All-order_by P [] h = h
  All-order_by P (x ∷ xs) h = All-insert_row P x (order_by before xs) h.0 (All-order_by P xs h.1)

  insert_row-perm : (x : A) (ys : List A) → Perm (insert_row before x ys) (x ∷ ys)
  unfolding insert_row
  insert_row-perm x [] = Perm.refl (x ∷ [])
  insert_row-perm x (y ∷ ys) = elim (Bool-cases (before y x)) [
    | inl e ↦ rw e (Perm.trans (Perm.cons y (insert_row-perm x ys)) (Perm.swap x y ys))
    | inr e ↦ rw e (Perm.refl (x ∷ y ∷ ys))
  ]

  -- The sorted rows are the rows, each as often.
  pub order_by-perm : (xs : List A) → Perm (order_by before xs) xs
  unfolding order_by
  order_by-perm [] = Perm.refl []
  order_by-perm (x ∷ xs) =
      Perm.trans (insert_row-perm x (order_by before xs)) (Perm.cons x (order_by-perm xs))

  insert_row-cons : (x : A) (ys : List A) → insert_row before x ys ≢ []
  unfolding insert_row
  insert_row-cons x [] e = cc
  insert_row-cons x (y ∷ ys) e = ground arith

  pub order_by_nil : (xs : List A) → order_by before xs ≡ [] → xs ≡ []
  unfolding order_by
  order_by_nil [] e = refl
  order_by_nil (x ∷ xs) e = absurd (insert_row-cons x (order_by before xs) e)

  module _ (rank : IsRanking before) where
    irrefl : (x : A) → before x x ≡ false
    irrefl x = elim (Bool-cases (before x x)) [ inl e ↦ rank.asym x x e | inr e ↦ e ]

    first_of_insert :
        (x : A) (sorted xs : List A) (h : A)
        → first_row (insert_row before x sorted) ≡ some h
        → (sorted ≡ [] → xs ≡ [])
        → ((k : A) → first_row sorted ≡ some k → All (λ y. before y k ≡ false) xs)
        → (before x h ≡ false) × All (λ y. before y h ≡ false) xs
    unfolding insert_row
    first_of_insert x [] xs h e empty least =
        let same : x ≡ h = some_inj e in rw (← same) (irrefl x, rw (empty refl) tt)
    first_of_insert x (y ∷ ys) xs h e empty least = elim (Bool-cases (before y x)) [
      | inl b ↦ let same : y ≡ h = ground arith in rw (← same) (rank.asym y x b, least y refl)
      | inr b ↦
          let same : x ≡ h = ground arith in
          rw (← same) (irrefl x, All-map xs (λ z k. rank.not_before_trans x y z b k) (least y refl))
    ]

    -- No row comes before the first one.
    pub order_by-first :
        (xs : List A) (h : A)
        → first_row (order_by before xs) ≡ some h
        → All (λ y. before y h ≡ false) xs
    unfolding order_by
    order_by-first [] h e = tt
    order_by-first (x ∷ xs) h e =
        first_of_insert x (order_by before xs) xs h e (order_by_nil xs) (order_by-first xs)

    insert_row-IsSorted :
        (x : A) (ys : List A) → IsSorted before ys → IsSorted before (insert_row before x ys)
    unfolding insert_row
    insert_row-IsSorted x [] h = (tt, tt)
    insert_row-IsSorted x (y ∷ ys) h = elim (Bool-cases (before y x)) [
      | inl b ↦ rw b (
        All-insert_row (λ z. before z y ≡ false) x ys (rank.asym y x b) h.0,
        insert_row-IsSorted x ys h.1,
      )
      | inr b ↦ rw b ((b, All-map ys (λ z k. rank.not_before_trans x y z b k) h.0), h)
    ]

    -- No row comes before one that stands in front of it.
    pub order_by-IsSorted : (xs : List A) → IsSorted before (order_by before xs)
    unfolding order_by
    order_by-IsSorted [] = tt
    order_by-IsSorted (x ∷ xs) = insert_row-IsSorted x (order_by before xs) (order_by-IsSorted xs)
