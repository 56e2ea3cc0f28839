-- ===== src/Store/Tx/Atomic.antt =====
-- A transaction takes effect whole, or not at all.
use queue_ctl.Prelude.{
  String, Bool, true, false, ◌&&◌, Option, none, some, ◌+◌, ◌≡◌, ◌⊎◌, inl, inr, refl, arith,
  Option-cases, if◌then◌else◌,
}
use queue_ctl.Domain.Errors.{Result, ok, err}
use queue_ctl.Store.{Env, World, Exec}
use queue_ctl.Store.Tx.{Ctx, plain, in_tx, TxResult, done, rejected, uncommitted, with_tx}

-- The state in which the function starts: BEGIN and the write lock have been called.
abbrev pub tx_start : World → World
tx_start w = record w { calls = w.calls + 1 + 1 }

-- The state after COMMIT or ROLLBACK.
abbrev pub tx_end : World → World
tx_end w = record w { calls = w.calls + 1 }

abbrev pub is_done {ℓ} : {A : Type ℓ} → TxResult A → Bool
is_done (done a) = true
is_done _ = false

-- Whether a call of the driver goes through, from the fault that it reports.
abbrev pub goes_through : Option String → Bool
goes_through none = true
goes_through (some text) = false

abbrev pub is_ok {ℓ} : {A : Type ℓ} → Result A → Bool
is_ok (ok a) = true
is_ok (err e) = false

pub is_done-done {ℓ} : {A : Type ℓ} (r : TxResult A) → is_done r ≡ true → (a : A) × (r ≡ done a)
is_done-done (done a) h = (a, refl)
is_done-done (rejected e) h = cc
is_done-done (uncommitted a e) h = cc

module _ {ℓ} {A : Type ℓ} (env : Env) (fn : Ctx → Exec A) (w : World) where
  -- A transaction that starts in a plain context and does not end in `done` leaves the tables as they
  -- were.
  pub with_tx-rollback :
      is_done (with_tx env plain fn w).0 ≡ false → (with_tx env plain fn w).1.db ≡ w.db
  unfolding with_tx
  with_tx-rollback h = ground arith

  -- A transaction that starts in a plain context and ends in `done` is a run of its function without
  -- an error in the state after BEGIN and the write lock, then COMMIT.
  pub with_tx-commit :
      (a : A)
      → (with_tx env plain fn w).0 ≡ done a
      → ((fn in_tx (tx_start w)).0 ≡ ok a)
        × ((with_tx env plain fn w).1 ≡ tx_end (fn in_tx (tx_start w)).1)
  unfolding with_tx
  with_tx-commit a h = ground arith

  -- How a transaction that starts in a plain context ends. Where BEGIN or the statement that takes the
  -- write lock fails, the result is not `done`, and nothing but the count of the driver's calls has
  -- changed. Where both go through, the function has run, and one more call of the driver, a COMMIT or
  -- a ROLLBACK, has ended the transaction: the result is `done` exactly when the function returned no
  -- error and the COMMIT went through; the tables are then as the function left them, and else as they
  -- were at the start; the rest of the state is as the function left it.
  pub with_tx_ends :
      let r = with_tx env plain fn w in
      let ran = fn in_tx (tx_start w) in
      let starts = goes_through (env.fault w.calls) && goes_through (env.fault (w.calls + 1)) in
      ((starts ≡ false) × (is_done r.0 ≡ false) × (r.1 ≡ record w { calls = r.1.calls }))
      ⊎ ((starts ≡ true)
          × (is_done r.0 ≡ (is_ok ran.0 && goes_through (env.fault ran.1.calls)))
          × (r.1 ≡ record ran.1 {
            calls = ran.1.calls + 1;
            db = if is_done r.0 then ran.1.db else w.db;
          }))
  unfolding with_tx
  with_tx_ends = elim (Option-cases (env.fault w.calls)) [
    | inr e ↦ inl (ground arith, ground arith, ground arith)
    | inl f ↦ elim (Option-cases (env.fault (w.calls + 1))) [
      | inr e ↦ inl (ground arith, ground arith, ground arith)
      | inl g ↦ inr (ground arith, ground arith, ground arith)
    ]
  ]
