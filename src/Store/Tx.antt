-- ===== src/Store/Tx.antt =====
-- WithTx of internal/repository/sqlite/sqlite_job_repository.go.

pub mod Atomic
use queue_ctl.Prelude.Text.{◌^^◌}
use queue_ctl.Domain.Errors.{Error, Result, ok, err, wrap, error_text}
use queue_ctl.Store.{Env, Db, World, Exec, driver_call}

-- Whether the context carries an open transaction under `txKey`.
pub data Ctx : Type 0 where
  plain in_tx : Ctx

-- How WithTx ends. In `uncommitted` the function ran to its end, so that what it wrote through its
-- pointers stays written, and the commit failed.
pub data TxResult {ℓ} (A : Type ℓ) : Type ℓ where
  done : A → TxResult A
  rejected : Error → TxResult A
  uncommitted : A → Error → TxResult A

-- What WithTx returns.
abbrev pub tx_error {ℓ} : {A : Type ℓ} → TxResult A → Result A
tx_error (done a) = ok a
tx_error (rejected e) = err e
tx_error (uncommitted a e) = err e

abbrev of_result {ℓ} : {A : Type ℓ} → Result A → TxResult A
of_result (ok a) = done a
of_result (err e) = rejected e

abbrev restore : Db → World → World
restore db w = record w { db = db }

module _ (env : Env) where
  -- tx.Rollback: what the connection has written since BEGIN is gone, also where the call reports a
  -- fault, since SQLite has then rolled back by itself
  abbrev rollback : Db → Exec (Unit {0})
  rollback db w = ((driver_call env w).0, restore db (driver_call env w).1)

  abbrev committing : Db → Result (Unit {0}) → World → Result (Unit {0}) × World
  committing db (ok u) w = (ok u, w)
  committing db (err e) w = (err e, restore db w)

  -- tx.Commit: a commit that reports a fault has not taken place
  abbrev commit : Db → Exec (Unit {0})
  commit db w = committing db (driver_call env w).0 (driver_call env w).1

  abbrev rolled_back {ℓ} : {A : Type ℓ} → Error → Result (Unit {0}) → TxResult A
  rolled_back e (ok _) = rejected e
  rolled_back e (err r) =
      rejected (wrap ("transaction failed: " ^^ error_text e ^^ ", rollback failed") r)

  abbrev committed {ℓ} : {A : Type ℓ} → A → Result (Unit {0}) → TxResult A
  committed a (ok _) = done a
  committed a (err e) = uncommitted a (wrap "failed to commit transaction" e)

  -- what follows `fn(txCtx)`: without the call of Rollback the writes of the function stay
  unfoldable pub finish {ℓ} : {A : Type ℓ} → Db → Result A → World → TxResult A × World
  unfolding driver_call error_text
  finish db (err e) w = let (r, w') = rollback db w in (rolled_back e r, w')
  finish db (ok a) w = let (r, w') = commit db w in (committed a r, w')

  abbrev locked {ℓ} :
      {A : Type ℓ} → (Ctx → Exec A) → Db → Result (Unit {0}) → World → TxResult A × World
  locked fn db (err e) w =
      (rejected (wrap "failed to upgrade SQLite transaction lock" e), (rollback db w).1)
  locked fn db (ok _) w = finish db (fn in_tx w).0 (fn in_tx w).1

  abbrev begun {ℓ} :
      {A : Type ℓ} → (Ctx → Exec A) → Db → Result (Unit {0}) → World → TxResult A × World
  begun fn db (err e) w = (rejected (wrap "failed to begin transaction" e), w)
  begun fn db (ok _) w = locked fn db (driver_call env w).0 (driver_call env w).1

  -- Three calls of the driver surround the function: BEGIN, the statement that takes the write
  -- lock, and COMMIT or ROLLBACK.
  unfoldable pub with_tx {ℓ} : {A : Type ℓ} → Ctx → (Ctx → Exec A) → World → TxResult A × World
  unfolding driver_call error_text finish
  with_tx in_tx fn w = (of_result (fn in_tx w).0, (fn in_tx w).1)
  with_tx plain fn w = begun fn w.db (driver_call env w).0 (driver_call env w).1
