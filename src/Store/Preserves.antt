-- ===== src/Store/Preserves.antt =====
-- Actions that preserve an invariant of the state, whether they return or fail.
use queue_ctl.Prelude.{sym, subst, inl, inr, Bool-cases}
use queue_ctl.Domain.Errors.{Result, ok, err}
use queue_ctl.Store.{Env, Db, World, Exec, ◌>>=◌}
use queue_ctl.Store.Keeps.{Keeps}
use queue_ctl.Store.Tx.{Ctx, in_tx, plain, with_tx}
use queue_ctl.Store.Tx.Atomic.{is_done, is_done-done, with_tx-rollback, with_tx-commit, tx_start}

pub record Preserves {κ} {A : Type 0} (P : World → Type κ) (m : Exec A) : Type κ where
  pub at : (w : World) → P w → P (m w).1

module _ {κ} {A : Type 0} {X : Type 0} {view : World → X} (Q : X → Type κ) where
  pub Keeps-Preserves : (m : Exec A) → Keeps view m → Preserves (λ w. Q (view w)) m
  Keeps-Preserves m k = record { at = λ w h. subst Q (sym (k.at w)) h }

module _ {κ} {A B : Type 0} (P : World → Type κ) where
  pub Preserves-bind :
      (m : Exec A) (f : A → Exec B)
      → Preserves P m
      → ((a : A) → Preserves P (f a))
      → Preserves P (m >>= f)
  Preserves-bind m f pm pf = record { at = λ w h. go (m w).0 (m w).1 (pm.at w h) }
    where
      go : (r : Result A) (w' : World) → P w' → P (((λ v. (r, v)) >>= f) w').1
      go (ok a) w' h = (pf a).at w' h
      go (err e) w' h = h

module _ {κ} {A : Type 0} (env : Env) (Q : Db → Type κ) where
  -- A transaction whose function preserves an invariant of the tables preserves it.
  pub Preserves-with_tx :
      (fn : Ctx → Exec A)
      → Preserves (λ w. Q w.db) (fn in_tx)
      → (w : World) → Q w.db
      → Q (with_tx env plain fn w).1.db
  Preserves-with_tx fn p w h = elim (Bool-cases (is_done (with_tx env plain fn w).0)) [
    | inl e ↦
        let (a, committed) = is_done-done (with_tx env plain fn w).0 e in
        let (ran, ended) = with_tx-commit env fn w a committed in
        subst (λ v. Q v.db) (sym ended) (p.at (tx_start w) h)
    | inr e ↦ subst Q (sym (with_tx-rollback env fn w e)) h
  ]
