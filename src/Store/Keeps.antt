-- ===== src/Store/Keeps.antt =====
-- Actions that leave a part of the state alone, one rule for each way to build an action.
use queue_ctl.Prelude.{String, ◌≡◌, refl, ◌∙◌, Bool, true, false, if◌then◌else◌}
use queue_ctl.Domain.Errors.{Error, Result, ok, err}
use queue_ctl.Store.{World, Exec, ◌>>=◌, pure, raise, lift, gets, wrapping}

-- Whether `m` returns or fails, what `view` shows of the state is as before.
pub record Keeps {ℓ κ} {A : Type ℓ} {X : Type κ} (view : World → X) (m : Exec A) : Type κ where
  pub at : (w : World) → view (m w).1 ≡ view w

module _ {ℓ κ} {A : Type ℓ} {X : Type κ} {view : World → X} where
  pub Keeps-pure : (a : A) → Keeps view (pure a)
  Keeps-pure a = record { at = λ w. refl }

  pub Keeps-raise : (e : Error) → Keeps view (raise {A = A} e)
  Keeps-raise e = record { at = λ w. refl }

  pub Keeps-lift : (r : Result A) → Keeps view (lift r)
  Keeps-lift r = record { at = λ w. refl }

  pub Keeps-gets : (f : World → A) → Keeps view (gets f)
  Keeps-gets f = record { at = λ w. refl }

  pub Keeps-wrapping : (text : String) (m : Exec A) → Keeps view m → Keeps view (wrapping text m)
  Keeps-wrapping text m k = record { at = k.at }

  pub Keeps-if :
      (b : Bool) (m n : Exec A) → Keeps view m → Keeps view n → Keeps view (if b then m else n)
  Keeps-if true m n km kn = km
  Keeps-if false m n km kn = kn

module _ {ℓ κ} {A B : Type ℓ} {X : Type κ} {view : World → X} where
  pub Keeps-bind :
      (m : Exec A) (f : A → Exec B)
      → Keeps view m
      → ((a : A) → Keeps view (f a))
      → Keeps view (m >>= f)
  Keeps-bind m f km kf = record { at = λ w. go (m w).0 (m w).1 (km.at w) }
    where
      go :
          {w : World} (r : Result A) (w' : World)
          → view w' ≡ view w
          → view (((λ v. (r, v)) >>= f) w').1 ≡ view w
      go (ok a) w' h = (kf a).at w' ∙ h
      go (err e) w' h = h

pub ruleset keeps_rules =
    (Keeps-pure, Keeps-raise, Keeps-lift, Keeps-gets, Keeps-wrapping, Keeps-if, Keeps-bind)
