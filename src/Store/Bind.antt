-- ===== src/Store/Bind.antt =====
-- What the success of a sequence says of its parts.
use queue_ctl.Prelude.{String, ◌≡◌, ◌≢◌, refl, arith, ◌⊎◌, inl, inr}
use queue_ctl.Domain.Errors.{Error, Result, ok, err}
use queue_ctl.Store.{World, Exec, ◌>>=◌, wrapping}

err-ne-ok {ℓ} : {B : Type ℓ} (e : Error) (b : B) → ◌≢◌ {A = Result B} (err e) (ok b)
err-ne-ok e b h = cc

module _ {ℓ} {A B : Type ℓ} where
  -- Inversion of `m; f`: the first part succeeded, and the second one ran from where it ended.
  pub >>=-ok :
      (m : Exec A) (f : A → Exec B) (w : World) {b : B}
      → ((m >>= f) w).0 ≡ ok b
      → (a : A) × ((m w).0 ≡ ok a) × ((f a (m w).1).0 ≡ ok b) × (((m >>= f) w).1 ≡ (f a (m w).1).1)
  >>=-ok m f w {b} h = go (m w).0 (m w).1 refl
    where
      go :
          (r : Result A) (w' : World)
          → m w ≡ (r, w')
          → (a : A) × ((m w).0 ≡ ok a)
            × ((f a (m w).1).0 ≡ ok b)
            × (((m >>= f) w).1 ≡ (f a (m w).1).1)
      go (ok a) w' q = (a, rw q, (let k = h in rw q (rw q at k)), rw q)
      go (err e) w' q = absurd (err-ne-ok e b (let k = h in rw q at k))

module _ {ℓ} {A : Type ℓ} where
  pub wrapping-ok :
      (text : String) (m : Exec A) (w : World) {a : A}
      → (wrapping text m w).0 ≡ ok a
      → (m w).0 ≡ ok a
  wrapping-ok text m w h = ground arith

module _ {ℓ} {A B : Type ℓ} where
  -- Either the first part failed, and the sequence ended there, or the second part ran after it.
  pub >>=-cases :
      (m : Exec A) (f : A → Exec B) (w : World)
      → ((e : Error) × ((m w).0 ≡ err e) × (((m >>= f) w).1 ≡ (m w).1))
        ⊎ ((a : A) × ((m w).0 ≡ ok a) × (((m >>= f) w).1 ≡ (f a (m w).1).1))
  >>=-cases m f w = go (m w).0 (m w).1 refl
    where
      go :
          (r : Result A) (w' : World)
          → m w ≡ (r, w')
          → ((e : Error) × ((m w).0 ≡ err e) × (((m >>= f) w).1 ≡ (m w).1))
            ⊎ ((a : A) × ((m w).0 ≡ ok a) × (((m >>= f) w).1 ≡ (f a (m w).1).1))
      go (ok a) w' q = inr (a, rw q, rw q)
      go (err e) w' q = inl (e, rw q, rw q)
