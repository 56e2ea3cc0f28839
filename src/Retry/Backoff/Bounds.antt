-- ===== src/Retry/Backoff/Bounds.antt =====
-- The delays that Calculate returns.
use native.Mathlib.Decide.{dec_lt}
use native.Mathlib.Nat.{pow-le-pow_right}
use queue_ctl.Prelude.{ℕ, zero, suc, ◌-◌, ◌*◌, ◌^◌, ◌≤◌, ◌<◌, ◌≡◌, ◌↔◌, arith, ltb, if◌then◌else◌}
use queue_ctl.Prelude.Int.{ℤ, pos, ◌≤ℤ◌, ◌<ℤ◌}
use queue_ctl.Retry.Float.{scale_duration, to_float_exact}
use queue_ctl.Retry.Backoff.{Backoff, calculate}

-- A product that an int64 holds has a small exponent.
exponent_small : (base k : ℕ) → base * 2 ^ k < 2 ^ 63 → 0 < base → k < 1024
exponent_small zero k h p = absurd (omega arith)
exponent_small (suc base) k h p = elim (dec_lt k 1024) [
  | yes q ↦ q
  | no q ↦
      let big : 2 ^ 63 ≤ 2 ^ k =
        pow-le-pow_right {n = 2} (omega arith) {i = 63} {j = k} (omega arith) in
      absurd (omega arith)
]

module _ (overflow : ℤ) (base k : ℕ) where
  scale_exact :
      0 < base
      → base ≤ 2 ^ 53
      → base * 2 ^ k < 2 ^ 63
      → scale_duration overflow (pos base) k ≡ pos (base * 2 ^ k)
  unfolding scale_duration
  scale_exact p small fits =
      let few = exponent_small base k fits p in rw (to_float_exact base small) (ground arith)

  scale_overflow :
      base ≤ 2 ^ 53 → 2 ^ 63 ≤ base * 2 ^ k → scale_duration overflow (pos base) k ≡ overflow
  unfolding scale_duration
  scale_overflow small over = rw (to_float_exact base small) (ground arith)

module _ (overflow : ℤ) (base max : ℕ) where
  abbrev backoff : Backoff
  backoff = record { base_delay = pos base; max_delay = pos max }

  -- While the product fits an int64, the delay before retry k + 1 is base * 2^k, or the maximum if
  -- that is less, for a positive base of at most 2^53, which a float64 holds.
  pub calculate_exact :
      (k : ℕ)
      → 0 < base
      → base ≤ 2 ^ 53
      → base * 2 ^ k < 2 ^ 63
      → calculate overflow backoff (pos (suc k))
        ≡ pos (if ltb max (base * 2 ^ k) then max else base * 2 ^ k)
  unfolding calculate
  calculate_exact k p small fits =
      let less : suc k - 1 ≡ k = omega arith in
      rw less (rw (scale_exact overflow base k p small fits) (ground arith))

  -- The delay is never more than the maximum, whatever the count.
  calculate-le-max : (n : ℤ) → calculate overflow backoff n ≤ℤ pos max
  unfolding calculate
  calculate-le-max n = ground arith

  -- Beyond an int64 the answer of the conversion is the delay, if it is negative.
  calculate_past_int64 :
      (k : ℕ)
      → base ≤ 2 ^ 53
      → 2 ^ 63 ≤ base * 2 ^ k
      → overflow <ℤ pos 0
      → calculate overflow backoff (pos (suc k)) ≡ overflow
  unfolding calculate
  calculate_past_int64 k small over negative =
      let less : suc k - 1 ≡ k = omega arith in
      rw less (rw (scale_overflow overflow base k small over) (ground arith))

  -- For a positive base of at most 2^53, and a processor that converts a float64 beyond int64 to a
  -- negative number, as amd64 does, the delay before retry k + 1 is the lesser of base * 2^k and the
  -- maximum exactly when base * 2^k fits an int64: beyond that the cap is not applied.
  pub calculate_exact_iff :
      (k : ℕ)
      → 0 < base
      → base ≤ 2 ^ 53
      → overflow <ℤ pos 0
      → (calculate overflow backoff (pos (suc k))
          ≡ pos (if ltb max (base * 2 ^ k) then max else base * 2 ^ k))
        ↔ (base * 2 ^ k < 2 ^ 63)
  calculate_exact_iff k p small negative = (
    λ e. elim (dec_lt (base * 2 ^ k) (2 ^ 63)) [
      | yes fits ↦ fits
      | no past ↦
          let least = calculate_past_int64 k small (omega arith) negative in absurd (ground arith)
    ],
    λ fits. calculate_exact k p small fits,
  )
