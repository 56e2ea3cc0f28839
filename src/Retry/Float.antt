-- ===== src/Retry/Float.antt =====
-- The float64 arithmetic of the backoff: an integer is rounded to 53 bits, multiplied by a power of
-- two, which is exact, and converted back to an int64.
use queue_ctl.Prelude.{
  ℕ, zero, suc, ◌+◌, ◌-◌, ◌*◌, ◌/◌, ◌%◌, ◌^◌, ◌≤◌, ◌≡◌, refl, Bool, ◌&&◌, ◌||◌, arith, ltb, leb,
  eqb, if◌then◌else◌,
}
use queue_ctl.Prelude.Int.{ℤ, pos, negsuc, pos_part, neg_part}

-- How many bits are dropped so that 53 remain. An int64 has 63, so ten rounds are enough.
excess_bits : ℕ → ℕ → ℕ
excess_bits zero n = 0
excess_bits (suc fuel) n =
    let rest = excess_bits fuel (n / 2) in if ltb n (2 ^ 53) then 0 else suc rest

-- n / 2^e, rounded to the nearest, a tie to the even neighbour
round_half_even : ℕ → ℕ → ℕ
round_half_even n e =
    let q = n / 2 ^ e in
    let r = n % 2 ^ e in
    let half = 2 ^ (e - 1) in if ltb half r || (eqb r half && eqb (q % 2) 1) then q + 1 else q

-- float64(n)
unfoldable pub to_float : ℕ → ℕ
unfolding excess_bits round_half_even
to_float n = if leb n (2 ^ 53) then n else let e = excess_bits 11 n in round_half_even n e * 2 ^ e

-- -n
abbrev negated : ℕ → ℤ
negated zero = pos 0
negated (suc n) = negsuc n

abbrev scaled : ℤ → ℕ → ℤ
scaled (pos n) k = pos (to_float n * 2 ^ k)
scaled (negsuc n) k = negated (to_float (suc n) * 2 ^ k)

abbrev pub fits_int64 : ℤ → Bool
fits_int64 a = ltb (pos_part a) (2 ^ 63) && leb (neg_part a) (2 ^ 63)

-- time.Duration(float64(d) * math.Pow(2, k)): from k = 1024 on the power is +Inf. `overflow` is the
-- int64 that stands for a value out of range.
unfoldable pub scale_duration : ℤ → ℤ → ℕ → ℤ
scale_duration overflow d k =
    if leb 1024 k then overflow else if fits_int64 (scaled d k) then scaled d k else overflow

pub to_float_exact : (n : ℕ) → n ≤ 2 ^ 53 → to_float n ≡ n
unfolding to_float
to_float_exact n h = ground arith

-- 2^53 + 3 lies between two float64 values, and the even one is above.
to_float_tie : to_float (2 ^ 53 + 3) ≡ 2 ^ 53 + 4
unfolding to_float
to_float_tie = refl
