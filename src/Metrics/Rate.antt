-- ===== src/Metrics/Rate.antt =====
-- The percentages of internal/metrics/metrics.go: a float64 quotient of two counts, times 100.
use queue_ctl.Prelude.{
  ℕ, zero, suc, ◌+◌, ◌*◌, ◌/◌, ◌%◌, ◌^◌, ◌≡◌, refl, ◌&&◌, ◌||◌, ltb, eqb, if◌then◌else◌,
}
use queue_ctl.Retry.Float.{to_float}

-- The float64 mantissa / 2^shift.
pub record Float64 : Type 0 where
  pub mantissa : ℕ
  pub shift : ℕ

abbrev pub zero_rate : Float64
zero_rate = record { mantissa = 0; shift = 0 }

abbrev pub hundred : Float64
hundred = record { mantissa = 100; shift = 0 }

-- a / b, rounded to the nearest integer, a tie to the even neighbour
round_quotient : ℕ → ℕ → ℕ
round_quotient a b =
    let q = a / b in
    let r = a % b in if ltb b (2 * r) || (eqb (2 * r) b && eqb (q % 2) 1) then q + 1 else q

-- How often a is doubled until a / b has 53 bits. Two counts of 63 bits differ by 63 bits at most, so
-- that 116 rounds are enough.
needed_bits : ℕ → ℕ → ℕ → ℕ
needed_bits zero a b = 0
needed_bits (suc fuel) a b =
    let rest = needed_bits fuel (a * 2) b in if ltb a (b * 2 ^ 52) then suc rest else 0

-- float64(a) / float64(b), where b is not 0
quotient : ℕ → ℕ → Float64
unfolding round_quotient needed_bits
quotient a b =
    if eqb a 0
    then zero_rate
    else let e = needed_bits 116 a b in
      record { mantissa = round_quotient (a * 2 ^ e) b; shift = e }

-- (float64(part) / float64(whole)) * 100
unfoldable pub percentage : ℕ → ℕ → Float64
unfolding quotient to_float
percentage part whole =
    let q = quotient (to_float part) (to_float whole) in
    record { mantissa = to_float (q.mantissa * 100); shift = q.shift }

one_third : percentage 1 3 ≡ record { mantissa = 600479950316066048; shift = 54 }
unfolding percentage
one_third = refl
