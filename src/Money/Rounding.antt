-- ===== src/Money/Rounding.antt =====
-- Facts about `round_half_up` at the two scales that the calculators use.
use pmvp.Prelude.{ℕ, ◌+◌, ◌*◌, ◌≤◌, ◌≡◌, arith}
use pmvp.Money.{rate_unit, round_half_up}

pub round_half_up_mono : (m n : ℕ) → m ≤ n → round_half_up rate_unit m ≤ round_half_up rate_unit n
unfolding round_half_up
round_half_up_mono m n h = omega arith

round_half_up-whole : (n : ℕ) → round_half_up rate_unit (n * 1000000) ≡ n
unfolding round_half_up
round_half_up-whole n = omega arith

-- Rounding moves a value by at most half a pesewa.
pub round_half_up-near :
    (n : ℕ)
    → (2 * (rate_unit * round_half_up rate_unit n) ≤ 2 * n + rate_unit)
      × (2 * n ≤ 2 * (rate_unit * round_half_up rate_unit n) + rate_unit)
unfolding round_half_up
round_half_up-near n = omega arith

pub round_half_up-le : (n m : ℕ) → n ≤ m * 1000000 → round_half_up rate_unit n ≤ m
unfolding round_half_up
round_half_up-le n m h = omega arith
