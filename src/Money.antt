-- ===== src/Money.antt =====
-- app/money.py. A money amount is a whole number of pesewas (a float holding two decimals); a
-- `Decimal` between two roundings is a number of pesewas over a stated scale.
pub mod Rounding
use pmvp.Prelude.{ℕ, ◌+◌, ◌/◌}

-- The scale of a rate: rates carry at most six decimals.
abbrev pub rate_unit : ℕ
rate_unit = 1000000

-- `round_half_up(value)` (and `money(value)`) at `value` = n / scale pesewas, n not negative:
-- the nearest pesewa, halves away from zero.
unfoldable pub round_half_up : ℕ → ℕ → ℕ
round_half_up scale n = (n + scale / 2) / scale
