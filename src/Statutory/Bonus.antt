-- ===== src/Statutory/Bonus.antt =====
-- The split of a bonus into the part under the annual cap and the excess, and what it leaves of
-- the cap.
use pmvp.Prelude.{ℕ, ◌+◌, ◌-◌, ◌*◌, ◌≤◌, arith}
use pmvp.Prelude.Int.{ℤ, pos, negsuc, pos_part, neg_part, ◌+ℤ◌, ◌-ℤ◌, int_laws}
use pmvp.Money.{rate_unit, round_half_up}
use pmvp.Money.Rounding.{round_half_up-near}
use pmvp.Statutory.{StatutoryRate, remaining_bonus_cap, split_bonus}

-- What one run takes of the annual cap: the bonus less its stored excess.
abbrev pub concession_used : StatutoryRate → ℤ → ℤ → ℤ → ℤ
concession_used rate bonus basic used = bonus -ℤ pos (split_bonus rate bonus basic used).1

-- The concession used in a year stays under the cap, to within half a pesewa.
abbrev pub IsWithinCap : StatutoryRate → ℕ → ℤ → Type 0
IsWithinCap rate basic used =
    2 * (rate_unit * pos_part used)
    ≤ 2 * (basic * (12 * rate.bonus_annual_basic_threshold))
      + rate_unit
      + 2 * (rate_unit * neg_part used)

-- The excess is never more than the bonus.
split_bonus-excess_le :
    (rate : StatutoryRate) (bonus basic used : ℤ)
    → (split_bonus rate bonus basic used).1 ≤ pos_part bonus
unfolding split_bonus round_half_up
split_bonus-excess_le rate bonus basic used = ground arith

-- Rounding the excess takes at most half a pesewa more than the remaining cap.
excess-leaves :
    (rate : StatutoryRate) (b : ℕ) (basic used : ℤ)
    → 2 * (rate_unit * b)
      ≤ 2 * (rate_unit * (split_bonus rate (pos b) basic used).1)
        + 2 * remaining_bonus_cap rate basic used
        + rate_unit
unfolding split_bonus
excess-leaves rate b basic used =
    ground (arith, round_half_up-near (b * rate_unit - remaining_bonus_cap rate basic used))

-- If what the year's other runs used of the bonus concession is within the cap (to half a pesewa),
-- then so is the use with this run's bonus added, for a basic salary that is not negative.
pub concession_used-IsWithinCap :
    (rate : StatutoryRate) (basic : ℕ) (bonus used : ℤ)
    → IsWithinCap rate basic used
    → IsWithinCap rate basic (used +ℤ concession_used rate bonus (pos basic) used)
unfolding remaining_bonus_cap
concession_used-IsWithinCap rate basic (pos b) used h = omega (
  int_laws,
  excess-leaves rate b (pos basic) used,
  split_bonus-excess_le rate (pos b) (pos basic) used,
)
concession_used-IsWithinCap rate basic (negsuc b) used h =
    omega (int_laws, split_bonus-excess_le rate (negsuc b) (pos basic) used)
