-- ===== src/Yearly/Tests.antt =====
-- A year of closed runs with bonuses.
use pmvp.Prelude.{none, some, List, [], ◌∷◌}
use pmvp.Prelude.Int.{ℤ, pos}
use pmvp.Statutory.Bonus.{IsWithinCap}
use pmvp.Yearly.{PaidRun, bonus_concession_used_ytd}
use pmvp.Yearly.Cap.{year_of_bonuses, year_of_bonuses-IsWithinCap}
use pmvp.Fixtures.{rate_2026}

abbrev bonuses : List ℤ
bonuses = pos 90000 ∷ pos 150000 ∷ []

abbrev paid : List PaidRun
paid = year_of_bonuses rate_2026 2026 4 100000 bonuses

year_of_bonuses-IsWithinCap_example :
    IsWithinCap rate_2026 100000 (bonus_concession_used_ytd paid (some 4) 2026 none)
year_of_bonuses-IsWithinCap_example = year_of_bonuses-IsWithinCap rate_2026 2026 4 100000 bonuses
