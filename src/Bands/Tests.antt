-- ===== src/Bands/Tests.antt =====
-- The form's rows of a small table of bands.
use mathlib.Core.List.{Perm}
use pmvp.Prelude.{ℕ, ◌≡◌, refl, some, List, [], ◌∷◌}
use pmvp.Prelude.Int.{pos}
use pmvp.Prelude.Result.{ok}
use pmvp.Money.{rate_unit, round_half_up}
use pmvp.Money.Rounding.{round_half_up-near}
use pmvp.Statutory.{StatutoryRate, compute_paye}
use pmvp.Bands.{FormRow, Row, clean_rows, bands_from_rows}
use pmvp.Bands.Order.{IsAscending}
use pmvp.Bands.Graduated.{graduated_tax, IsWithinOne}
use pmvp.Bands.Charge.{bands_from_rows-charge}
use pmvp.Fixtures.{rate_2026, band_of}

abbrev row_of : ℕ → ℕ → FormRow
row_of over percent = record { over = some (pos over); percent = some (pos percent) }

abbrev form : List FormRow
form = row_of 66800 100000 ∷ row_of 0 0 ∷ row_of 58800 50000 ∷ []

abbrev small_rate : StatutoryRate
small_rate = record rate_2026 {
  paye_bands = band_of 66800 100000 400 ∷ band_of 58800 50000 0 ∷ band_of 0 0 0 ∷ [];
}

form_bands : bands_from_rows (round_half_up rate_unit) form ≡ ok small_rate.paye_bands
unfolding bands_from_rows round_half_up
form_bands = refl

bands_from_rows-charge_example :
    (cleaned sorted : List Row) × (clean_rows form ≡ ok cleaned)
    × Perm sorted cleaned
    × IsAscending sorted
    × IsWithinOne (compute_paye small_rate (pos 70000)) (graduated_tax sorted 70000)
bands_from_rows-charge_example =
    bands_from_rows-charge (round_half_up rate_unit) form small_rate 70000 round_half_up-near
      form_bands
