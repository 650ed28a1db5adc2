-- ===== src/Statutory/Tests.antt =====
-- The statutory theorems at the rates of 2026.
use pmvp.Prelude.{◌≡◌, ◌≤◌, ◌*◌, refl, arith}
use pmvp.Prelude.Int.{pos, negsuc}
use pmvp.Money.{rate_unit, round_half_up}
use pmvp.Statutory.{paye_from, compute_paye, compute_overtime_tax}
use pmvp.Statutory.Paye.{AreConsistent, AreFair, compute_paye_mono, compute_paye-le}
use pmvp.Statutory.Overtime.{compute_overtime_tax-bounds}
use pmvp.Fixtures.{rate_2026}

bands-AreConsistent : AreConsistent rate_2026.paye_bands
bands-AreConsistent = ground arith

bands-AreFair : AreFair rate_2026.paye_bands
bands-AreFair = ground arith

paye_of_2000 : compute_paye rate_2026 (pos 200000) ≡ 22960
unfolding compute_paye paye_from round_half_up
paye_of_2000 = refl

compute_paye_mono_example : compute_paye rate_2026 (negsuc 4) ≤ compute_paye rate_2026 (pos 200000)
compute_paye_mono_example =
    compute_paye_mono rate_2026 (negsuc 4) (pos 200000) bands-AreConsistent (omega arith)

compute_paye-le_example : compute_paye rate_2026 (pos 200000) ≤ 200000
compute_paye-le_example = compute_paye-le rate_2026 (pos 200000) bands-AreFair

compute_overtime_tax-bounds_example :
    (round_half_up rate_unit (90000 * 50000) ≤ compute_overtime_tax rate_2026 90000 100000)
    × (compute_overtime_tax rate_2026 90000 100000 ≤ round_half_up rate_unit (90000 * 100000))
compute_overtime_tax-bounds_example =
    compute_overtime_tax-bounds rate_2026 90000 100000 (omega arith)
