-- ===== src/Statutory/Paye.antt =====
-- `compute_paye` of app/models.py over bands that agree at their thresholds.
use pmvp.Prelude.{ℕ, ◌+◌, ◌-◌, ◌*◌, ◌≤◌, ◌<◌, ◌≡◌, refl, List, [], ◌∷◌, arith}
use pmvp.Prelude.Int.{ℤ, pos, negsuc, pos_part, ◌≤ℤ◌}
use pmvp.Money.{rate_unit, round_half_up}
use pmvp.Money.Rounding.{round_half_up_mono, round_half_up-le}
use pmvp.Statutory.{Band, StatutoryRate, paye_from, compute_paye}

-- What a band charges on `taxable` pesewas, before rounding.
abbrev pub charge : Band → ℕ → ℕ
charge band taxable = (taxable - band.over) * band.rate + band.base * rate_unit

-- Highest threshold first, and the tax at a threshold is at least what the band below charges
-- there.
abbrev pub AreConsistent : List Band → Type 0
AreConsistent [] = Unit
AreConsistent (high ∷ []) = Unit
AreConsistent (high ∷ low ∷ bands) =
    (low.over < high.over)
    × (charge low high.over ≤ charge high high.over)
    × AreConsistent (low ∷ bands)

-- No band taxes a pesewa by more than a pesewa, nor starts with more tax than income.
abbrev pub AreFair : List Band → Type 0
AreFair [] = Unit
AreFair (band ∷ bands) = (band.rate ≤ rate_unit) × (band.base ≤ band.over) × AreFair bands

charge_mono : (band : Band) (s t : ℕ) → s ≤ t → charge band s ≤ charge band t
charge_mono band s t h = grind arith

-- A band's tax at one income is at most its tax, or a consistent higher band's, at a larger one.
rounded_mono :
    (low high : Band) (s t u : ℕ)
    → s ≤ t
    → charge low t ≤ charge high u
    → round_half_up rate_unit (charge low s) ≤ round_half_up rate_unit (charge high u)
rounded_mono low high s t u h e =
    round_half_up_mono (charge low s) (charge high u) (omega (arith, charge_mono low s t h))

-- Below the top band's threshold the tax is at most the top band's charge at the threshold.
paye_from-below :
    (high : Band) (bands : List Band) (t : ℕ)
    → AreConsistent (high ∷ bands)
    → t ≤ high.over
    → paye_from bands (pos t) ≤ round_half_up rate_unit (charge high high.over)
unfolding paye_from
paye_from-below high [] t c h = omega arith
paye_from-below high (low ∷ bands) t (d, e, c) h = ground (
  arith,
  rounded_mono low high t high.over high.over h e,
  rounded_mono low high low.over high.over high.over (omega arith) e,
  paye_from-below low bands t c,
)

AreConsistent-tail :
    (band : Band) (bands : List Band) → AreConsistent (band ∷ bands) → AreConsistent bands
AreConsistent-tail band [] c = tt
AreConsistent-tail band (low ∷ bands) c = c.2

paye_from_mono :
    (bands : List Band) (s t : ℕ)
    → AreConsistent bands
    → s ≤ t
    → paye_from bands (pos s) ≤ paye_from bands (pos t)
unfolding paye_from
paye_from_mono [] s t c h = omega arith
paye_from_mono (band ∷ bands) s t c h = ground (
  arith,
  rounded_mono band band s t t h,
  rounded_mono band band band.over t t,
  paye_from-below band bands s c,
  paye_from_mono bands s t (AreConsistent-tail band bands c) h,
)

paye_from-negsuc : (bands : List Band) (n : ℕ) → paye_from bands (negsuc n) ≡ 0
unfolding paye_from
paye_from-negsuc [] n = refl
paye_from-negsuc (band ∷ bands) n = ground (arith, paye_from-negsuc bands n)

-- With consistent bands, a larger taxable income (of either sign) never pays less PAYE.
pub compute_paye_mono :
    (rate : StatutoryRate) (s t : ℤ)
    → AreConsistent rate.paye_bands
    → s ≤ℤ t
    → compute_paye rate s ≤ compute_paye rate t
unfolding compute_paye
compute_paye_mono rate (pos s) (pos t) c h = paye_from_mono rate.paye_bands s t c (omega arith)
compute_paye_mono rate (pos s) (negsuc t) c h = absurd (omega arith)
compute_paye_mono rate (negsuc s) t c h = omega (arith, paye_from-negsuc rate.paye_bands s)

charge-le :
    (band : Band) (t : ℕ)
    → band.rate ≤ rate_unit
    → band.base ≤ band.over
    → band.over ≤ t
    → charge band t ≤ t * 1000000
charge-le band t r b h =
    let k : (t - band.over) * band.rate ≤ (t - band.over) * rate_unit = grind arith in omega arith

paye_from-le : (bands : List Band) (t : ℕ) → AreFair bands → paye_from bands (pos t) ≤ t
unfolding paye_from
paye_from-le [] t f = omega arith
paye_from-le (band ∷ bands) t (r, b, f) =
    ground (arith, charge-le band t r b, round_half_up-le (charge band t) t, paye_from-le bands t f)

-- With fair bands, PAYE is at most the taxable income, and is zero where that is not positive.
pub compute_paye-le :
    (rate : StatutoryRate) (t : ℤ) → AreFair rate.paye_bands → compute_paye rate t ≤ pos_part t
unfolding compute_paye
compute_paye-le rate (pos t) f = paye_from-le rate.paye_bands t f
compute_paye-le rate (negsuc t) f = omega (arith, paye_from-negsuc rate.paye_bands t)
