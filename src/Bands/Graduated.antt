-- ===== src/Bands/Graduated.antt =====
-- The graduated tax of rows, and what bands in sequence charge (the loop of `compute_paye` in
-- app/models.py).
use pmvp.Prelude.{
  ℕ, ◌+◌, ◌-◌, ◌*◌, min, ◌≡◌, ◌≤◌, ◌<◌, refl, Bool, false, ◌||◌, leb, List, [], ◌∷◌, ◌++◌, arith,
  if◌then◌else◌,
}
use pmvp.Prelude.Int.{pos}
use pmvp.Money.{rate_unit, round_half_up}
use pmvp.Statutory.{Band, paye_from}
use pmvp.Bands.{Row}
use pmvp.Bands.Order.{AllAbove, IsAscending, BandsAbove}

-- The graduated tax, in millionths of a pesewa: each row's rate on the income between its threshold
-- and the next one.
abbrev pub graduated_tax : List Row → ℕ → ℕ
graduated_tax [] income = 0
graduated_tax (r ∷ []) income = (income - r.over) * r.rate
graduated_tax (r ∷ s ∷ rows) income =
    (min income s.over - r.over) * r.rate + graduated_tax (s ∷ rows) income

-- A rounding that moves a value by at most half a pesewa.
abbrev pub IsNearest : (ℕ → ℕ) → Type 0
IsNearest round_2 =
    (n : ℕ)
    → (2 * (rate_unit * round_2 n) ≤ 2 * n + rate_unit)
      × (2 * n ≤ 2 * (rate_unit * round_2 n) + rate_unit)

-- An amount of pesewas within a pesewa of an exact one.
abbrev pub IsWithinOne : ℕ → ℕ → Type 0
IsWithinOne tax exact =
    (tax * rate_unit ≤ exact + rate_unit) × (exact ≤ tax * rate_unit + rate_unit)

-- Some band of the list starts at the income or below.
abbrev pub reaches : List Band → ℕ → Bool
reaches [] income = false
reaches (b ∷ bands) income = leb b.over income || reaches bands income

pub paye_from-append :
    (bands more : List Band) (income : ℕ)
    → paye_from (bands ++ more) (pos income)
      ≡ (if reaches bands income then paye_from bands (pos income) else paye_from more (pos income))
unfolding paye_from
paye_from-append [] more income = refl
paye_from-append (b ∷ bands) more income = ground (arith, paye_from-append bands more income)

pub reaches-append :
    (bands : List Band) (b : Band) (income : ℕ)
    → reaches (bands ++ (b ∷ [])) income ≡ (reaches bands income || leb b.over income)
reaches-append [] b income = ground arith
reaches-append (a ∷ bands) b income = ground (arith, reaches-append bands b income)

pub paye_from-one :
    (b : Band) (income : ℕ)
    → paye_from (b ∷ []) (pos income) ≡ (
        if leb b.over income
        then round_half_up rate_unit ((income - b.over) * b.rate + b.base * rate_unit)
        else 0)
unfolding paye_from
paye_from-one b income = ground arith

no_slice : (m n rate : ℕ) → m ≤ n → (m - n) * rate ≡ 0
no_slice m n rate h = rw (left_over m n h) (omega arith)
  where
    left_over : (m n : ℕ) → m ≤ n → m - n ≡ 0
    left_over m n h = omega arith

pub paye_from-unreached :
    (bands : List Band) (income : ℕ)
    → reaches bands income ≡ false
    → paye_from bands (pos income) ≡ 0
unfolding paye_from
paye_from-unreached [] income h = refl
paye_from-unreached (b ∷ bands) income h = ground (arith, paye_from-unreached bands income)

-- Income up to the first threshold is not taxed.
pub graduated_tax-below :
    (r : Row) (rows : List Row) (income : ℕ)
    → IsAscending (r ∷ rows)
    → income ≤ r.over
    → graduated_tax (r ∷ rows) income ≡ 0
graduated_tax-below r [] income up h = no_slice income r.over r.rate h
graduated_tax-below r (s ∷ rows) income ((lower, above), up) h =
    let none_here = no_slice (min income s.over) r.over r.rate (omega arith) in
    let none_later = graduated_tax-below s rows income up (omega arith) in omega arith

pub reaches-above :
    (bands : List Band) (over income : ℕ)
    → BandsAbove over bands
    → income ≤ over
    → reaches bands income ≡ false
reaches-above [] over income above h = refl
reaches-above (b ∷ bands) over income (g, above) h =
    ground (arith, reaches-above bands over income above)

pub AllAbove-le : {m n : ℕ} (rows : List Row) → m < n → AllAbove n rows → AllAbove m rows
AllAbove-le [] h above = tt
AllAbove-le (r ∷ rows) h (g, above) = (omega arith, AllAbove-le rows h above)

-- The slice of a row that the income passes, and of the row in which it ends.
pub slice_below :
    (base : ℕ) (r s : Row) (rows : List Row) (income : ℕ)
    → s.over ≤ income
    → base + (s.over - r.over) * r.rate + graduated_tax (s ∷ rows) income
      ≡ base + graduated_tax (r ∷ s ∷ rows) income
slice_below base r s rows income h =
    let whole : min income s.over ≡ s.over = omega arith in rw whole (omega arith)

pub slice_within :
    (base : ℕ) (r s : Row) (rows : List Row) (income : ℕ)
    → IsAscending (s ∷ rows)
    → income < s.over
    → base + (income - r.over) * r.rate ≡ base + graduated_tax (r ∷ s ∷ rows) income
slice_within base r s rows income up h =
    let part : min income s.over ≡ income = omega arith in
    rw (part, graduated_tax-below s rows income up (omega arith)) (omega arith)
