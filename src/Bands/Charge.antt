-- ===== src/Bands/Charge.antt =====
-- The bands that app/statutory.py makes of rows, and the graduated tax that app/models.py computes
-- with them.
use mathlib.Core.List.{Perm}
use mathlib.Core.Path.{subst}
use pmvp.Prelude.{
  ℕ, ◌+◌, ◌-◌, ◌*◌, ◌≡◌, ◌≤◌, ◌<◌, refl, sym, ◌⊎◌, Bool, true, false, leb, le→leb, leb→le, List, [],
  ◌∷◌, ◌++◌, Bool-cases, inl, inr, arith, if◌then◌else◌,
}
use pmvp.Prelude.Int.{pos}
use pmvp.Prelude.Result.{raised, ok, ok-injective, >>=-returns}
use pmvp.Money.{rate_unit}
use pmvp.Money.Rounding.{round_half_up-near}
use pmvp.Statutory.{Band, StatutoryRate, paye_from, compute_paye}
use pmvp.Bands.{
  BandError, FormRow, Row, clean_rows, sort_rows, repeated_threshold, repeats_threshold, sort_bands,
  band_at, bands_after, bands_of, bands_from_sorted, bands_from_rows,
}
use pmvp.Bands.Order.{
  AllAbove, IsAscending, IsSorted-IsAscending, sort_rows-IsSorted, sort_rows-perm, BandsAbove,
  insert_band-last, insert_band-BandsAbove,
}
use pmvp.Bands.Graduated.{
  graduated_tax, IsNearest, IsWithinOne, reaches, paye_from-append, reaches-append, paye_from-one,
  paye_from-unreached, graduated_tax-below, reaches-above, AllAbove-le, slice_below, slice_within,
}

-- Bands that are reached and charge an exact tax to within a pesewa.
abbrev Charges : ℕ → ℕ → List Band → Type 0
Charges income exact bands =
    (reaches bands income ≡ true) × IsWithinOne (paye_from bands (pos income)) exact

-- The bands above charge the tax, or the lowest one does.
charged_by :
    (upper : List Band) (b : Band) (income exact : ℕ)
    → b.over ≤ income
    → Charges income exact upper
      ⊎ ((reaches upper income ≡ false) × IsWithinOne (paye_from (b ∷ []) (pos income)) exact)
    → Charges income exact (upper ++ (b ∷ []))
charged_by upper b income exact h (inl (reach, within)) =
    rw (reaches-append upper b income, paye_from-append upper (b ∷ []) income, reach) (refl, within)
charged_by upper b income exact h (inr (unreached, within)) =
    rw (reaches-append upper b income, paye_from-append upper (b ∷ []) income, unreached)
      (le→leb b.over income h, within)

unless_raised :
    (test : Bool) (e : BandError) {a b : List Band}
    → (if test then raised e else ok a) ≡ ok b
    → (test ≡ false) × (a ≡ b)
unless_raised true e h = cc
unless_raised false e h = (refl, ok-injective h)

module _ (round_2 : ℕ → ℕ) where
  sort_after-BandsAbove :
      (over : ℕ) (prev : Row) (base : ℕ) (rows : List Row)
      → AllAbove over rows
      → BandsAbove over (sort_bands (bands_after round_2 prev base rows))
  unfolding sort_bands bands_after
  sort_after-BandsAbove over prev base [] above = tt
  sort_after-BandsAbove over prev base (r ∷ rows) (h, above) =
      let next = base + (r.over - prev.over) * prev.rate in
      insert_band-BandsAbove over (band_at round_2 r next) _ h
        (sort_after-BandsAbove over r next rows above)

  -- The bands of rows from one on, highest first.
  abbrev sorted_from : Row → ℕ → List Row → List Band
  sorted_from r base rows = sort_bands (band_at round_2 r base ∷ bands_after round_2 r base rows)

  sorted_from-last :
      (r : Row) (base : ℕ) (rows : List Row)
      → AllAbove r.over rows
      → sorted_from r base rows
        ≡ sort_bands (bands_after round_2 r base rows) ++ (band_at round_2 r base ∷ [])
  unfolding sort_bands
  sorted_from-last r base rows above =
      insert_band-last (band_at round_2 r base) (sort_bands (bands_after round_2 r base rows))
        (sort_after-BandsAbove r.over r base rows above)

  -- The last band that is reached.
  lowest_band :
      (r : Row) (base income : ℕ)
      → IsNearest round_2
      → r.over ≤ income
      → IsWithinOne
          (paye_from (band_at round_2 r base ∷ []) (pos income))
          (base + (income - r.over) * r.rate)
  lowest_band r base income nearest h =
      let n = (income - r.over) * r.rate in
      let (b, c) = nearest base in
      let (d, e) = round_half_up-near (n + round_2 base * rate_unit) in
      rw (paye_from-one (band_at round_2 r base) income, le→leb r.over income h)
        (omega arith, omega arith)

  -- From its first threshold on, the bands of ascending rows charge the tax below that threshold
  -- and the graduated tax above it.
  sorted_from-Charges :
      (r : Row) (base : ℕ) (rows : List Row) (income : ℕ)
      → IsNearest round_2
      → IsAscending (r ∷ rows)
      → r.over ≤ income
      → Charges income (base + graduated_tax (r ∷ rows) income) (sorted_from r base rows)
  unfolding bands_after sort_bands
  sorted_from-Charges r base [] income nearest up h =
      charged_by [] (band_at round_2 r base) income _ h
        (inr (refl, lowest_band r base income nearest h))
  sorted_from-Charges r base (s ∷ rows) income nearest ((lower, above), up) h =
      let next = base + (s.over - r.over) * r.rate in
      let upper = sorted_from s next rows in
      let b = band_at round_2 r base in
      let exact = base + graduated_tax (r ∷ s ∷ rows) income in
      subst (Charges income exact) (sym (sorted_from-last r base (s ∷ rows) (lower, above))) (
        charged_by upper b income exact h (elim (Bool-cases (leb s.over income)) [
          | inl reached ↦
              let (reach, within) =
                sorted_from-Charges s next rows income nearest up (leb→le s.over income reached) in
              inl (
                reach,
                subst (IsWithinOne (paye_from upper (pos income)))
                    (slice_below base r s rows income (leb→le s.over income reached)) within,
              )
          | inr not_reached ↦
              let short : income < s.over = ground arith in
              let over_income : AllAbove income (s ∷ rows) = (short, AllAbove-le rows short up.0) in
              inr (
                reaches-above upper income income
                    (sort_after-BandsAbove income r base (s ∷ rows) over_income) (omega arith),
                subst (IsWithinOne (paye_from (b ∷ []) (pos income)))
                    (slice_within base r s rows income up short)
                    (lowest_band r base income nearest h),
              )
        ]))

  bands_of-charge :
      (rows : List Row) (income : ℕ)
      → IsNearest round_2
      → IsAscending rows
      → IsWithinOne
          (paye_from (sort_bands (bands_of round_2 rows)) (pos income))
          (graduated_tax rows income)
  unfolding bands_of sort_bands
  bands_of-charge [] income nearest up = unfold paye_from in (omega arith, omega arith)
  bands_of-charge (r ∷ rows) income nearest (above, up) = elim (Bool-cases (leb r.over income)) [
    | inl reached ↦
        let h = leb→le r.over income reached in
        let (reach, within) = sorted_from-Charges r 0 rows income nearest (above, up) h in
        subst (IsWithinOne (paye_from (sorted_from r 0 rows) (pos income))) (omega arith) within
    | inr not_reached ↦
        let short : income < r.over = ground arith in
        let over_income : AllAbove income (r ∷ rows) = (short, AllAbove-le rows short above) in
        let upper = sort_bands (bands_after round_2 r 0 rows) in
        rw
          (
            paye_from-unreached (sorted_from r 0 rows) income (
                reaches-above (sorted_from r 0 rows) income income
                  (insert_band-BandsAbove income (band_at round_2 r 0) upper short
                    (sort_after-BandsAbove income r 0 rows over_income.1))
                  (omega arith)),
            graduated_tax-below r rows income (above, up) (omega arith),
          )
          (omega arith, omega arith)
  ]

  bands_from_sorted-made :
      (rows : List Row) {bands : List Band}
      → bands_from_sorted round_2 rows ≡ ok bands
      → (repeats_threshold rows ≡ false) × (sort_bands (bands_of round_2 rows) ≡ bands)
  unfolding bands_from_sorted
  bands_from_sorted-made rows h = unless_raised (repeats_threshold rows) repeated_threshold h

  -- Bands that the form accepts come from its rows, put in ascending order of distinct thresholds.
  -- On every income, the tax that a rate version with these bands charges is within a pesewa of the graduated tax of those rows:
  -- each rate on the income between its threshold and the next.
  pub bands_from_rows-charge :
      (rows : List FormRow) (rate : StatutoryRate) (income : ℕ)
      → IsNearest round_2
      → bands_from_rows round_2 rows ≡ ok rate.paye_bands
      → (cleaned sorted : List Row) × (clean_rows rows ≡ ok cleaned)
        × Perm sorted cleaned
        × IsAscending sorted
        × IsWithinOne (compute_paye rate (pos income)) (graduated_tax sorted income)
  unfolding bands_from_rows compute_paye
  bands_from_rows-charge [] rate income nearest h = cc
  bands_from_rows-charge (row ∷ rows) rate income nearest h =
      let (cleaned, e, made) = >>=-returns (clean_rows (row ∷ rows)) _ h in
      let sorted = sort_rows cleaned in
      let (distinct, same) = bands_from_sorted-made sorted made in
      let up = IsSorted-IsAscending sorted (sort_rows-IsSorted cleaned) distinct in
      (
        cleaned,
        sorted,
        e,
        sort_rows-perm cleaned,
        up,
        rw (← same) (bands_of-charge sorted income nearest up),
      )
