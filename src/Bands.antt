-- ===== src/Bands.antt =====
-- `bands_from_rows` of app/statutory.py: the tax bands of a new version of the rates from the rows
-- of the form. A threshold is in pesewas; a rate in per cent is the whole number percent * 10000,
-- which is the rate in millionths.
pub mod Order
pub mod Graduated
pub mod Charge
mod Tests
use pmvp.Prelude.{
  ℕ, ◌+◌, ◌-◌, ◌*◌, Bool, true, false, ◌&&◌, ◌||◌, ◌==◌, ltb, leb, Option, none, some, List, [],
  ◌∷◌, if◌then◌else◌,
}
use pmvp.Prelude.Int.{ℤ, pos, negsuc, ltb_ℤ, pos_part}
use pmvp.Prelude.Result.{Result, ok, raised, ◌>>=◌}
use pmvp.Money.{rate_unit}
use pmvp.Statutory.{Band}

-- The errors that `bands_from_rows` raises.
pub data BandError : Type 0 where
  no_band not_a_number negative_threshold rate_out_of_range repeated_threshold : BandError

-- A row of the form; a number that is infinite or none is missing.
pub record FormRow : Type 0 where
  pub over : Option ℤ
  pub percent : Option ℤ

-- A row that passed the checks: (threshold, rate)
pub record Row : Type 0 where
  pub over : ℕ
  pub rate : ℕ

unfoldable pub clean_row : FormRow → Result BandError Row
clean_row row = clean row.over row.percent
  where
    clean : Option ℤ → Option ℤ → Result BandError Row
    clean none percent = raised not_a_number
    clean (some over) none = raised not_a_number
    clean (some (negsuc n)) (some percent) = raised negative_threshold
    clean (some (pos n)) (some (negsuc p)) = raised rate_out_of_range
    clean (some (pos n)) (some (pos p)) =
        if leb p rate_unit then ok (record { over = n; rate = p }) else raised rate_out_of_range

unfoldable pub clean_rows : List FormRow → Result BandError (List Row)
unfolding clean_row
clean_rows [] = ok []
clean_rows (row ∷ rows) = do cleaned ← clean_row row; rest ← clean_rows rows; ok (cleaned ∷ rest)

-- `cleaned.sort()`: by threshold, then by rate
abbrev pub row_less : Row → Row → Bool
row_less a b = ltb a.over b.over || (a.over == b.over && ltb a.rate b.rate)

unfoldable pub insert_row : Row → List Row → List Row
insert_row row [] = row ∷ []
insert_row row (r ∷ rows) = if row_less r row then r ∷ insert_row row rows else row ∷ r ∷ rows

unfoldable pub sort_rows : List Row → List Row
unfolding insert_row
sort_rows [] = []
sort_rows (row ∷ rows) = insert_row row (sort_rows rows)

abbrev pub has_threshold : ℕ → List Row → Bool
has_threshold over [] = false
has_threshold over (r ∷ rows) = r.over == over || has_threshold over rows

-- `len(set(thresholds)) != len(thresholds)`
unfoldable pub repeats_threshold : List Row → Bool
repeats_threshold [] = false
repeats_threshold (r ∷ rows) = has_threshold r.over rows || repeats_threshold rows

-- `sorted(bands, key=lambda b: b["over"], reverse=True)`
unfoldable pub insert_band : Band → List Band → List Band
insert_band band [] = band ∷ []
insert_band band (b ∷ bands) =
    if ltb band.over b.over then b ∷ insert_band band bands else band ∷ b ∷ bands

unfoldable pub sort_bands : List Band → List Band
unfolding insert_band
sort_bands [] = []
sort_bands (band ∷ bands) = insert_band band (sort_bands bands)

-- `round_2` is Python's `round(base, 2)`, on a base in millionths of a pesewa.
module _ (round_2 : ℕ → ℕ) where
  abbrev pub band_at : Row → ℕ → Band
  band_at row base = record { over = row.over; rate = row.rate; base = round_2 base }

  -- The loop that accumulates `base`, below the first row.
  unfoldable pub bands_after : Row → ℕ → List Row → List Band
  bands_after prev base [] = []
  bands_after prev base (row ∷ rows) =
      let next = base + (row.over - prev.over) * prev.rate in
      band_at row next ∷ bands_after row next rows

  unfoldable pub bands_of : List Row → List Band
  unfolding bands_after
  bands_of [] = []
  bands_of (row ∷ rows) = band_at row 0 ∷ bands_after row 0 rows

  unfoldable pub bands_from_sorted : List Row → Result BandError (List Band)
  unfolding repeats_threshold bands_of sort_bands
  bands_from_sorted rows =
      if repeats_threshold rows then raised repeated_threshold else ok (sort_bands (bands_of rows))

  unfoldable pub bands_from_rows : List FormRow → Result BandError (List Band)
  unfolding clean_rows sort_rows bands_from_sorted
  bands_from_rows [] = raised no_band
  bands_from_rows (row ∷ rows) = do
    cleaned ← clean_rows (row ∷ rows)
    bands_from_sorted (sort_rows cleaned)
