-- ===== src/Bands/Order.antt =====
-- The order of the rows that app/statutory.py sorts, and of the bands that it makes of them.
use mathlib.Core.List.{Perm}
use mathlib.Core.List.Perm
use pmvp.Prelude.{
  ℕ, ◌≡◌, ◌≤◌, ◌<◌, refl, false, ltb, List, [], ◌∷◌, ◌++◌, Bool-cases, inl, inr, arith,
}
use pmvp.Statutory.{Band}
use pmvp.Bands.{Row, row_less, insert_row, sort_rows, has_threshold, repeats_threshold, insert_band}

-- All thresholds are from the bound on; all are above it.
abbrev pub AllFrom : ℕ → List Row → Type 0
AllFrom over [] = Unit
AllFrom over (r ∷ rows) = (over ≤ r.over) × AllFrom over rows

abbrev pub AllAbove : ℕ → List Row → Type 0
AllAbove over [] = Unit
AllAbove over (r ∷ rows) = (over < r.over) × AllAbove over rows

abbrev pub IsSorted : List Row → Type 0
IsSorted [] = Unit
IsSorted (r ∷ rows) = AllFrom r.over rows × IsSorted rows

-- Each threshold is above those before it.
abbrev pub IsAscending : List Row → Type 0
IsAscending [] = Unit
IsAscending (r ∷ rows) = AllAbove r.over rows × IsAscending rows

AllFrom-le : {m n : ℕ} (rows : List Row) → m ≤ n → AllFrom n rows → AllFrom m rows
AllFrom-le [] h from = tt
AllFrom-le (r ∷ rows) h (f, from) = (omega arith, AllFrom-le rows h from)

insert_row-AllFrom :
    (over : ℕ) (row : Row) (rows : List Row)
    → over ≤ row.over
    → AllFrom over rows
    → AllFrom over (insert_row row rows)
unfolding insert_row
insert_row-AllFrom over row [] h from = (h, tt)
insert_row-AllFrom over row (r ∷ rows) h (f, from) = elim (Bool-cases (row_less r row)) [
  | inl less ↦ rw (insert_row, less) (f, insert_row-AllFrom over row rows h from)
  | inr not_less ↦ rw (insert_row, not_less) (h, (f, from))
]

insert_row-IsSorted : (row : Row) (rows : List Row) → IsSorted rows → IsSorted (insert_row row rows)
unfolding insert_row
insert_row-IsSorted row [] sorted = (tt, tt)
insert_row-IsSorted row (r ∷ rows) (from, sorted) = elim (Bool-cases (row_less r row)) [
  | inl less ↦
      rw (insert_row, less)
        (
          insert_row-AllFrom r.over row rows (ground arith) from,
          insert_row-IsSorted row rows sorted,
        )
  | inr not_less ↦
      let h : row.over ≤ r.over = ground arith in
      rw (insert_row, not_less) ((h, AllFrom-le rows h from), (from, sorted))
]

pub sort_rows-IsSorted : (rows : List Row) → IsSorted (sort_rows rows)
unfolding sort_rows
sort_rows-IsSorted [] = tt
sort_rows-IsSorted (row ∷ rows) = insert_row-IsSorted row (sort_rows rows) (sort_rows-IsSorted rows)

insert_row-perm : (row : Row) (rows : List Row) → Perm (insert_row row rows) (row ∷ rows)
unfolding insert_row
insert_row-perm row [] = Perm.refl (row ∷ [])
insert_row-perm row (r ∷ rows) = elim (Bool-cases (row_less r row)) [
  | inl less ↦
      rw (insert_row, less)
        (Perm.trans (Perm.cons r (insert_row-perm row rows)) (Perm.swap row r rows))
  | inr not_less ↦ rw (insert_row, not_less) (Perm.refl (row ∷ r ∷ rows))
]

pub sort_rows-perm : (rows : List Row) → Perm (sort_rows rows) rows
unfolding sort_rows
sort_rows-perm [] = Perm.refl []
sort_rows-perm (row ∷ rows) =
    Perm.trans (insert_row-perm row (sort_rows rows)) (Perm.cons row (sort_rows-perm rows))

AllFrom-above :
    (over : ℕ) (rows : List Row)
    → AllFrom over rows
    → has_threshold over rows ≡ false
    → AllAbove over rows
AllFrom-above over [] from fresh = tt
AllFrom-above over (r ∷ rows) (f, from) fresh =
    (ground arith, AllFrom-above over rows from (ground arith))

-- Sorted rows without a repeated threshold ascend.
pub IsSorted-IsAscending :
    (rows : List Row) → IsSorted rows → repeats_threshold rows ≡ false → IsAscending rows
unfolding repeats_threshold
IsSorted-IsAscending [] sorted fresh = tt
IsSorted-IsAscending (r ∷ rows) (from, sorted) fresh =
    (AllFrom-above r.over rows from (ground arith), IsSorted-IsAscending rows sorted (ground arith))

-- All thresholds of bands are above the bound.
abbrev pub BandsAbove : ℕ → List Band → Type 0
BandsAbove over [] = Unit
BandsAbove over (b ∷ bands) = (over < b.over) × BandsAbove over bands

-- A band below all others comes last.
pub insert_band-last :
    (band : Band) (bands : List Band)
    → BandsAbove band.over bands
    → insert_band band bands ≡ bands ++ (band ∷ [])
unfolding insert_band
insert_band-last band [] above = refl
insert_band-last band (b ∷ bands) (h, above) = ground (arith, insert_band-last band bands above)

pub insert_band-BandsAbove :
    (over : ℕ) (band : Band) (bands : List Band)
    → over < band.over
    → BandsAbove over bands
    → BandsAbove over (insert_band band bands)
unfolding insert_band
insert_band-BandsAbove over band [] h above = (h, tt)
insert_band-BandsAbove over band (b ∷ bands) h (g, above) =
    elim (Bool-cases (ltb band.over b.over)) [
      | inl lower ↦ rw (insert_band, lower) (g, insert_band-BandsAbove over band bands h above)
      | inr higher ↦ rw (insert_band, higher) (h, (g, above))
    ]
