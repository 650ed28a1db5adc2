-- ===== src/RawEngine/Cells.antt =====
-- The cells of the hours that app/raw_engine/consolidation.py sums.
use pmvp.Prelude.{
  ℕ, ◌+◌, ◌≡◌, ◌∙◌, refl, ap, sym, Bool, true, false, ◌&&◌, ◌||◌, List, [], ◌∷◌, Bool-cases, inl,
  inr, arith, if◌then◌else◌,
}
use pmvp.Text.{Text, text_eq, is_empty}
use pmvp.Prelude.Int.{pos, negsuc}
use pmvp.RawEngine.Cleaning.{
  normalise_emp_id, normalise_element, Cell, no_float, nan, number, coerce_hours,
}
use pmvp.RawEngine.Spelling.{letters, element_key, normalise_emp_id-letters, normalise_element-key}
use pmvp.RawEngine.Consolidation.{
  HoursRow, Bucket, is_blank, add_row, consolidate_from, consolidate_hours, total_hours, hours_of,
  row_hours, blank_hours, raw_hours, hours_of-add_row, total_hours-consolidate_hours,
}

empty_apart : (a s : Text) → is_empty a ≡ true → is_empty s ≡ false → text_eq a s ≡ false
empty_apart [] [] h g = cc
empty_apart [] (c ∷ s) h g = refl
empty_apart (c ∷ a) s h g = cc

-- A row that is skipped is of no worker and element.
blank_apart :
    (a b s c : Text)
    → (is_empty a || is_empty b) ≡ true
    → is_empty s ≡ false
    → is_empty c ≡ false
    → (text_eq a s && text_eq b c) ≡ false
blank_apart a b s c h g k = ground (arith, empty_apart a s, empty_apart b c)

add_matching :
    (matching : Bool) (hrs rest before after : ℕ)
    → after ≡ (if matching then before + hrs else before)
    → after + rest ≡ before + (if matching then hrs + rest else rest)
add_matching true hrs rest before after h = omega arith
add_matching false hrs rest before after h = omega arith

hours_of-consolidate_from :
    (staff code : Text) (rows : List HoursRow) (consolidated : List (Text × Bucket))
    → is_empty staff ≡ false
    → is_empty code ≡ false
    → hours_of staff code (consolidate_from rows consolidated)
      ≡ hours_of staff code consolidated + row_hours staff code rows
unfolding consolidate_from
hours_of-consolidate_from staff code [] consolidated s c = omega arith
hours_of-consolidate_from staff code (row ∷ rows) consolidated s c =
    let worker = normalise_emp_id row.staff_id in
    let element = normalise_element row.pay_code in
    let hrs = coerce_hours row.hours in
    elim (Bool-cases (is_blank row)) [
      | inl blank ↦
          let apart = blank_apart worker element staff code blank s c in
          rw (consolidate_from, blank, apart)
            (hours_of-consolidate_from staff code rows consolidated s c)
      | inr keyed ↦
          rw
            (
              consolidate_from,
              keyed,
              hours_of-consolidate_from staff code rows (add_row worker element hrs consolidated) s
                  c,
            )
            (add_matching (text_eq worker staff && text_eq element code) hrs
              (row_hours staff code rows) (hours_of staff code consolidated) _
              (hours_of-add_row staff code worker element hrs consolidated))
    ]

none_before :
    (staff code : Text) (rows : List HoursRow)
    → hours_of staff code [] + row_hours staff code rows ≡ row_hours staff code rows
unfolding hours_of
none_before staff code rows = omega arith

-- The hours of a cell: a negative number counts as none.
abbrev pub hours_in : Cell → ℕ
hours_in no_float = 0
hours_in nan = 0
hours_in (number (pos hours)) = hours
hours_in (number (negsuc n)) = 0

-- What the rows of a worker and an element hold, whatever the case and the white space.
abbrev pub sheet_hours : Text → Text → List HoursRow → ℕ
sheet_hours staff code [] = 0
sheet_hours staff code (row ∷ rows) =
    if text_eq (letters row.staff_id) staff && text_eq (element_key row.pay_code) code
    then hours_in row.hours + sheet_hours staff code rows
    else sheet_hours staff code rows

-- What all rows hold, and those without a worker or an element.
abbrev pub sheet_total : List HoursRow → ℕ
sheet_total [] = 0
sheet_total (row ∷ rows) = hours_in row.hours + sheet_total rows

abbrev pub unnamed_hours : List HoursRow → ℕ
unnamed_hours [] = 0
unnamed_hours (row ∷ rows) =
    if is_empty (letters row.staff_id) || is_empty (element_key row.pay_code)
    then hours_in row.hours + unnamed_hours rows
    else unnamed_hours rows

coerce_hours-in : (cell : Cell) → coerce_hours cell ≡ hours_in cell
unfolding coerce_hours
coerce_hours-in no_float = refl
coerce_hours-in nan = refl
coerce_hours-in (number (pos hours)) = refl
coerce_hours-in (number (negsuc n)) = refl

row_hours-sheet :
    (staff code : Text) (rows : List HoursRow)
    → row_hours staff code rows ≡ sheet_hours staff code rows
row_hours-sheet staff code [] = refl
row_hours-sheet staff code (row ∷ rows) =
    rw
      (
        normalise_emp_id-letters row.staff_id,
        normalise_element-key row.pay_code,
        coerce_hours-in row.hours,
        row_hours-sheet staff code rows,
      )
      refl

raw_hours-sheet : (rows : List HoursRow) → raw_hours rows ≡ sheet_total rows
raw_hours-sheet [] = refl
raw_hours-sheet (row ∷ rows) = rw (coerce_hours-in row.hours, raw_hours-sheet rows) refl

blank_hours-unnamed : (rows : List HoursRow) → blank_hours rows ≡ unnamed_hours rows
blank_hours-unnamed [] = refl
blank_hours-unnamed (row ∷ rows) =
    rw
      (
        normalise_emp_id-letters row.staff_id,
        normalise_element-key row.pay_code,
        coerce_hours-in row.hours,
        blank_hours-unnamed rows,
      )
      refl

-- Consolidation neither loses nor invents hours. A worker's hours for an element are the sum over
-- the rows whose worker has the same letters and whose element the same words, in any case and
-- however spaced; a cell that is negative or no number counts as none. All hours together are those
-- of the rows, less the rows without a worker or an element.
pub consolidate_hours_lem :
    (rows : List HoursRow)
    → ((staff code : Text)
        → is_empty staff ≡ false
        → is_empty code ≡ false
        → hours_of staff code (consolidate_hours rows) ≡ sheet_hours staff code rows)
      × (total_hours (consolidate_hours rows) + unnamed_hours rows ≡ sheet_total rows)
unfolding consolidate_hours
consolidate_hours_lem rows = (
  λ staff code s c.
      hours_of-consolidate_from staff code rows [] s c
      ∙ none_before staff code rows
      ∙ row_hours-sheet staff code rows,
  ap (λ n. total_hours (consolidate_hours rows) + n) (sym (blank_hours-unnamed rows))
      ∙ total_hours-consolidate_hours rows
      ∙ raw_hours-sheet rows,
)
