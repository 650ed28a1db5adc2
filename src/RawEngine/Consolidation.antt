-- ===== src/RawEngine/Consolidation.antt =====
-- app/raw_engine/consolidation.py: the hours of a worker for each pay element, summed over the rows
-- of a file. A dictionary is the list of its entries in the order of their first rows.
use pmvp.Prelude.{
  ℕ, ◌+◌, ◌≡◌, refl, Bool, true, ◌&&◌, ◌||◌, List, [], ◌∷◌, Bool-cases, inl, inr, arith,
  if◌then◌else◌,
}
use pmvp.Text.{Text, text_eq, eq_of_text_eq, is_empty}
use pmvp.RawEngine.Cleaning.{Cell, normalise_emp_id, normalise_element, coerce_hours}

-- (staff_id, pay_code, hours)
pub record HoursRow : Type 0 where
  pub staff_id : Text
  pub pay_code : Text
  pub hours : Cell

abbrev pub Bucket : Type 0
Bucket = List (Text × ℕ)

-- `bucket[code] = bucket.get(code, 0.0) + hrs`
unfoldable pub add_hours : Text → ℕ → Bucket → Bucket
add_hours code hrs [] = (code, hrs) ∷ []
add_hours code hrs ((c, h) ∷ bucket) =
    if text_eq c code then (c, h + hrs) ∷ bucket else (c, h) ∷ add_hours code hrs bucket

-- The same, on the bucket of the worker that `setdefault` gives.
unfoldable pub add_row : Text → Text → ℕ → List (Text × Bucket) → List (Text × Bucket)
unfolding add_hours
add_row staff code hrs [] = (staff, (code, hrs) ∷ []) ∷ []
add_row staff code hrs ((s, bucket) ∷ consolidated) =
    if text_eq s staff
    then (s, add_hours code hrs bucket) ∷ consolidated
    else (s, bucket) ∷ add_row staff code hrs consolidated

-- `not staff or not code`
abbrev pub is_blank : HoursRow → Bool
is_blank row = is_empty (normalise_emp_id row.staff_id) || is_empty (normalise_element row.pay_code)

unfoldable pub consolidate_from : List HoursRow → List (Text × Bucket) → List (Text × Bucket)
unfolding add_row
consolidate_from [] consolidated = consolidated
consolidate_from (row ∷ rows) consolidated = consolidate_from rows (
    if is_blank row
    then consolidated
    else add_row (normalise_emp_id row.staff_id) (normalise_element row.pay_code)
        (coerce_hours row.hours) consolidated)

unfoldable pub consolidate_hours : List HoursRow → List (Text × Bucket)
unfolding consolidate_from
consolidate_hours rows = consolidate_from rows []

abbrev pub bucket_hours : Bucket → ℕ
bucket_hours [] = 0
bucket_hours ((c, h) ∷ bucket) = h + bucket_hours bucket

unfoldable pub total_hours : List (Text × Bucket) → ℕ
total_hours [] = 0
total_hours ((s, bucket) ∷ consolidated) = bucket_hours bucket + total_hours consolidated

-- The hours of a worker for an element, 0 where there are none.
abbrev pub bucket_get : Text → Bucket → ℕ
bucket_get code [] = 0
bucket_get code ((c, h) ∷ bucket) = if text_eq c code then h else bucket_get code bucket

unfoldable pub hours_of : Text → Text → List (Text × Bucket) → ℕ
hours_of staff code [] = 0
hours_of staff code ((s, bucket) ∷ consolidated) =
    if text_eq s staff then bucket_get code bucket else hours_of staff code consolidated

-- What the rows of a worker and an element hold.
abbrev pub row_hours : Text → Text → List HoursRow → ℕ
row_hours staff code [] = 0
row_hours staff code (row ∷ rows) =
    if text_eq (normalise_emp_id row.staff_id) staff
      && text_eq (normalise_element row.pay_code) code
    then coerce_hours row.hours + row_hours staff code rows
    else row_hours staff code rows

-- What the rows without a worker or an element hold.
abbrev pub blank_hours : List HoursRow → ℕ
blank_hours [] = 0
blank_hours (row ∷ rows) =
    if is_blank row then coerce_hours row.hours + blank_hours rows else blank_hours rows

-- `sum(coerce_hours(h) for ...)`
abbrev pub raw_hours : List HoursRow → ℕ
raw_hours [] = 0
raw_hours (row ∷ rows) = coerce_hours row.hours + raw_hours rows

bucket_hours-add_hours :
    (code : Text) (hrs : ℕ) (bucket : Bucket)
    → bucket_hours (add_hours code hrs bucket) ≡ bucket_hours bucket + hrs
unfolding add_hours
bucket_hours-add_hours code hrs [] = omega arith
bucket_hours-add_hours code hrs ((c, h) ∷ bucket) =
    ground (arith, bucket_hours-add_hours code hrs bucket)

total_hours-add_row :
    (staff code : Text) (hrs : ℕ) (consolidated : List (Text × Bucket))
    → total_hours (add_row staff code hrs consolidated) ≡ total_hours consolidated + hrs
unfolding total_hours add_row
total_hours-add_row staff code hrs [] = omega arith
total_hours-add_row staff code hrs ((s, bucket) ∷ consolidated) =
    ground (
      arith,
      bucket_hours-add_hours code hrs bucket,
      total_hours-add_row staff code hrs consolidated,
    )

total_hours-consolidate_from :
    (rows : List HoursRow) (consolidated : List (Text × Bucket))
    → total_hours (consolidate_from rows consolidated) + blank_hours rows
      ≡ total_hours consolidated + raw_hours rows
unfolding consolidate_from
total_hours-consolidate_from [] consolidated = refl
total_hours-consolidate_from (row ∷ rows) consolidated = elim (Bool-cases (is_blank row)) [
  | inl blank ↦
      let rest = total_hours-consolidate_from rows consolidated in
      rw (consolidate_from, blank) (omega arith)
  | inr keyed ↦
      let staff = normalise_emp_id row.staff_id in
      let code = normalise_element row.pay_code in
      let hrs = coerce_hours row.hours in
      let added = total_hours-add_row staff code hrs consolidated in
      let rest = total_hours-consolidate_from rows (add_row staff code hrs consolidated) in
      rw (consolidate_from, keyed) (omega arith)
]

-- No hours are lost but those of the rows without a worker or an element.
pub total_hours-consolidate_hours :
    (rows : List HoursRow)
    → total_hours (consolidate_hours rows) + blank_hours rows ≡ raw_hours rows
unfolding consolidate_hours
total_hours-consolidate_hours rows =
    let h = total_hours-consolidate_from rows [] in
    let none_yet : total_hours [] ≡ 0 = unfold total_hours in refl in omega arith

text_eq_join : (d c e : Text) → text_eq d e ≡ true → text_eq c e ≡ true → text_eq d c ≡ true
text_eq_join d c e h g = rw (eq_of_text_eq c e g) h

bucket_get-add_hours :
    (code c : Text) (hrs : ℕ) (bucket : Bucket)
    → bucket_get code (add_hours c hrs bucket)
      ≡ (if text_eq c code then bucket_get code bucket + hrs else bucket_get code bucket)
unfolding add_hours
bucket_get-add_hours code c hrs [] = ground arith
bucket_get-add_hours code c hrs ((d, h) ∷ bucket) = elim (Bool-cases (text_eq d c)) [
  | inl same ↦ rw (add_hours, same, eq_of_text_eq d c same) (ground arith)
  | inr apart ↦
      let joined = text_eq_join d c code in
      rw (add_hours, apart) (ground (arith, bucket_get-add_hours code c hrs bucket))
]

pub hours_of-add_row :
    (staff code s c : Text) (hrs : ℕ) (consolidated : List (Text × Bucket))
    → hours_of staff code (add_row s c hrs consolidated) ≡ (
        if text_eq s staff && text_eq c code
        then hours_of staff code consolidated + hrs
        else hours_of staff code consolidated)
unfolding hours_of add_row
hours_of-add_row staff code s c hrs [] = ground arith
hours_of-add_row staff code s c hrs ((t, bucket) ∷ consolidated) = elim (Bool-cases (text_eq t s)) [
  | inl same ↦
      rw (add_row, same, eq_of_text_eq t s same, hours_of)
        (ground (arith, bucket_get-add_hours code c hrs bucket))
  | inr apart ↦
      let joined = text_eq_join t s staff in
      rw (add_row, apart) (ground (arith, hours_of-add_row staff code s c hrs consolidated))
]
