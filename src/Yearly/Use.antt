-- ===== src/Yearly/Use.antt =====
-- The sums of app/payroll_calculations/__init__.py over the closed runs of a year.
use pmvp.Prelude.{
  ℕ, ◌≡◌, refl, ◌∙◌, sym, Bool, true, false, ◌==◌, Option, none, some, List, [], ◌∷◌, Bool-cases,
  ==_iff, inl, inr, arith, if◌then◌else◌,
}
use pmvp.Prelude.Int.{ℤ, pos, ◌+ℤ◌, int_laws}
use pmvp.Yearly.{
  PaidItem, PaidRun, item_use, add_use, get_use, has_id, use_row, sum_uses, closed_items,
  bonus_concession_used_ytd_bulk, bonus_concession_used_ytd,
}

abbrev pub is_employee : ℕ → Option ℕ → Bool
is_employee e none = false
is_employee e (some f) = f == e

-- What one employee's items among some rows used.
abbrev pub use_of : ℕ → List PaidItem → ℤ
use_of e [] = pos 0
use_of e (i ∷ items) =
    if is_employee e i.employee_id then item_use i +ℤ use_of e items else use_of e items

get_use-add_use :
    (e f : ℕ) (x : ℤ) (used : List (ℕ × ℤ))
    → get_use e (add_use f x used) ≡ (if f == e then get_use e used +ℤ x else get_use e used)
unfolding get_use add_use
get_use-add_use e f x [] = ground arith
get_use-add_use e f x ((g, total) ∷ used) = ground (arith, get_use-add_use e f x used)

zero_use : (x : ℤ) → x +ℤ pos 0 ≡ x
zero_use x = omega int_laws

from_zero : (x : ℤ) → pos 0 +ℤ x ≡ x
from_zero x = omega int_laws

assoc_use : (x y z : ℤ) → x +ℤ y +ℤ z ≡ x +ℤ (y +ℤ z)
assoc_use x y z = omega int_laws

get_use-use_row :
    (e : ℕ) (ids : List ℕ) (o : Option ℕ) (x : ℤ) (used : List (ℕ × ℤ))
    → has_id e ids ≡ true
    → get_use e (use_row ids o x used)
      ≡ (if is_employee e o then get_use e used +ℤ x else get_use e used)
get_use-use_row e ids none x used h = refl
get_use-use_row e ids (some f) x used h = elim (Bool-cases (f == e)) [
  | inl same ↦
      let found : has_id f ids ≡ true = rw ((==_iff f e).0 same) h in
      rw found (get_use-add_use e f x used)
  | inr other ↦ ground (arith, get_use-add_use e f x used)
]

row_sum :
    (mine : Bool) (x u v w : ℤ)
    → v ≡ (if mine then u +ℤ x else u)
    → v +ℤ w ≡ u +ℤ (if mine then x +ℤ w else w)
row_sum true x u v w h = rw h (assoc_use u x w)
row_sum false x u v w h = rw h refl

get_use-sum_uses :
    (e : ℕ) (ids : List ℕ) (items : List PaidItem) (used : List (ℕ × ℤ))
    → has_id e ids ≡ true
    → get_use e (sum_uses ids items used) ≡ get_use e used +ℤ use_of e items
unfolding sum_uses
get_use-sum_uses e ids [] used h = sym (zero_use (get_use e used))
get_use-sum_uses e ids (i ∷ items) used h =
    let row = use_row ids i.employee_id (item_use i) used in
    get_use-sum_uses e ids items row h
    ∙ row_sum (is_employee e i.employee_id) (item_use i) (get_use e used) (get_use e row)
        (use_of e items) (get_use-use_row e ids i.employee_id (item_use i) used h)

sums_to :
    (e : ℕ) (ids : List ℕ) (items : List PaidItem)
    → has_id e ids ≡ true
    → get_use e (sum_uses ids items []) ≡ use_of e items
unfolding get_use
sums_to e ids items h = get_use-sum_uses e ids items [] h ∙ from_zero (use_of e items)

-- The concession that the bulk query gives for an employee is that of the query for the employee
-- alone, and is the sum over the items of the closed runs of the year but the excluded one: bonuses
-- less their excess.
pub bonus_concession_used_ytd_bulk_lem :
    (runs : List PaidRun) (ids : List ℕ) (year : ℕ) (exclude : Option ℕ) (e : ℕ)
    → has_id e ids ≡ true
    → (get_use e (bonus_concession_used_ytd_bulk runs ids year exclude)
        ≡ bonus_concession_used_ytd runs (some e) year exclude)
      × (bonus_concession_used_ytd runs (some e) year exclude
          ≡ use_of e (closed_items runs year exclude))
unfolding bonus_concession_used_ytd_bulk bonus_concession_used_ytd
bonus_concession_used_ytd_bulk_lem runs ids year exclude e h =
    let items = closed_items runs year exclude in
    let alone = sums_to e (e ∷ []) items (ground arith) in
    (sums_to e ids items h ∙ sym alone, alone)
