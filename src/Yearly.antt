-- ===== src/Yearly.antt =====
-- app/payroll_calculations/__init__.py: the period and the rates of a run, and what the bonuses of a
-- year's closed runs used of the yearly concession. Ids are positive.
pub mod Use
pub mod Cap
mod Tests
use pmvp.Prelude.{
  ℕ, ◌+◌, ◌-◌, Bool, true, false, not, ◌&&◌, ◌||◌, ◌==◌, leb, Option, none, some, List, [], ◌∷◌,
  ◌++◌, map, if◌then◌else◌,
}
use pmvp.Prelude.Int.{ℤ, pos, ◌+ℤ◌, ◌-ℤ◌}
use pmvp.Prelude.Result.{Result, ok, raised, ◌>>=◌}
use pmvp.Text.{Text, codes, text_eq, strip, lower}
use pmvp.Statutory.{Date, StatutoryRate, active_for}
use pmvp.Status.{RunStatus, is_closed, is_pending}

-- `_MONTH_NUMBERS`, names and abbreviations
abbrev pub month_numbers : List (Text × ℕ)
month_numbers =
    (codes "January", 1)
    ∷ (codes "February", 2)
    ∷ (codes "March", 3)
    ∷ (codes "April", 4)
    ∷ (codes "May", 5)
    ∷ (codes "June", 6)
    ∷ (codes "July", 7)
    ∷ (codes "August", 8)
    ∷ (codes "September", 9)
    ∷ (codes "October", 10)
    ∷ (codes "November", 11)
    ∷ (codes "December", 12)
    ∷ (codes "Jan", 1)
    ∷ (codes "Feb", 2)
    ∷ (codes "Mar", 3)
    ∷ (codes "Apr", 4)
    ∷ (codes "Jun", 6)
    ∷ (codes "Jul", 7)
    ∷ (codes "Aug", 8)
    ∷ (codes "Sep", 9)
    ∷ (codes "Oct", 10)
    ∷ (codes "Nov", 11)
    ∷ (codes "Dec", 12)
    ∷ []

abbrev month_of : Text → List (Text × ℕ) → Option ℕ
month_of name [] = none
month_of name ((m, n) ∷ months) = if text_eq m name then some n else month_of name months

-- `capitalize()`
abbrev capitalize : Text → Text
capitalize [] = []
capitalize (c ∷ s) = (if leb 97 c && leb c 122 then c - 32 else c) ∷ lower s

-- What `statutory_rate_for_run` raises.
pub data PeriodError : Type 0 where
  unrecognised_month no_rate : PeriodError

unfoldable pub period_start : Text → ℕ → Result PeriodError Date
period_start month year = elim (month_of (capitalize (strip month)) month_numbers) [
  | none ↦ raised unrecognised_month
  | some n ↦ ok (record { year = year; month = n; day = 1 })
]

-- The columns of PayrollRun that the rate depends on. A version of the rates is named by its
-- `effective_from`, which is unique.
pub record RatedRun : Type 0 where
  pub month : Text
  pub year : ℕ
  pub status : Option RunStatus
  pub statutory_rate : Option Date

abbrev pub is_stampable : Option RunStatus → Bool
is_stampable none = true
is_stampable (some s) = is_pending s

abbrev pub stamp_rate : StatutoryRate → RatedRun → RatedRun
stamp_rate rate run =
    if is_stampable run.status
    then record run { statutory_rate = some rate.effective_from }
    else run

-- The rate, and the run with what was recorded on it.
unfoldable pub statutory_rate_for_run :
    List StatutoryRate → RatedRun → Result PeriodError (StatutoryRate × RatedRun)
unfolding period_start
statutory_rate_for_run rates run = do
  on_date ← period_start run.month run.year
  elim (active_for rates on_date) [
    | none ↦ raised no_rate
    | some rate ↦ ok (rate, stamp_rate rate run)
  ]

-- The bonus columns of PayrollItem; a missing amount is 0.
pub record PaidItem : Type 0 where
  pub employee_id : Option ℕ
  pub productivity_bonus : ℤ
  pub end_of_year_bonus : ℤ
  pub bonus_excess : ℤ

pub record PaidRun : Type 0 where
  pub id : ℕ
  pub year : ℕ
  pub status : RunStatus
  pub items : List PaidItem

abbrev pub is_run : Option ℕ → PaidRun → Bool
is_run none run = false
is_run (some id) run = run.id == id

-- The items of the closed runs of the year, less those of an excluded run.
unfoldable pub closed_items : List PaidRun → ℕ → Option ℕ → List PaidItem
closed_items [] year exclude = []
closed_items (run ∷ runs) year exclude =
    if run.year == year && (is_closed run.status && not (is_run exclude run))
    then run.items ++ closed_items runs year exclude
    else closed_items runs year exclude

-- What an item used of the concession.
abbrev pub item_use : PaidItem → ℤ
item_use i = i.productivity_bonus +ℤ i.end_of_year_bonus -ℤ i.bonus_excess

-- `used[e] = used.get(e, 0.0) + x`
unfoldable pub add_use : ℕ → ℤ → List (ℕ × ℤ) → List (ℕ × ℤ)
add_use e x [] = (e, pos 0 +ℤ x) ∷ []
add_use e x ((f, total) ∷ used) =
    if f == e then (f, total +ℤ x) ∷ used else (f, total) ∷ add_use e x used

-- `used.get(e, 0.0)`
unfoldable pub get_use : ℕ → List (ℕ × ℤ) → ℤ
get_use e [] = pos 0
get_use e ((f, total) ∷ used) = if f == e then total else get_use e used

abbrev pub has_id : ℕ → List ℕ → Bool
has_id e [] = false
has_id e (i ∷ ids) = i == e || has_id e ids

abbrev pub use_row : List ℕ → Option ℕ → ℤ → List (ℕ × ℤ) → List (ℕ × ℤ)
use_row ids none x used = used
use_row ids (some e) x used = if has_id e ids then add_use e x used else used

-- The loop over the rows, of which the query keeps those of the wanted employees.
unfoldable pub sum_uses : List ℕ → List PaidItem → List (ℕ × ℤ) → List (ℕ × ℤ)
unfolding add_use
sum_uses ids [] used = used
sum_uses ids (i ∷ items) used = sum_uses ids items (use_row ids i.employee_id (item_use i) used)

unfoldable pub bonus_concession_used_ytd_bulk : List PaidRun → List ℕ → ℕ → Option ℕ → List (ℕ × ℤ)
unfolding sum_uses closed_items
bonus_concession_used_ytd_bulk runs ids year exclude =
    sum_uses ids (closed_items runs year exclude) []

unfoldable pub bonus_concession_used_ytd : List PaidRun → Option ℕ → ℕ → Option ℕ → ℤ
unfolding bonus_concession_used_ytd_bulk get_use
bonus_concession_used_ytd runs none year exclude = pos 0
bonus_concession_used_ytd runs (some e) year exclude =
    get_use e (bonus_concession_used_ytd_bulk runs (e ∷ []) year exclude)
