-- ===== src/Hourly/Lines.antt =====
-- What the loop over the imported hours leaves of every worker
-- (app/payroll_calculations/hourly.py).
use pmvp.Prelude.{
  ℕ, ◌+◌, ◌≡◌, refl, Option, none, some, List, [], ◌∷◌, ◌++◌, Bool-cases, inl, inr, arith,
}
use pmvp.Text.{Text, text_eq}
use pmvp.RawEngine.Rates.{
  Category, basic, overtime, bonus, allowance, other_category, PayLine, pay_for,
}
use pmvp.RawEngine.Sums.{line_total, line_total-append}
use pmvp.Hourly.{
  RawPayEntry, WageRateProfile, HourlyResult, RunData, add_entry, take_entry, profile_for,
  new_result, record_entry, gather_entries,
}

-- The buckets of a worker are the totals of the lines, and gross pay is their sum.
abbrev pub LinesAdd : HourlyResult → Type 0
LinesAdd r =
    (r.basic_wage ≡ line_total basic r.lines)
    × (r.overtime_pay ≡ line_total overtime r.lines)
    × (r.bonus ≡ line_total bonus r.lines)
    × (r.allowances ≡ line_total allowance r.lines + line_total other_category r.lines)
    × (r.gross_pay ≡ r.basic_wage + r.overtime_pay + r.bonus + r.allowances)

totals_after :
    (ls : List PayLine) (l : PayLine)
    → let more = λ (c : Category). line_total c ls + line_total c (l ∷ []) in
      (line_total basic (ls ++ (l ∷ [])) ≡ more basic)
      × (line_total overtime (ls ++ (l ∷ [])) ≡ more overtime)
      × (line_total bonus (ls ++ (l ∷ [])) ≡ more bonus)
      × (line_total allowance (ls ++ (l ∷ [])) ≡ more allowance)
      × (line_total other_category (ls ++ (l ∷ [])) ≡ more other_category)
totals_after ls l =
    let more = λ (c : Category). line_total-append c ls (l ∷ []) in
    (more basic, more overtime, more bonus, more allowance, more other_category)

abbrev line_of : RawPayEntry → ℕ → Category → PayLine
line_of entry rate c = record {
  pay_code = entry.pay_code;
  category = c;
  hours = entry.hours;
  rate = rate;
  amount = pay_for entry.hours rate;
}

add_priced :
    (c : Category) (entry : RawPayEntry) (e : Option ℕ) (code : Text) (rate : ℕ) (r : HourlyResult)
    → LinesAdd r
    → LinesAdd (
        add_entry entry
          (some (record { employee_id = e; pay_code = code; hourly_rate = rate; category = c }))
          r)
add_priced basic entry e code rate r (b, o, x, a, g) =
    let (p, q, s, t, u) = totals_after r.lines (line_of entry rate basic) in
    (omega arith, omega arith, omega arith, omega arith, omega arith)
add_priced overtime entry e code rate r (b, o, x, a, g) =
    let (p, q, s, t, u) = totals_after r.lines (line_of entry rate overtime) in
    (omega arith, omega arith, omega arith, omega arith, omega arith)
add_priced bonus entry e code rate r (b, o, x, a, g) =
    let (p, q, s, t, u) = totals_after r.lines (line_of entry rate bonus) in
    (omega arith, omega arith, omega arith, omega arith, omega arith)
add_priced allowance entry e code rate r (b, o, x, a, g) =
    let (p, q, s, t, u) = totals_after r.lines (line_of entry rate allowance) in
    (omega arith, omega arith, omega arith, omega arith, omega arith)
add_priced other_category entry e code rate r (b, o, x, a, g) =
    let (p, q, s, t, u) = totals_after r.lines (line_of entry rate other_category) in
    (omega arith, omega arith, omega arith, omega arith, omega arith)

take_entry-LinesAdd :
    (run : RunData) (entry : RawPayEntry) (r : HourlyResult)
    → LinesAdd r
    → LinesAdd (take_entry run entry r)
take_entry-LinesAdd run entry r adds =
    with_profile (profile_for r.employee_id entry.pay_code run.profiles)
  where
    with_profile : (o : Option WageRateProfile) → LinesAdd (add_entry entry o r)
    with_profile none = adds
    with_profile (some w) =
        add_priced w.category entry w.employee_id w.pay_code w.hourly_rate r adds

-- A property of every worker's result.
abbrev pub AllResults : (HourlyResult → Type 0) → List HourlyResult → Type 0
AllResults P [] = Unit
AllResults P (r ∷ results) = P r × AllResults P results

new_result-LinesAdd : (run : RunData) (key : Text) → LinesAdd (new_result run key)
unfolding new_result
new_result-LinesAdd run key = (refl, refl, refl, omega arith, omega arith)

record_entry-LinesAdd :
    (run : RunData) (entry : RawPayEntry) (results : List HourlyResult)
    → AllResults LinesAdd results
    → AllResults LinesAdd (record_entry run entry results)
unfolding record_entry
record_entry-LinesAdd run entry [] adds =
    (take_entry-LinesAdd run entry _ (new_result-LinesAdd run entry.employee_id_str), tt)
record_entry-LinesAdd run entry (r ∷ results) (add, adds) =
    elim (Bool-cases (text_eq r.employee_id_str entry.employee_id_str)) [
      | inl same ↦ rw (record_entry, same) (take_entry-LinesAdd run entry r add, adds)
      | inr other ↦ rw (record_entry, other) (add, record_entry-LinesAdd run entry results adds)
    ]

pub gather_entries-LinesAdd :
    (run : RunData) (entries : List RawPayEntry) (results : List HourlyResult)
    → AllResults LinesAdd results
    → AllResults LinesAdd (gather_entries run entries results)
unfolding gather_entries
gather_entries-LinesAdd run [] results adds = adds
gather_entries-LinesAdd run (entry ∷ entries) results adds =
    gather_entries-LinesAdd run entries (record_entry run entry results)
      (record_entry-LinesAdd run entry results adds)
