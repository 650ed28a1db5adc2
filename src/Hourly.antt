-- ===== src/Hourly.antt =====
-- app/payroll_calculations/hourly.py and `WageRateProfile.profile_for` of app/models.py: the pay of
-- every worker with imported hours in a raw run. Hours are hundredths of an hour, an hourly rate is
-- in millionths of a pesewa; both are not negative.
pub mod Lines
pub mod Workers
pub mod Agreement
mod Tests
use pmvp.Prelude.{
  ℕ, ◌+◌, ◌-◌, ◌*◌, min, leb, Bool, true, false, not, ◌&&◌, ◌||◌, ◌==◌, Option, none, some, List,
  [], ◌∷◌, ◌++◌, if◌then◌else◌, map,
}
use pmvp.Prelude.Int.{ℤ, pos, pos_part, ◌+ℤ◌, ◌-ℤ◌}
use pmvp.Prelude.Result.{Result, ok, ◌>>=◌}
use pmvp.Text.{Text, text_eq, is_empty, is_space, strip}
use pmvp.Money.{rate_unit, round_half_up}
use pmvp.Statutory.{Date, StatutoryRate, compute_paye, split_bonus}
use pmvp.Deductions.{
  DeductionContext, DeductionAdjustments, PolicyError, PolicyWarning, deduction_adjustments,
  empty_context,
}
use pmvp.Deductions.Roster.{RosterEmployee, context_for_employee}
use pmvp.Yearly.{PaidRun, bonus_concession_used_ytd}
use pmvp.RawEngine.Cleaning.{normalise_emp_id}
use pmvp.RawEngine.Rates.{
  Category, basic, overtime, bonus, allowance, other_category, PayLine, pay_for, note_missing,
}

-- A row of `WageRateProfile` of the run's client; no employee means the client's default.
pub record WageRateProfile : Type 0 where
  pub employee_id : Option ℕ
  pub pay_code : Text
  pub hourly_rate : ℕ
  pub category : Category

abbrev pub same_employee : Option ℕ → Option ℕ → Bool
same_employee none none = true
same_employee (some a) (some b) = a == b
same_employee none (some b) = false
same_employee (some a) none = false

-- `filter_by(employee_id=..., pay_code=...).first()`
unfoldable pub first_profile : Option ℕ → Text → List WageRateProfile → Option WageRateProfile
first_profile employee code [] = none
first_profile employee code (w ∷ profiles) =
    if same_employee w.employee_id employee && text_eq w.pay_code code
    then some w
    else first_profile employee code profiles

abbrev pub or_else : Option WageRateProfile → Option WageRateProfile → Option WageRateProfile
or_else none second = second
or_else (some w) second = some w

unfoldable pub profile_for : Option ℕ → Text → List WageRateProfile → Option WageRateProfile
unfolding first_profile
profile_for none code profiles = first_profile none code profiles
profile_for (some e) code profiles =
    or_else (first_profile (some e) code profiles) (first_profile none code profiles)

-- The columns of RawPayEntry that the loop reads.
pub record RawPayEntry : Type 0 where
  pub employee_id_str : Text
  pub pay_code : Text
  pub hours : ℕ

-- The provident-fund columns of the run's stored items.
pub record PeriodItem : Type 0 where
  pub employee_id : Option ℕ
  pub staff_id : Text
  pub pf_fund_employee : ℤ
  pub pf_fund_employer : ℤ

-- The fields of `HourlyResult` that the loop over the entries fills.
pub record HourlyResult : Type 0 where
  pub employee_id_str : Text
  pub employee_id : Option ℕ
  pub tax_relief_monthly : ℤ
  pub lines : List PayLine
  pub missing_rate_codes : List Text
  pub basic_wage : ℕ
  pub overtime_pay : ℕ
  pub bonus : ℕ
  pub allowances : ℕ
  pub gross_pay : ℕ
  pub pf_fund_employee : ℤ
  pub pf_fund_employer : ℤ
  pub context : DeductionContext

-- A dictionary built from rows keeps the last row of a key.
abbrev pub last_where {ℓ} : {A : Type ℓ} → (A → Bool) → List A → Option A
last_where test [] = none
last_where test (a ∷ rows) = elim (last_where test rows) [
  | some later ↦ some later
  | none ↦ if test a then some a else none
]

-- `roster.get(key)`
unfoldable pub roster_get : Text → List RosterEmployee → Option RosterEmployee
unfolding normalise_emp_id
roster_get key roster = last_where (λ e. text_eq (normalise_emp_id e.staff_id) key) roster

abbrev pub is_item_of : Option ℕ → PeriodItem → Bool
is_item_of none item = false
is_item_of (some e) item = same_employee item.employee_id (some e)

abbrev pub has_staff_id : Text → PeriodItem → Bool
has_staff_id key item = not (is_empty item.staff_id) && text_eq (normalise_emp_id item.staff_id) key

-- `items_by_employee.get(employee_id) or items_by_staff.get(key)`
unfoldable pub period_item : Option ℕ → Text → List PeriodItem → Option PeriodItem
unfolding normalise_emp_id
period_item employee key items = elim (last_where (is_item_of employee) items) [
  | some item ↦ some item
  | none ↦ last_where (has_staff_id key) items
]

abbrev pub roster_id : Option RosterEmployee → Option ℕ
roster_id none = none
roster_id (some e) = some e.id

abbrev pub roster_relief : Option RosterEmployee → ℤ
roster_relief none = pos 0
roster_relief (some e) = e.tax_relief_monthly

abbrev pub item_funds : Option PeriodItem → ℤ × ℤ
item_funds none = (pos 0, pos 0)
item_funds (some item) = (item.pf_fund_employee, item.pf_fund_employer)

-- The run, and what its calculation reads besides the entries; `on_date` is its period's start.
pub record RunData : Type 0 where
  pub id : ℕ
  pub year : ℕ
  pub paid_runs : List PaidRun
  pub roster : List RosterEmployee
  pub profiles : List WageRateProfile
  pub items : List PeriodItem
  pub on_date : Date

-- `HourlyResult(...)`, on the first entry of a worker
unfoldable pub new_result : RunData → Text → HourlyResult
unfolding roster_get period_item context_for_employee
new_result run key =
    let employee = roster_get (normalise_emp_id key) run.roster in
    let funds = item_funds (period_item (roster_id employee) (normalise_emp_id key) run.items) in
    record {
      employee_id_str = key;
      employee_id = roster_id employee;
      tax_relief_monthly = roster_relief employee;
      lines = [];
      missing_rate_codes = [];
      basic_wage = 0;
      overtime_pay = 0;
      bonus = 0;
      allowances = 0;
      gross_pay = 0;
      pf_fund_employee = funds.0;
      pf_fund_employer = funds.1;
      context = context_for_employee employee run.on_date;
    }

-- The bucket of a category, "allowances" for an unknown one.
abbrev pub add_to_field : Category → ℕ → HourlyResult → HourlyResult
add_to_field basic amount r = record r { basic_wage = r.basic_wage + amount }
add_to_field overtime amount r = record r { overtime_pay = r.overtime_pay + amount }
add_to_field bonus amount r = record r { bonus = r.bonus + amount }
add_to_field allowance amount r = record r { allowances = r.allowances + amount }
add_to_field other_category amount r = record r { allowances = r.allowances + amount }

abbrev pub priced_line : RawPayEntry → WageRateProfile → PayLine
priced_line entry w = record {
  pay_code = entry.pay_code;
  category = w.category;
  hours = entry.hours;
  rate = w.hourly_rate;
  amount = pay_for entry.hours w.hourly_rate;
}

-- One entry, on the result of its worker.
abbrev pub add_entry : RawPayEntry → Option WageRateProfile → HourlyResult → HourlyResult
add_entry entry none r = record r {
  missing_rate_codes = note_missing entry.pay_code r.missing_rate_codes;
}
add_entry entry (some w) r =
    let amount = pay_for entry.hours w.hourly_rate in
    add_to_field w.category amount
      (record r { lines = r.lines ++ (priced_line entry w ∷ []); gross_pay = r.gross_pay + amount })

abbrev pub take_entry : RunData → RawPayEntry → HourlyResult → HourlyResult
take_entry run entry r = add_entry entry (profile_for r.employee_id entry.pay_code run.profiles) r

-- One round of the loop: `results` keeps its keys in the order of their first entries.
unfoldable pub record_entry : RunData → RawPayEntry → List HourlyResult → List HourlyResult
unfolding new_result profile_for
record_entry run entry [] = take_entry run entry (new_result run entry.employee_id_str) ∷ []
record_entry run entry (r ∷ results) =
    if text_eq r.employee_id_str entry.employee_id_str
    then take_entry run entry r ∷ results
    else r ∷ record_entry run entry results

unfoldable pub gather_entries : RunData → List RawPayEntry → List HourlyResult → List HourlyResult
unfolding record_entry
gather_entries run [] results = results
gather_entries run (entry ∷ entries) results =
    gather_entries run entries (record_entry run entry results)

-- The fields that `_apply_statutory` computes.
pub record HourlyPay : Type 0 where
  pub result : HourlyResult
  pub ssnit : ℕ
  pub ssf_employer : ℕ
  pub net_basic_wage : ℤ
  pub annual_salary : ℕ
  pub annual_salary_15pct : ℕ
  pub taxable_income : ℤ
  pub ordinary_paye : ℕ
  pub overtime_tax : ℕ
  pub bonus_tax : ℕ
  pub bonus_excess : ℕ
  pub paye : ℕ
  pub total_deductions : ℤ
  pub net_pay : ℤ
  pub pensionable_salary : ℕ
  pub ssnit_remittance : ℕ
  pub tier_2_remittance : ℕ
  pub pf_allowable_employee : ℕ
  pub pf_employer_taxable : ℕ
  pub tax_relief_applied : ℕ
  pub overtime_ordinary_pay : ℕ
  pub deductions_policy_version : ℕ
  pub warnings : List PolicyWarning

unfoldable pub hourly_taxable_before_relief : HourlyResult → DeductionAdjustments → ℕ → ℤ
hourly_taxable_before_relief r a excess =
    pos r.basic_wage
    -ℤ pos a.ssnit
    +ℤ pos r.allowances
    +ℤ pos excess
    +ℤ pos a.overtime_ordinary_pay
    +ℤ pos a.pf_employer_taxable
    -ℤ pos a.pf_allowable_employee

-- The relief that is applied and the taxable income that it leaves.
unfoldable pub hourly_relief : ℕ → ℕ → ℤ → ℕ × ℤ
hourly_relief policy_version relief before =
    if policy_version == 0
    then (relief, before -ℤ pos relief)
    else (let applied = min relief (pos_part before) in
        (applied, pos (pos_part (before -ℤ pos applied))))

-- `_apply_statutory` below the call of `deduction_adjustments`
unfoldable pub settle_hourly : StatutoryRate → ℤ → HourlyResult → DeductionAdjustments → HourlyPay
unfolding hourly_taxable_before_relief hourly_relief
settle_hourly rate used_ytd r a =
    let annual = 12 * r.basic_wage in
    let (tax_on_bonus, excess) = split_bonus rate (pos r.bonus) (pos r.basic_wage) used_ytd in
    let (relief, taxable) =
      hourly_relief rate.deductions_policy_version a.tax_relief_applied
        (hourly_taxable_before_relief r a excess) in
    let ordinary = compute_paye rate taxable in
    let tax = ordinary + a.overtime_tax + tax_on_bonus in
    let total = pos a.ssnit +ℤ pos tax +ℤ r.pf_fund_employee in
    record {
      result = r;
      ssnit = a.ssnit;
      ssf_employer = a.ssf_employer;
      net_basic_wage = pos r.basic_wage -ℤ pos a.ssnit;
      annual_salary = annual;
      annual_salary_15pct = round_half_up rate_unit (annual * rate.bonus_annual_basic_threshold);
      taxable_income = taxable;
      ordinary_paye = ordinary;
      overtime_tax = a.overtime_tax;
      bonus_tax = tax_on_bonus;
      bonus_excess = excess;
      paye = tax;
      total_deductions = total;
      net_pay = pos r.gross_pay -ℤ total;
      pensionable_salary = a.pensionable_salary;
      ssnit_remittance = a.ssnit_remittance;
      tier_2_remittance = a.tier_2_remittance;
      pf_allowable_employee = a.pf_allowable_employee;
      pf_employer_taxable = a.pf_employer_taxable;
      tax_relief_applied = relief;
      overtime_ordinary_pay = a.overtime_ordinary_pay;
      deductions_policy_version = rate.deductions_policy_version;
      warnings = a.warnings;
    }

abbrev pub used_ytd : RunData → HourlyResult → ℤ
used_ytd run r = bonus_concession_used_ytd run.paid_runs r.employee_id run.year (some run.id)

unfoldable pub apply_statutory :
    StatutoryRate → RunData → HourlyResult → Result PolicyError HourlyPay
unfolding settle_hourly
apply_statutory rate run r = do
  a ←
      deduction_adjustments rate (pos r.basic_wage) (pos r.overtime_pay) r.pf_fund_employee
        r.pf_fund_employer r.tax_relief_monthly r.context
  ok (settle_hourly rate (used_ytd run r) r a)

unfoldable pub apply_all :
    StatutoryRate → RunData → List HourlyResult → Result PolicyError (List HourlyPay)
unfolding apply_statutory
apply_all rate run [] = ok []
apply_all rate run (r ∷ results) = do
  pay ← apply_statutory rate run r
  pays ← apply_all rate run results
  ok (pay ∷ pays)

-- `calculate_run`
unfoldable pub calculate_run :
    StatutoryRate → RunData → List RawPayEntry → Result PolicyError (List HourlyPay)
unfolding gather_entries apply_all
calculate_run rate run entries = apply_all rate run (gather_entries run entries [])
