-- ===== src/RawEngine/Seed.antt =====
-- app/raw_engine/run.py: the payslips of a seed month, from the hours, rates and adjustments of its
-- parsed employees and from the roster.
use pmvp.Prelude.{ℕ, Bool, false, ◌||◌, ◌==◌, Option, none, some, List, [], ◌∷◌, if◌then◌else◌}
use pmvp.Prelude.Int.{ℤ, pos, ◌+ℤ◌}
use pmvp.Prelude.Result.{Result, ok, raised, ◌>>=◌}
use pmvp.Text.{Text, text_eq}
use pmvp.Statutory.{Date, StatutoryRate}
use pmvp.Deductions.{DeductionContext, PolicyError, empty_context}
use pmvp.Deductions.Roster.{RosterEmployee, context_for_employee}
use pmvp.Yearly.{PaidRun, get_use, bonus_concession_used_ytd_bulk}
use pmvp.Hourly.{roster_get}
use pmvp.RawEngine.Cleaning.{normalise_emp_id}
use pmvp.RawEngine.Rates.{RateEntry, apply_rates}
use pmvp.RawEngine.{PayslipInputs, Payslip, compute_payslip}

-- The fields of SeedEmployee that are costed; `rates` and `raw_hours` hold each code once.
pub record SeedEmployee : Type 0 where
  pub staff_id : Text
  pub basic_salary : ℤ
  pub icu_member : Bool
  pub is_hourly : Bool
  pub rates : List (Text × RateEntry)
  pub raw_hours : List (Text × ℕ)
  pub bonus : ℤ
  pub other_allowance : ℤ
  pub pay_difference : ℤ
  pub tax_relief_monthly : ℤ
  pub provident_fund : ℤ
  pub loan : ℤ
  pub donations : ℤ
  pub other_deduction : ℤ
  pub welfare : ℤ
  pub pf_fund_employer : ℤ

-- The flat basic stands in for a salaried worker whose rates give none.
abbrev pub basic_of : Bool → ℤ → ℕ → ℤ
basic_of is_hourly fallback basic =
    if is_hourly then pos basic else (if basic == 0 then fallback else pos basic)

abbrev pub requested_relief : Option RosterEmployee → ℤ → ℤ
requested_relief none relief = relief
requested_relief (some e) relief = e.tax_relief_monthly

-- `DeductionContext(period=on_date)`, or the roster's evidence
abbrev pub dated_context : Option RosterEmployee → Option Date → DeductionContext
dated_context e none = empty_context
dated_context e (some on_date) = context_for_employee e on_date

-- `build_inputs` with `assemble_inputs`
unfoldable pub build_inputs : SeedEmployee → ℤ → Option RosterEmployee → Option Date → PayslipInputs
unfolding apply_rates context_for_employee
build_inputs emp used employee on_date =
    let applied = apply_rates emp.raw_hours emp.rates in
    record {
      basic_wage = basic_of emp.is_hourly emp.basic_salary applied.basic_wage;
      overtime_pay = pos applied.overtime_pay;
      allowances = pos applied.shift_allowances +ℤ emp.other_allowance;
      bonus = emp.bonus;
      pay_difference = emp.pay_difference;
      tax_relief_monthly = requested_relief employee emp.tax_relief_monthly;
      provident_fund = emp.provident_fund;
      is_icu_member = emp.icu_member;
      loan = emp.loan;
      welfare = emp.welfare;
      donations = emp.donations;
      other_deductions = emp.other_deduction;
      bonus_concession_used_ytd = used;
      context = some (dated_context employee on_date);
      pf_fund_employer = emp.pf_fund_employer;
    }

-- The run, with what the calculation reads of it.
pub record SeedRun : Type 0 where
  pub id : ℕ
  pub year : ℕ
  pub on_date : Date
  pub paid_runs : List PaidRun
  pub roster : List RosterEmployee

-- Whether a later row of the roster has the same key.
abbrev pub has_later : Text → List RosterEmployee → Bool
has_later key [] = false
has_later key (e ∷ roster) = text_eq (normalise_emp_id e.staff_id) key || has_later key roster

-- `[employee.id for employee in roster.values()]`: the last row of each key.
unfoldable pub roster_ids : List RosterEmployee → List ℕ
roster_ids [] = []
roster_ids (e ∷ roster) =
    if has_later (normalise_emp_id e.staff_id) roster
    then roster_ids roster
    else e.id ∷ roster_ids roster

abbrev pub use_in : List (ℕ × ℤ) → Option RosterEmployee → ℤ
use_in used none = pos 0
use_in used (some e) = get_use e.id used

-- The two ways in which the calculation raises DeductionPolicyError.
pub data SeedError : Type 0 where
  run_required : SeedError
  refused : PolicyError → SeedError

abbrev pub or_refused : Result PolicyError Payslip → Result SeedError Payslip
or_refused (raised e) = raised (refused e)
or_refused (ok s) = ok s

-- `payslips[staff_id] = slip`
abbrev pub put_slip : Text → Payslip → List (Text × Payslip) → List (Text × Payslip)
put_slip key slip [] = (key, slip) ∷ []
put_slip key slip ((k, s) ∷ payslips) =
    if text_eq k key then (k, slip) ∷ payslips else (k, s) ∷ put_slip key slip payslips

-- The loop over the employees, in order, for what tells the use of the concession.
unfoldable pub compute_each :
    StatutoryRate
    → (Option RosterEmployee → ℤ)
    → List RosterEmployee
    → Option Date
    → List SeedEmployee
    → List (Text × Payslip)
    → Result SeedError (List (Text × Payslip))
unfolding build_inputs
compute_each rate used_of roster on_date [] payslips = ok payslips
compute_each rate used_of roster on_date (emp ∷ emps) payslips = do
  slip ←
      let employee = roster_get (normalise_emp_id emp.staff_id) roster in
      or_refused (compute_payslip rate (build_inputs emp (used_of employee) employee on_date))
  compute_each rate used_of roster on_date emps (put_slip emp.staff_id slip payslips)

unfoldable pub compute_seed_month :
    StatutoryRate → Option SeedRun → List SeedEmployee → Result SeedError (List (Text × Payslip))
unfolding compute_each roster_ids
compute_seed_month rate none emps =
    if rate.deductions_policy_version == 0
    then compute_each rate (λ employee. pos 0) [] none emps []
    else raised run_required
compute_seed_month rate (some run) emps =
    let used =
      bonus_concession_used_ytd_bulk run.paid_runs (roster_ids run.roster) run.year (some run.id) in
    compute_each rate (use_in used) run.roster (some run.on_date) emps []
