-- ===== src/RawEngine/Month.antt =====
-- A seed month of app/raw_engine/run.py, employee by employee.
use pmvp.Prelude.{
  ◌≡◌, ◌++◌, ◌⊎◌, refl, Bool, true, false, Option, none, some, List, [], ◌∷◌, ==-refl, inl, inr,
  arith, if◌then◌else◌,
}
use pmvp.Prelude.Int.{ℤ, ◌+ℤ◌, pos}
use pmvp.Prelude.Result.{ok}
use pmvp.Text.{Text, text_eq, eq_of_text_eq}
use pmvp.Statutory.{StatutoryRate}
use pmvp.Deductions.Roster.{RosterEmployee, context_for_employee}
use pmvp.Yearly.{has_id, bonus_concession_used_ytd_bulk, bonus_concession_used_ytd}
use pmvp.Yearly.Use.{bonus_concession_used_ytd_bulk_lem}
use pmvp.Hourly.{roster_get, last_where}
use pmvp.RawEngine.Cleaning.{normalise_emp_id}
use pmvp.RawEngine.{PayslipInputs, Payslip, compute_payslip}
use pmvp.RawEngine.Rates.{apply_rates}
use pmvp.RawEngine.Seed.{
  SeedEmployee, SeedRun, has_later, roster_ids, use_in, build_inputs, compute_seed_month,
}
use pmvp.RawEngine.Slips.{get_slip, NoneNamed, compute_each-found}

-- What the query for the employee alone gives.
abbrev pub use_alone : SeedRun → Option RosterEmployee → ℤ
use_alone run none = pos 0
use_alone run (some e) = bonus_concession_used_ytd run.paid_runs (some e.id) run.year (some run.id)

-- One row more of a dictionary that keeps the last row of a key.
step_none :
    (o : Option RosterEmployee) (test : Bool) (r : RosterEmployee)
    → (elim o [ some later ↦ some later | none ↦ if test then some r else none ]) ≡ none
    → (o ≡ none) × (test ≡ false)
step_none none true r h = cc
step_none none false r h = (refl, refl)
step_none (some later) test r h = cc

step_some :
    (o : Option RosterEmployee) (test : Bool) (r : RosterEmployee) {e : RosterEmployee}
    → (elim o [ some later ↦ some later | none ↦ if test then some r else none ]) ≡ some e
    → (o ≡ some e) ⊎ ((o ≡ none) × (test ≡ true) × (r ≡ e))
step_some none true r h = inr (refl, refl, cc)
step_some none false r h = cc
step_some (some later) test r h = inl h

none_later :
    (key : Text) (roster : List RosterEmployee)
    → last_where (λ e. text_eq (normalise_emp_id e.staff_id) key) roster ≡ none
    → has_later key roster ≡ false
none_later key [] h = refl
none_later key (e ∷ roster) h =
    let (empty, apart) = step_none _ (text_eq (normalise_emp_id e.staff_id) key) e h in
    let rest = none_later key roster empty in ground arith

-- An employee that the roster gives is among those whose use is summed.
roster_get-has_id :
    (key : Text) (roster : List RosterEmployee) {e : RosterEmployee}
    → roster_get key roster ≡ some e
    → has_id e.id (roster_ids roster) ≡ true
unfolding roster_get roster_ids
roster_get-has_id key [] h = cc
roster_get-has_id key (r ∷ roster) {e} h =
    elim (step_some _ (text_eq (normalise_emp_id r.staff_id) key) r h) [
      | inl found ↦ let rest = roster_get-has_id key roster found in ground arith
      | inr (empty, same, here) ↦
          let last = none_later key roster empty in
          rw (eq_of_text_eq (normalise_emp_id r.staff_id) key same, last, here, ==-refl e.id) refl
    ]

use_in-alone :
    (run : SeedRun) (key : Text)
    → let used =
        bonus_concession_used_ytd_bulk run.paid_runs
          (roster_ids run.roster)
          run.year
          (some run.id) in
      use_in used (roster_get key run.roster) ≡ use_alone run (roster_get key run.roster)
use_in-alone run key = by_employee (roster_get key run.roster) refl
  where
    by_employee :
        (o : Option RosterEmployee)
        → roster_get key run.roster ≡ o
        → use_in
            (bonus_concession_used_ytd_bulk run.paid_runs
              (roster_ids run.roster)
              run.year
              (some run.id))
            o
          ≡ use_alone run o
    by_employee none h = refl
    by_employee (some e) h =
        (bonus_concession_used_ytd_bulk_lem run.paid_runs (roster_ids run.roster) run.year
          (some run.id) e.id (roster_get-has_id key run.roster h)).0

-- What an employee's payslip is computed from: the month's figures of the employee, the concession
-- that the query for this employee alone gives, the relief and the dated evidence of the roster
-- where the employee is on it, the hours at their rates, and for salaried pay without such a rate the
-- flat basic salary.
abbrev pub AreInputsOf : SeedRun → SeedEmployee → PayslipInputs → Type 0
AreInputsOf run emp inputs =
    let employee = roster_get (normalise_emp_id emp.staff_id) run.roster in
    (inputs.bonus_concession_used_ytd ≡ use_alone run employee)
    × (employee ≡ none → inputs.tax_relief_monthly ≡ emp.tax_relief_monthly)
    × ((e : RosterEmployee) → employee ≡ some e → inputs.tax_relief_monthly ≡ e.tax_relief_monthly)
    × (inputs.context ≡ some (context_for_employee employee run.on_date))
    × (emp.is_hourly ≡ true
        → inputs.basic_wage ≡ pos (apply_rates emp.raw_hours emp.rates).basic_wage)
    × (emp.is_hourly ≡ false
        → (apply_rates emp.raw_hours emp.rates).basic_wage ≡ 0
        → inputs.basic_wage ≡ emp.basic_salary)
    × (inputs.allowances
        ≡ pos (apply_rates emp.raw_hours emp.rates).shift_allowances +ℤ emp.other_allowance)
    × (inputs.overtime_pay ≡ pos (apply_rates emp.raw_hours emp.rates).overtime_pay)
    × (inputs.bonus ≡ emp.bonus)
    × (inputs.pay_difference ≡ emp.pay_difference)
    × (inputs.provident_fund ≡ emp.provident_fund)
    × (inputs.pf_fund_employer ≡ emp.pf_fund_employer)
    × (inputs.is_icu_member ≡ emp.icu_member)
    × (inputs.loan ≡ emp.loan)
    × (inputs.welfare ≡ emp.welfare)
    × (inputs.donations ≡ emp.donations)
    × (inputs.other_deductions ≡ emp.other_deduction)

build_inputs-AreInputsOf :
    (run : SeedRun) (emp : SeedEmployee) (used : ℤ)
    → used ≡ use_alone run (roster_get (normalise_emp_id emp.staff_id) run.roster)
    → AreInputsOf run emp (
        build_inputs emp used
          (roster_get (normalise_emp_id emp.staff_id) run.roster)
          (some run.on_date))
unfolding build_inputs
build_inputs-AreInputsOf run emp used same = (
  same,
  λ absent. rw absent refl,
  λ e here. rw here refl,
  refl,
  λ hourly. rw hourly refl,
  λ flat unpaid. rw (flat, unpaid) refl,
  refl,
  refl,
  refl,
  refl,
  refl,
  refl,
  refl,
  refl,
  refl,
  refl,
  refl,
)

-- A seed month with a run holds, for every employee of the file whose staff id is on no later row,
-- the payslip computed from this employee's inputs: the use of the bonus concession among them is
-- what the query for the employee alone gives, and the relief and evidence are those on the roster.
pub compute_seed_month_lem :
    (rate : StatutoryRate) (run : SeedRun) (earlier : List SeedEmployee) (emp : SeedEmployee)
    (later : List SeedEmployee) {payslips : List (Text × Payslip)}
    → NoneNamed emp.staff_id later
    → compute_seed_month rate (some run) (earlier ++ (emp ∷ later)) ≡ ok payslips
    → (inputs : PayslipInputs) × AreInputsOf run emp inputs
      × (slip : Payslip) × (compute_payslip rate inputs ≡ ok slip)
      × (get_slip emp.staff_id payslips ≡ some slip)
unfolding compute_seed_month
compute_seed_month_lem rate run earlier emp later n h =
    let used =
      bonus_concession_used_ytd_bulk run.paid_runs (roster_ids run.roster) run.year (some run.id) in
    let key = normalise_emp_id emp.staff_id in
    let (slip, computed, found) =
      compute_each-found rate (use_in used) run.roster (some run.on_date) earlier emp later [] n
        h in
    (
      build_inputs emp (use_in used (roster_get key run.roster)) (roster_get key run.roster)
          (some run.on_date),
      build_inputs-AreInputsOf run emp _ (use_in-alone run key),
      slip,
      computed,
      found,
    )
