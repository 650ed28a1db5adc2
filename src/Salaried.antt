-- ===== src/Salaried.antt =====
-- app/payroll_calculations/salaried.py: one employee's monthly pay, and the checks that
-- app/payroll.py makes on the stored figures. Amounts are pesewas, so `_r2` of a sum of amounts is
-- the sum.
pub mod Totals
pub mod Invariants
mod Tests
use pmvp.Prelude.{
  ℕ, ◌+◌, ◌*◌, min, Bool, true, false, not, ◌||◌, ◌==◌, ltb, Option, none, some, List, [], ◌∷◌,
  ◌++◌, if◌then◌else◌,
}
use pmvp.Prelude.Int.{ℤ, pos, pos_part, neg_part, ◌+ℤ◌, ◌-ℤ◌, ltb_ℤ}
use pmvp.Prelude.Result.{Result, ok, ◌>>=◌}
use pmvp.Money.{rate_unit, round_half_up}
use pmvp.Statutory.{StatutoryRate, compute_paye, split_bonus}
use pmvp.Deductions.{
  DeductionContext, DeductionAdjustments, PolicyError, PolicyWarning, deduction_adjustments,
}

-- The arguments of `SalariedCalculator.calculate`.
pub record PeriodInputs : Type 0 where
  pub basic_salary : ℤ
  pub transport_allowance : ℤ
  pub housing_allowance : ℤ
  pub medical_allowance : ℤ
  pub meal_allowance : ℤ
  pub productivity_bonus : ℤ
  pub end_of_year_bonus : ℤ
  pub other_allowances : ℤ
  pub overtime_pay : ℤ
  pub pay_difference : ℤ
  pub pf_fund_employee : ℤ
  pub pf_fund_employer : ℤ
  pub tax_relief_monthly : ℤ
  pub loan_deduction : ℤ
  pub loan_advance : ℤ
  pub welfare_deduction : ℤ
  pub iou_deduction : ℤ
  pub other_deductions : ℤ
  pub bonus_concession_used_ytd : ℤ
  pub calculation_context : DeductionContext

-- The computed fields of `SalariedResult`; the others repeat the inputs.
pub record SalariedResult : Type 0 where
  pub inputs : PeriodInputs
  pub gross_pay : ℤ
  pub ssnit : ℕ
  pub ssf_employer : ℕ
  pub net_basic_wage : ℤ
  pub annual_salary : ℤ
  pub annual_salary_15pct : ℕ
  pub taxable_income : ℤ
  pub ordinary_paye : ℕ
  pub overtime_tax : ℕ
  pub bonus_tax : ℕ
  pub bonus_excess : ℕ
  pub paye : ℕ
  pub pensionable_salary : ℕ
  pub ssnit_remittance : ℕ
  pub tier_2_remittance : ℕ
  pub pf_allowable_employee : ℕ
  pub pf_employer_taxable : ℕ
  pub tax_relief_applied : ℕ
  pub overtime_ordinary_pay : ℕ
  pub deductions_policy_version : ℕ
  pub total_deductions : ℤ
  pub net_pay : ℤ
  pub warnings : List PolicyWarning

-- 12 times an amount
times_12 : ℤ → ℤ
times_12 a = a +ℤ a +ℤ a +ℤ a +ℤ a +ℤ a +ℤ a +ℤ a +ℤ a +ℤ a +ℤ a +ℤ a

-- `taxable_before_relief`
unfoldable pub taxable_before_relief : PeriodInputs → DeductionAdjustments → ℕ → ℤ
taxable_before_relief p a bonus_excess =
    p.basic_salary
    -ℤ pos a.ssnit
    +ℤ p.transport_allowance
    +ℤ p.housing_allowance
    +ℤ p.medical_allowance
    +ℤ p.meal_allowance
    +ℤ p.other_allowances
    +ℤ p.pay_difference
    +ℤ pos bonus_excess
    +ℤ pos a.overtime_ordinary_pay
    +ℤ pos a.pf_employer_taxable
    -ℤ pos a.pf_allowable_employee

-- `relief_applied`: from version 1 on, relief stops at the income that is left to tax.
unfoldable pub relief_applied : ℕ → ℕ → ℤ → ℕ
relief_applied policy_version relief before =
    if policy_version == 0 then relief else min relief (pos_part before)

-- `taxable_income`
unfoldable pub taxable_after_relief : ℕ → ℕ → ℤ → ℤ
taxable_after_relief policy_version relief before =
    let rest = before -ℤ pos relief in if policy_version == 0 then rest else pos (pos_part rest)

unfoldable pub gross_of : PeriodInputs → ℤ
gross_of p =
    p.basic_salary +ℤ p.transport_allowance +ℤ p.housing_allowance +ℤ p.medical_allowance
    +ℤ p.meal_allowance +ℤ p.productivity_bonus +ℤ p.end_of_year_bonus +ℤ p.other_allowances
    +ℤ p.overtime_pay +ℤ p.pay_difference

unfoldable pub deductions_of : PeriodInputs → ℕ → ℕ → ℤ
deductions_of p ssf_employee paye =
    pos ssf_employee
    +ℤ pos paye
    +ℤ p.pf_fund_employee
    +ℤ p.loan_deduction
    +ℤ p.welfare_deduction
    +ℤ p.iou_deduction
    +ℤ p.other_deductions

-- The body of `calculate` below the call of `deduction_adjustments`.
unfoldable pub settle_pay : StatutoryRate → PeriodInputs → DeductionAdjustments → SalariedResult
unfolding times_12 taxable_before_relief relief_applied taxable_after_relief gross_of deductions_of
settle_pay rate p adjustments =
    let version = rate.deductions_policy_version in
    let (bonus_tax, bonus_excess) =
      split_bonus rate (p.productivity_bonus +ℤ p.end_of_year_bonus) p.basic_salary
        p.bonus_concession_used_ytd in
    let before = taxable_before_relief p adjustments bonus_excess in
    let relief = relief_applied version adjustments.tax_relief_applied before in
    let taxable = taxable_after_relief version relief before in
    let ordinary = compute_paye rate taxable in
    let paye = ordinary + adjustments.overtime_tax + bonus_tax in
    let gross = gross_of p in
    let total = deductions_of p adjustments.ssnit paye in
    record {
      inputs = p;
      gross_pay = gross;
      ssnit = adjustments.ssnit;
      ssf_employer = adjustments.ssf_employer;
      net_basic_wage = p.basic_salary -ℤ pos adjustments.ssnit;
      annual_salary = times_12 p.basic_salary;
      annual_salary_15pct =
          round_half_up rate_unit
            (pos_part (times_12 p.basic_salary) * rate.bonus_annual_basic_threshold);
      taxable_income = taxable;
      ordinary_paye = ordinary;
      overtime_tax = adjustments.overtime_tax;
      bonus_tax = bonus_tax;
      bonus_excess = bonus_excess;
      paye = paye;
      pensionable_salary = adjustments.pensionable_salary;
      ssnit_remittance = adjustments.ssnit_remittance;
      tier_2_remittance = adjustments.tier_2_remittance;
      pf_allowable_employee = adjustments.pf_allowable_employee;
      pf_employer_taxable = adjustments.pf_employer_taxable;
      tax_relief_applied = relief;
      overtime_ordinary_pay = adjustments.overtime_ordinary_pay;
      deductions_policy_version = version;
      total_deductions = total;
      net_pay = gross -ℤ total +ℤ p.loan_advance;
      warnings = adjustments.warnings;
    }

-- `SalariedCalculator.calculate`
unfoldable pub calculate : StatutoryRate → PeriodInputs → Result PolicyError SalariedResult
unfolding settle_pay
calculate rate p = do
  adjustments ←
      deduction_adjustments rate p.basic_salary p.overtime_pay p.pf_fund_employee p.pf_fund_employer
        p.tax_relief_monthly p.calculation_context
  ok (settle_pay rate p adjustments)

-- The two problems that `verify_statutory_invariants` reports of an item.
pub data Problem : Type 0 where
  net_exceeds_gross : Problem
  ssnit_differs : Problem

abbrev problem_if : Bool → Problem → List Problem
problem_if test problem = if test then problem ∷ [] else []

-- `abs(a - b) > 0.01` on amounts
abbrev differ : ℕ → ℕ → Bool
differ a b = ltb (a + 1) b || ltb (b + 1) a

-- One round of the loop of `verify_statutory_invariants`, on the figures just stored.
unfoldable pub item_problems : StatutoryRate → SalariedResult → List Problem
item_problems rate item =
    let pension_base =
      if rate.deductions_policy_version == 0
      then pos_part item.inputs.basic_salary
      else item.pensionable_salary in
    problem_if (ltb_ℤ (item.gross_pay +ℤ item.inputs.loan_advance +ℤ pos 1) item.net_pay)
      net_exceeds_gross
    ++ problem_if
        (differ item.ssnit (round_half_up rate_unit (pension_base * rate.ssf_employee_rate)))
        ssnit_differs

unfoldable pub verify_statutory_invariants : StatutoryRate → List SalariedResult → List Problem
unfolding item_problems
verify_statutory_invariants rate [] = []
verify_statutory_invariants rate (item ∷ items) =
    item_problems rate item ++ verify_statutory_invariants rate items

-- The loop of `recalculate_salaried_items`: every result is computed before any is stored, so the
-- first item that raises stops the run with nothing written.
unfoldable pub calculate_items :
    StatutoryRate → List PeriodInputs → Result PolicyError (List SalariedResult)
unfolding calculate
calculate_items rate [] = ok []
calculate_items rate (p ∷ ps) = do
  result ← calculate rate p
  results ← calculate_items rate ps
  ok (result ∷ results)

pub record RunTotals : Type 0 where
  pub total_gross_pay : ℤ
  pub total_deductions : ℤ
  pub total_net_pay : ℤ
  pub total_paye : ℕ
  pub total_ssnit : ℕ
  pub total_ssnit_employer : ℕ
  pub total_workers : ℕ

-- `refresh_run_totals`
unfoldable pub refresh_run_totals : List SalariedResult → RunTotals
refresh_run_totals [] = record {
  total_gross_pay = pos 0;
  total_deductions = pos 0;
  total_net_pay = pos 0;
  total_paye = 0;
  total_ssnit = 0;
  total_ssnit_employer = 0;
  total_workers = 0;
}
refresh_run_totals (i ∷ items) =
    let rest = refresh_run_totals items in
    record {
      total_gross_pay = i.gross_pay +ℤ rest.total_gross_pay;
      total_deductions = i.total_deductions +ℤ rest.total_deductions;
      total_net_pay = i.net_pay +ℤ rest.total_net_pay;
      total_paye = i.paye + rest.total_paye;
      total_ssnit = i.ssnit + rest.total_ssnit;
      total_ssnit_employer = i.ssf_employer + rest.total_ssnit_employer;
      total_workers = rest.total_workers + 1;
    }
