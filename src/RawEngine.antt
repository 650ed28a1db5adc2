-- ===== src/RawEngine.antt =====
-- app/raw_engine: from the consolidated hours of an employee to a costed payslip (calc/rates.py,
-- calc/net.py, compute.py). Amounts are pesewas, hours are hundredths of an hour, an hourly rate is
-- in millionths of a pesewa.
pub mod Spelling
pub mod Agreement
pub mod Rates
pub mod Cleaning
pub mod Consolidation
pub mod Cells
pub mod Validation
pub mod Seed
pub mod Slips
pub mod Month
pub mod Union
mod Tests
pub mod Sums
use pmvp.Prelude.{
  ℕ, ◌+◌, ◌*◌, min, Bool, true, false, ◌==◌, Option, none, some, List, [], ◌∷◌, ◌++◌, if◌then◌else◌,
}
use pmvp.Prelude.Int.{ℤ, pos, pos_part, ◌+ℤ◌, ◌-ℤ◌}
use pmvp.Prelude.Result.{Result, ok, ◌>>=◌}
use pmvp.Money.{rate_unit, round_half_up}
use pmvp.Statutory.{StatutoryRate, compute_paye, split_bonus, icu_dues}
use pmvp.Deductions.{
  DeductionContext, DeductionAdjustments, PolicyError, PolicyWarning, deduction_adjustments,
  empty_context,
}

pub record PayslipInputs : Type 0 where
  pub basic_wage : ℤ
  pub overtime_pay : ℤ
  pub allowances : ℤ
  pub bonus : ℤ
  pub pay_difference : ℤ
  pub tax_relief_monthly : ℤ
  pub provident_fund : ℤ
  pub is_icu_member : Bool
  pub loan : ℤ
  pub welfare : ℤ
  pub donations : ℤ
  pub other_deductions : ℤ
  pub bonus_concession_used_ytd : ℤ
  pub context : Option DeductionContext
  pub pf_fund_employer : ℤ

-- The computed fields of `Payslip`; the others repeat the inputs.
pub record Payslip : Type 0 where
  pub inputs : PayslipInputs
  pub employee_ssnit : ℕ
  pub employer_ssnit : ℕ
  pub net_basic_wage : ℤ
  pub annual_salary : ℤ
  pub annual_salary_15pct : ℕ
  pub gross_pay : ℤ
  pub taxable_income : ℤ
  pub ordinary_paye : ℕ
  pub overtime_tax : ℕ
  pub bonus_tax : ℕ
  pub bonus_excess : ℕ
  pub total_tax : ℕ
  pub icu : ℕ
  pub total_deductions : ℤ
  pub net_pay : ℤ
  pub pensionable_salary : ℕ
  pub ssnit_remittance : ℕ
  pub tier_2_remittance : ℕ
  pub pf_allowable_employee : ℕ
  pub pf_employer_taxable : ℕ
  pub tax_relief_applied : ℕ
  pub overtime_ordinary_pay : ℕ
  pub deductions_policy_version : ℕ
  pub warnings : List PolicyWarning

-- `net_pay` of calc/net.py: (net pay, total deductions)
unfoldable pub net_pay_of : ℤ → ℕ → ℕ → ℕ → ℤ → ℤ → ℤ → ℤ → ℤ → ℤ × ℤ
net_pay_of gross tax ssnit icu provident_fund loan welfare donations other_deductions =
    let total =
      pos tax
      +ℤ pos ssnit
      +ℤ pos icu
      +ℤ provident_fund
      +ℤ loan
      +ℤ welfare
      +ℤ donations
      +ℤ other_deductions in
    (gross -ℤ total, total)

unfoldable pub payslip_gross : PayslipInputs → ℤ
payslip_gross p = p.basic_wage +ℤ p.overtime_pay +ℤ p.allowances +ℤ p.bonus +ℤ p.pay_difference

unfoldable pub payslip_taxable_before_relief : PayslipInputs → DeductionAdjustments → ℕ → ℤ
payslip_taxable_before_relief p a excess =
    p.basic_wage
    -ℤ pos a.ssnit
    +ℤ p.allowances
    +ℤ p.pay_difference
    -ℤ pos a.pf_allowable_employee
    +ℤ pos excess
    +ℤ pos a.overtime_ordinary_pay
    +ℤ pos a.pf_employer_taxable

-- The relief that is applied and the taxable income that it leaves.
unfoldable pub payslip_relief : ℕ → ℕ → ℤ → ℕ × ℤ
payslip_relief policy_version relief before =
    if policy_version == 0
    then (relief, before -ℤ pos relief)
    else (let applied = min relief (pos_part before) in
        (applied, pos (pos_part (before -ℤ pos applied))))

-- `compute_payslip` below the call of `deduction_adjustments`
unfoldable pub cost_payslip : StatutoryRate → PayslipInputs → DeductionAdjustments → Payslip
unfolding net_pay_of payslip_gross payslip_taxable_before_relief payslip_relief
cost_payslip rate p a =
    let annual = 12 * pos_part p.basic_wage in
    let (b_tax, excess) = split_bonus rate p.bonus p.basic_wage p.bonus_concession_used_ytd in
    let gross = payslip_gross p in
    let (relief, taxable) =
      payslip_relief rate.deductions_policy_version a.tax_relief_applied
        (payslip_taxable_before_relief p a excess) in
    let paye = compute_paye rate taxable in
    let tax = paye + a.overtime_tax + b_tax in
    let dues = icu_dues rate (pos_part p.basic_wage) p.is_icu_member in
    let (net, total) =
      net_pay_of gross tax a.ssnit dues p.provident_fund p.loan p.welfare p.donations
        p.other_deductions in
    record {
      inputs = p;
      employee_ssnit = a.ssnit;
      employer_ssnit = a.ssf_employer;
      net_basic_wage = p.basic_wage -ℤ pos a.ssnit;
      annual_salary = pos annual;
      annual_salary_15pct = round_half_up rate_unit (annual * rate.bonus_annual_basic_threshold);
      gross_pay = gross;
      taxable_income = taxable;
      ordinary_paye = paye;
      overtime_tax = a.overtime_tax;
      bonus_tax = b_tax;
      bonus_excess = excess;
      total_tax = tax;
      icu = dues;
      total_deductions = total;
      net_pay = net;
      pensionable_salary = a.pensionable_salary;
      ssnit_remittance = a.ssnit_remittance;
      tier_2_remittance = a.tier_2_remittance;
      pf_allowable_employee = a.pf_allowable_employee;
      pf_employer_taxable = a.pf_employer_taxable;
      tax_relief_applied = relief;
      overtime_ordinary_pay = a.overtime_ordinary_pay;
      deductions_policy_version = rate.deductions_policy_version;
      warnings = a.warnings;
    }

-- `context or DeductionContext()`
abbrev pub context_or_empty : Option DeductionContext → DeductionContext
context_or_empty none = empty_context
context_or_empty (some context) = context

unfoldable pub compute_payslip : StatutoryRate → PayslipInputs → Result PolicyError Payslip
unfolding cost_payslip
compute_payslip rate p = do
  a ←
      deduction_adjustments rate p.basic_wage p.overtime_pay p.provident_fund p.pf_fund_employer
        p.tax_relief_monthly (context_or_empty p.context)
  ok (cost_payslip rate p a)
