-- ===== src/Hourly/Agreement.antt =====
-- The hourly calculator (app/payroll_calculations/hourly.py) beside the salaried one
-- (app/payroll_calculations/salaried.py).
use pmvp.Prelude.{ℕ, ◌≡◌, refl, ap, sym, ◌∙◌, arith}
use pmvp.Prelude.Int.{ℤ, pos, ◌+ℤ◌, int_laws}
use pmvp.Prelude.Result.{Result, ok, raised, ◌>>=◌}
use pmvp.Statutory.{StatutoryRate, split_bonus}
use pmvp.Deductions.{DeductionAdjustments, PolicyError, deduction_adjustments}
use pmvp.Salaried.{
  PeriodInputs, SalariedResult, settle_pay, calculate, taxable_before_relief, taxable_after_relief,
  relief_applied,
}
use pmvp.RawEngine.Agreement.{same_tax}
use pmvp.Hourly.{
  RunData, HourlyResult, HourlyPay, hourly_taxable_before_relief, hourly_relief, settle_hourly,
  apply_statutory, used_ytd,
}

-- The same month, entered for the salaried calculator.
abbrev pub monthly_inputs_of : RunData → HourlyResult → PeriodInputs
monthly_inputs_of run r = record {
  basic_salary = pos r.basic_wage;
  transport_allowance = pos 0;
  housing_allowance = pos 0;
  medical_allowance = pos 0;
  meal_allowance = pos 0;
  productivity_bonus = pos r.bonus;
  end_of_year_bonus = pos 0;
  other_allowances = pos r.allowances;
  overtime_pay = pos r.overtime_pay;
  pay_difference = pos 0;
  pf_fund_employee = r.pf_fund_employee;
  pf_fund_employer = r.pf_fund_employer;
  tax_relief_monthly = r.tax_relief_monthly;
  loan_deduction = pos 0;
  loan_advance = pos 0;
  welfare_deduction = pos 0;
  iou_deduction = pos 0;
  other_deductions = pos 0;
  bonus_concession_used_ytd = used_ytd run r;
  calculation_context = r.context;
}

-- Two costed months with the same taxes and deductions.
abbrev pub SamePay : HourlyPay → SalariedResult → Type 0
SamePay h r =
    (h.ssnit ≡ r.ssnit)
    × (h.bonus_excess ≡ r.bonus_excess)
    × (h.tax_relief_applied ≡ r.tax_relief_applied)
    × (h.taxable_income ≡ r.taxable_income)
    × (h.paye ≡ r.paye)
    × (h.total_deductions ≡ r.total_deductions)

abbrev pub SamePayOutcome :
    Result PolicyError HourlyPay → Result PolicyError SalariedResult → Type 0
SamePayOutcome (raised e) (raised f) = e ≡ f
SamePayOutcome (raised e) (ok r) = ⊥
SamePayOutcome (ok h) (raised f) = ⊥
SamePayOutcome (ok h) (ok r) = SamePay h r

same_hourly_before :
    (run : RunData) (r : HourlyResult) (a : DeductionAdjustments) (excess : ℕ)
    → hourly_taxable_before_relief r a excess
      ≡ taxable_before_relief (monthly_inputs_of run r) a excess
unfolding hourly_taxable_before_relief taxable_before_relief
same_hourly_before run r a excess = omega int_laws

same_hourly_bonus :
    (rate : StatutoryRate) (r : HourlyResult) (used : ℤ)
    → split_bonus rate (pos r.bonus +ℤ pos 0) (pos r.basic_wage) used
      ≡ split_bonus rate (pos r.bonus) (pos r.basic_wage) used
same_hourly_bonus rate r used =
    ap (λ b. split_bonus rate b (pos r.basic_wage) used) (omega int_laws)

same_hourly_relief :
    (version relief : ℕ) (before b : ℤ)
    → before ≡ b
    → hourly_relief version relief before ≡ (
      relief_applied version relief b,
      taxable_after_relief version (relief_applied version relief b) b,
    )
unfolding hourly_relief relief_applied taxable_after_relief
same_hourly_relief version relief before b same = rw (← same) (ground arith)

same_hourly_total :
    (ssnit tax tax' : ℕ) (fund : ℤ)
    → tax ≡ tax'
    → pos ssnit +ℤ pos tax +ℤ fund
      ≡ pos ssnit +ℤ pos tax' +ℤ fund +ℤ pos 0 +ℤ pos 0 +ℤ pos 0 +ℤ pos 0
same_hourly_total ssnit tax tax' fund e = omega int_laws

settle_hourly-same :
    (rate : StatutoryRate) (run : RunData) (r : HourlyResult) (a : DeductionAdjustments)
    → SamePay
        (settle_hourly rate (used_ytd run r) r a)
        (settle_pay rate (monthly_inputs_of run r) a)
unfolding settle_hourly settle_pay
settle_hourly-same rate run r a =
    let used = used_ytd run r in
    let split = sym (same_hourly_bonus rate r used) in
    let excess = (split_bonus rate (pos r.bonus) (pos r.basic_wage) used).1 in
    let both =
      same_hourly_relief rate.deductions_policy_version a.tax_relief_applied
        (hourly_taxable_before_relief r a excess) _
        (same_hourly_before run r a excess
          ∙ ap (λ x. taxable_before_relief (monthly_inputs_of run r) a x.1) split) in
    let tax = same_tax rate a.overtime_tax (ap (λ x. x.1) both) (ap (λ x. x.0) split) in
    (
      refl,
      ap (λ x. x.1) split,
      ap (λ x. x.0) both,
      ap (λ x. x.1) both,
      tax,
      same_hourly_total a.ssnit _ _ r.pf_fund_employee tax,
    )

same_pay_outcome :
    (step : Result PolicyError DeductionAdjustments) (f : DeductionAdjustments → HourlyPay)
    (g : DeductionAdjustments → SalariedResult)
    → ((a : DeductionAdjustments) → SamePay (f a) (g a))
    → SamePayOutcome (step >>= λ a. ok (f a)) (step >>= λ a. ok (g a))
same_pay_outcome (raised e) f g same = refl
same_pay_outcome (ok a) f g same = same a

-- The statutory part of an hourly worker's pay is that of the salaried calculator on the same
-- amounts: the same error, or the same SSNIT, bonus excess, relief, taxable income, tax and
-- deductions.
pub apply_statutory-same :
    (rate : StatutoryRate) (run : RunData) (r : HourlyResult)
    → SamePayOutcome (apply_statutory rate run r) (calculate rate (monthly_inputs_of run r))
unfolding apply_statutory calculate
apply_statutory-same rate run r =
    same_pay_outcome
      (deduction_adjustments rate (pos r.basic_wage) (pos r.overtime_pay) r.pf_fund_employee
        r.pf_fund_employer r.tax_relief_monthly r.context)
      (settle_hourly rate (used_ytd run r) r) (settle_pay rate (monthly_inputs_of run r))
      (settle_hourly-same rate run r)
