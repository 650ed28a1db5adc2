-- ===== src/RawEngine/Agreement.antt =====
-- The raw-hours engine (app/raw_engine/compute.py) beside the salaried calculator
-- (app/payroll_calculations/salaried.py).
use pmvp.Prelude.{ℕ, ◌+◌, ◌≡◌, refl, ap, sym, ◌∙◌, arith}
use pmvp.Prelude.Int.{ℤ, pos, pos_part, neg_part, ◌+ℤ◌, ◌-ℤ◌, int_laws}
use pmvp.Prelude.Result.{Result, ok, raised, ◌>>=◌}
use pmvp.Statutory.{StatutoryRate, compute_paye, split_bonus}
use pmvp.Deductions.{DeductionAdjustments, PolicyError, deduction_adjustments}
use pmvp.Salaried.{
  PeriodInputs, SalariedResult, settle_pay, calculate, gross_of, deductions_of,
  taxable_before_relief, taxable_after_relief, relief_applied,
}
use pmvp.RawEngine.{
  PayslipInputs, Payslip, payslip_gross, payslip_taxable_before_relief, payslip_relief, net_pay_of,
  cost_payslip, compute_payslip, context_or_empty,
}

-- The same month, entered for the salaried calculator.
abbrev pub period_inputs_of : PayslipInputs → PeriodInputs
period_inputs_of p = record {
  basic_salary = p.basic_wage;
  transport_allowance = pos 0;
  housing_allowance = pos 0;
  medical_allowance = pos 0;
  meal_allowance = pos 0;
  productivity_bonus = p.bonus;
  end_of_year_bonus = pos 0;
  other_allowances = p.allowances;
  overtime_pay = p.overtime_pay;
  pay_difference = p.pay_difference;
  pf_fund_employee = p.provident_fund;
  pf_fund_employer = p.pf_fund_employer;
  tax_relief_monthly = p.tax_relief_monthly;
  loan_deduction = p.loan;
  loan_advance = pos 0;
  welfare_deduction = p.welfare;
  iou_deduction = p.donations;
  other_deductions = p.other_deductions;
  bonus_concession_used_ytd = p.bonus_concession_used_ytd;
  calculation_context = context_or_empty p.context;
}

-- Two costed months with the same figures, but for the union dues.
abbrev pub SameFigures : Payslip → SalariedResult → Type 0
SameFigures s r =
    (s.gross_pay ≡ r.gross_pay)
    × (s.employee_ssnit ≡ r.ssnit)
    × (s.bonus_excess ≡ r.bonus_excess)
    × (s.tax_relief_applied ≡ r.tax_relief_applied)
    × (s.taxable_income ≡ r.taxable_income)
    × (s.total_tax ≡ r.paye)
    × (s.total_deductions ≡ r.total_deductions +ℤ pos s.icu)
    × (s.net_pay +ℤ pos s.icu ≡ r.net_pay)

abbrev pub SameOutcome : Result PolicyError Payslip → Result PolicyError SalariedResult → Type 0
SameOutcome (raised e) (raised f) = e ≡ f
SameOutcome (raised e) (ok r) = ⊥
SameOutcome (ok s) (raised f) = ⊥
SameOutcome (ok s) (ok r) = SameFigures s r

same_gross : (p : PayslipInputs) → payslip_gross p ≡ gross_of (period_inputs_of p)
unfolding payslip_gross gross_of
same_gross p = omega int_laws

same_taxable_before :
    (p : PayslipInputs) (a : DeductionAdjustments) (excess : ℕ)
    → payslip_taxable_before_relief p a excess ≡ taxable_before_relief (period_inputs_of p) a excess
unfolding payslip_taxable_before_relief taxable_before_relief
same_taxable_before p a excess = omega int_laws

same_bonus :
    (rate : StatutoryRate) (p : PayslipInputs)
    → split_bonus rate (p.bonus +ℤ pos 0) p.basic_wage p.bonus_concession_used_ytd
      ≡ split_bonus rate p.bonus p.basic_wage p.bonus_concession_used_ytd
same_bonus rate p =
    ap (λ b. split_bonus rate b p.basic_wage p.bonus_concession_used_ytd) (omega int_laws)

same_relief :
    (version relief : ℕ) (before : ℤ)
    → payslip_relief version relief before ≡ (
      relief_applied version relief before,
      taxable_after_relief version (relief_applied version relief before) before,
    )
unfolding payslip_relief relief_applied taxable_after_relief
same_relief version relief before = ground arith

same_deductions :
    (p : PayslipInputs) (gross : ℤ) (tax ssnit icu : ℕ)
    → (net_pay_of gross tax ssnit icu p.provident_fund p.loan p.welfare p.donations
        p.other_deductions).1
      ≡ deductions_of (period_inputs_of p) ssnit tax +ℤ pos icu
unfolding net_pay_of deductions_of
same_deductions p gross tax ssnit icu = omega int_laws

-- The dues come off what a month without them would pay.
net_less_dues :
    (g g' t t' : ℤ) (icu : ℕ) → g ≡ g' → t ≡ t' +ℤ pos icu → g -ℤ t +ℤ pos icu ≡ g' -ℤ t' +ℤ pos 0
net_less_dues g g' t t' icu e f =
    let p = ap pos_part e in
    let q = ap neg_part e in let p' = ap pos_part f in let q' = ap neg_part f in omega int_laws

pub same_tax :
    (rate : StatutoryRate) (overtime : ℕ) {x x' : ℤ} {y y' : ℕ}
    → x ≡ x'
    → y ≡ y'
    → compute_paye rate x + overtime + y ≡ compute_paye rate x' + overtime + y'
same_tax rate overtime e f = cc

same_taxed :
    (rate : StatutoryRate) (p : PayslipInputs) (a : DeductionAdjustments)
    → let s = cost_payslip rate p a in
      let r = settle_pay rate (period_inputs_of p) a in
      (s.bonus_excess ≡ r.bonus_excess)
      × (s.tax_relief_applied ≡ r.tax_relief_applied)
      × (s.taxable_income ≡ r.taxable_income)
      × (s.total_tax ≡ r.paye)
unfolding cost_payslip settle_pay
same_taxed rate p a =
    let split = same_bonus rate p in
    let version = rate.deductions_policy_version in
    let relief = a.tax_relief_applied in
    let excess = (split_bonus rate p.bonus p.basic_wage p.bonus_concession_used_ytd).1 in
    let before = payslip_taxable_before_relief p a excess in
    let to_salaried : (b : ℤ)
        → before ≡ b
        → payslip_relief version relief before ≡ (
          relief_applied version relief b,
          taxable_after_relief version (relief_applied version relief b) b,
        ) =
      λ b e. rw (← e) (same_relief version relief before) in
    let both = to_salaried _ (
      same_taxable_before p a excess
      ∙ ap (λ x. taxable_before_relief (period_inputs_of p) a x.1) (sym split)) in
    (
      ap (λ x. x.1) (sym split),
      ap (λ x. x.0) both,
      ap (λ x. x.1) both,
      same_tax rate a.overtime_tax (ap (λ x. x.1) both) (ap (λ y. y.0) (sym split)),
    )

cost_payslip-same :
    (rate : StatutoryRate) (p : PayslipInputs) (a : DeductionAdjustments)
    → SameFigures (cost_payslip rate p a) (settle_pay rate (period_inputs_of p) a)
unfolding cost_payslip settle_pay
cost_payslip-same rate p a =
    let s = cost_payslip rate p a in
    let r = settle_pay rate (period_inputs_of p) a in
    let (excess, relief, taxable, tax) = same_taxed rate p a in
    let gross : s.gross_pay ≡ r.gross_pay = same_gross p in
    let total : s.total_deductions ≡ r.total_deductions +ℤ pos s.icu =
      same_deductions p s.gross_pay s.total_tax a.ssnit s.icu
      ∙ ap (λ t. deductions_of (period_inputs_of p) a.ssnit t +ℤ pos s.icu) tax in
    (
      gross,
      refl,
      excess,
      relief,
      taxable,
      tax,
      total,
      net_less_dues s.gross_pay r.gross_pay s.total_deductions r.total_deductions s.icu gross total,
    )

-- Bodies that give the same figures on the same adjustments have the same outcome.
same_outcome :
    (step : Result PolicyError DeductionAdjustments) (f : DeductionAdjustments → Payslip)
    (g : DeductionAdjustments → SalariedResult)
    → ((a : DeductionAdjustments) → SameFigures (f a) (g a))
    → SameOutcome (step >>= λ a. ok (f a)) (step >>= λ a. ok (g a))
same_outcome (raised e) f g same = refl
same_outcome (ok a) f g same = same a

-- The raw-hours engine and the salaried calculator give the same month the same outcome: the same
-- error, or the same gross pay, SSNIT, bonus excess, relief, taxable income and tax, with the
-- engine's union dues as a further deduction that comes off the net pay.
pub compute_payslip-same :
    (rate : StatutoryRate) (p : PayslipInputs)
    → SameOutcome (compute_payslip rate p) (calculate rate (period_inputs_of p))
unfolding compute_payslip calculate
compute_payslip-same rate p =
    same_outcome
      (deduction_adjustments rate p.basic_wage p.overtime_pay p.provident_fund p.pf_fund_employer
        p.tax_relief_monthly (context_or_empty p.context))
      (cost_payslip rate p) (settle_pay rate (period_inputs_of p)) (cost_payslip-same rate p)
