-- ===== src/Salaried/Invariants.antt =====
-- `calculate` against the checks of `verify_statutory_invariants` (app/payroll.py).
use pmvp.Prelude.{ℕ, ◌*◌, ◌≡◌, List, [], ◌∷◌, arith, length}
use pmvp.Prelude.Int.{ℤ, pos, pos_part, ◌+ℤ◌, ◌-ℤ◌, ◌≤ℤ◌, int_laws}
use pmvp.Prelude.Result.{ok, >>=-returns}
use pmvp.Money.{rate_unit, round_half_up}
use pmvp.Statutory.{StatutoryRate}
use pmvp.Deductions.{DeductionAdjustments, deduction_adjustments}
use pmvp.Deductions.Evidence.{deduction_adjustments-nonneg, deduction_adjustments-ssnit}
use pmvp.Salaried.{
  PeriodInputs, SalariedResult, settle_pay, calculate, item_problems, verify_statutory_invariants,
  calculate_items, gross_of, deductions_of,
}

-- The post-tax deductions of a month are not negative.
pub record HasPlainDeductions (p : PeriodInputs) : Type 0 where
  pub loan : pos 0 ≤ℤ p.loan_deduction
  pub welfare : pos 0 ≤ℤ p.welfare_deduction
  pub iou : pos 0 ≤ℤ p.iou_deduction
  pub other : pos 0 ≤ℤ p.other_deductions

-- The call that `calculate` makes of the deduction policy.
abbrev pub Adjusted : StatutoryRate → PeriodInputs → DeductionAdjustments → Type 0
Adjusted rate p a =
    deduction_adjustments rate p.basic_salary p.overtime_pay p.pf_fund_employee p.pf_fund_employer
      p.tax_relief_monthly p.calculation_context
    ≡ ok a

pub calculate-Adjusted :
    (rate : StatutoryRate) (p : PeriodInputs) {r : SalariedResult}
    → calculate rate p ≡ ok r
    → (a : DeductionAdjustments) × Adjusted rate p a × (r ≡ settle_pay rate p a)
unfolding calculate
calculate-Adjusted rate p h =
    let (a, e, h') =
      >>=-returns
        (deduction_adjustments rate p.basic_salary p.overtime_pay p.pf_fund_employee
          p.pf_fund_employer p.tax_relief_monthly p.calculation_context)
        _ h in
    (a, e, ground arith)

deductions-nonneg :
    (p : PeriodInputs) (ssnit paye : ℕ)
    → HasPlainDeductions p
    → pos 0 ≤ℤ p.pf_fund_employee
    → pos 0 ≤ℤ deductions_of p ssnit paye
unfolding deductions_of
deductions-nonneg p ssnit paye d f = omega int_laws

net-le :
    (gross total advance : ℤ)
    → pos 0 ≤ℤ total
    → gross -ℤ total +ℤ advance ≤ℤ gross +ℤ advance +ℤ pos 1
net-le gross total advance h = omega int_laws

item_problems-none :
    (rate : StatutoryRate) (r : SalariedResult)
    → r.net_pay ≤ℤ r.gross_pay +ℤ r.inputs.loan_advance +ℤ pos 1
    → r.ssnit ≡ round_half_up rate_unit (pos_part r.inputs.basic_salary * rate.ssf_employee_rate)
    → r.pensionable_salary ≡ pos_part r.inputs.basic_salary
    → item_problems rate r ≡ []
unfolding item_problems
item_problems-none rate r n s p = ground arith

settle_pay-no_problems :
    (rate : StatutoryRate) (p : PeriodInputs) (a : DeductionAdjustments)
    → HasPlainDeductions p
    → Adjusted rate p a
    → item_problems rate (settle_pay rate p a) ≡ []
unfolding settle_pay
settle_pay-no_problems rate p a d e =
    let facts =
      deduction_adjustments-ssnit rate p.basic_salary p.overtime_pay p.pf_fund_employee
        p.pf_fund_employer p.tax_relief_monthly p.calculation_context e in
    let signs =
      deduction_adjustments-nonneg rate p.basic_salary p.overtime_pay p.pf_fund_employee
        p.pf_fund_employer p.tax_relief_monthly p.calculation_context e in
    item_problems-none rate (settle_pay rate p a)
      (net-le (gross_of p) (deductions_of p a.ssnit (settle_pay rate p a).paye) p.loan_advance
        (deductions-nonneg p a.ssnit (settle_pay rate p a).paye d signs.2))
      facts.0 facts.1

-- The figures that `calculate` returns for deductions that are not negative raise no problem in
-- `verify_statutory_invariants`: net pay is at most gross plus the advance, and the SSNIT is the
-- rate's share of the pension base.
calculate-no_problems :
    (rate : StatutoryRate) (p : PeriodInputs) {r : SalariedResult}
    → HasPlainDeductions p
    → calculate rate p ≡ ok r
    → item_problems rate r ≡ []
calculate-no_problems rate p d h =
    let (a, e, same) = calculate-Adjusted rate p h in rw same (settle_pay-no_problems rate p a d e)

abbrev pub AllPlain : List PeriodInputs → Type 0
AllPlain [] = Unit
AllPlain (p ∷ ps) = HasPlainDeductions p × AllPlain ps

-- A run whose items are all costed has one result for each item, and passes the check with no
-- problem, if no post-tax deduction is negative.
pub calculate_items-verified :
    (rate : StatutoryRate) (ps : List PeriodInputs) {rs : List SalariedResult}
    → AllPlain ps
    → calculate_items rate ps ≡ ok rs
    → (length rs ≡ length ps) × (verify_statutory_invariants rate rs ≡ [])
unfolding calculate_items verify_statutory_invariants
calculate_items-verified rate [] d h = ground arith
calculate_items-verified rate (p ∷ ps) d h =
    let (r, e, h1) = >>=-returns (calculate rate p) _ h in
    let (rs, es, h2) = >>=-returns (calculate_items rate ps) _ h1 in
    let clean = calculate-no_problems rate p d.0 e in
    let rest = calculate_items-verified rate ps d.1 es in ground arith
