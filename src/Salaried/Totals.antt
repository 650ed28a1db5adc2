-- ===== src/Salaried/Totals.antt =====
-- Where the money of a costed salary goes, and what a run's totals add up to.
use pmvp.Prelude.{ℕ, ◌+◌, ◌≡◌, ◌≢◌, refl, ap, length, List, [], ◌∷◌, min, arith}
use pmvp.Prelude.Int.{ℤ, pos, pos_part, neg_part, ◌+ℤ◌, ◌-ℤ◌, -ℤ_parts, int_laws}
use pmvp.Prelude.Result.{ok, ok-injective, >>=-returns}
use pmvp.Statutory.{StatutoryRate, split_bonus}
use pmvp.Deductions.{DeductionAdjustments}
use pmvp.Salaried.{
  PeriodInputs, SalariedResult, settle_pay, calculate, calculate_items, taxable_before_relief,
  relief_applied, taxable_after_relief, gross_of, refresh_run_totals,
}
use pmvp.Salaried.Invariants.{calculate-Adjusted}

-- What is left to tax before relief, read off a result.
abbrev pub chargeable : SalariedResult → ℤ
chargeable r =
    r.gross_pay
    -ℤ (r.inputs.productivity_bonus +ℤ r.inputs.end_of_year_bonus)
    +ℤ pos r.bonus_excess
    -ℤ r.inputs.overtime_pay
    +ℤ pos r.overtime_ordinary_pay
    +ℤ pos r.pf_employer_taxable
    -ℤ pos r.ssnit
    -ℤ pos r.pf_allowable_employee

taxable_before_relief-gross :
    (p : PeriodInputs) (a : DeductionAdjustments) (excess : ℕ)
    → taxable_before_relief p a excess
      ≡ gross_of p
        -ℤ (p.productivity_bonus +ℤ p.end_of_year_bonus)
        +ℤ pos excess
        -ℤ p.overtime_pay
        +ℤ pos a.overtime_ordinary_pay
        +ℤ pos a.pf_employer_taxable
        -ℤ pos a.ssnit
        -ℤ pos a.pf_allowable_employee
unfolding taxable_before_relief gross_of
taxable_before_relief-gross p a excess = omega int_laws

pos-+ℤ : (a b : ℕ) → pos a +ℤ pos b ≡ pos (a + b)
pos-+ℤ a b = omega int_laws

relief-split :
    (version relief : ℕ) (before : ℤ)
    → version ≢ 0
    → taxable_after_relief version (relief_applied version relief before) before
        +ℤ pos (relief_applied version relief before)
      ≡ pos (pos_part before)
unfolding taxable_after_relief relief_applied
relief-split version relief before v =
    let applied = min relief (pos_part before) in
    let left = pos_part (before -ℤ pos applied) in
    ground (arith, -ℤ_parts before (pos applied), pos-+ℤ left applied)

settle_pay-reconciles :
    (rate : StatutoryRate) (p : PeriodInputs) (a : DeductionAdjustments)
    → rate.deductions_policy_version ≢ 0
    → let r = settle_pay rate p a in
      r.taxable_income +ℤ pos r.tax_relief_applied ≡ pos (pos_part (chargeable r))
unfolding settle_pay
settle_pay-reconciles rate p a v =
    let excess =
      (split_bonus rate (p.productivity_bonus +ℤ p.end_of_year_bonus) p.basic_salary
        p.bonus_concession_used_ytd).1 in
    rw (← taxable_before_relief-gross p a excess) (
      relief-split rate.deductions_policy_version a.tax_relief_applied
        (taxable_before_relief p a excess) v)

-- Under the evidenced policy, the taxable income as it is stored and the applied relief together are
-- what the gross pay leaves to tax: gross, less the bonus and overtime taxed at flat rates, less
-- SSNIT and the allowable provident fund, and zero where that is negative.
pub calculate-reconciles :
    (rate : StatutoryRate) (p : PeriodInputs) {r : SalariedResult}
    → rate.deductions_policy_version ≢ 0
    → calculate rate p ≡ ok r
    → r.taxable_income +ℤ pos r.tax_relief_applied ≡ pos (pos_part (chargeable r))
calculate-reconciles rate p v h =
    let (a, e, same) = calculate-Adjusted rate p h in rw same (settle_pay-reconciles rate p a v)

-- The cash advances of a run.
abbrev pub total_advances : List SalariedResult → ℤ
total_advances [] = pos 0
total_advances (r ∷ rs) = r.inputs.loan_advance +ℤ total_advances rs

settle_pay-net :
    (rate : StatutoryRate) (p : PeriodInputs) (a : DeductionAdjustments)
    → let r = settle_pay rate p a in
      r.net_pay +ℤ r.total_deductions ≡ r.gross_pay +ℤ r.inputs.loan_advance
unfolding settle_pay
settle_pay-net rate p a =
    let total = (settle_pay rate p a).total_deductions in
    let net = gross_of p -ℤ total +ℤ p.loan_advance in omega int_laws

calculate-net :
    (rate : StatutoryRate) (p : PeriodInputs) {r : SalariedResult}
    → calculate rate p ≡ ok r
    → r.net_pay +ℤ r.total_deductions ≡ r.gross_pay +ℤ r.inputs.loan_advance
calculate-net rate p h =
    let (a, e, same) = calculate-Adjusted rate p h in rw same (settle_pay-net rate p a)

pub regroup :
    (n d g a n' d' g' a' : ℤ)
    → n +ℤ d ≡ g +ℤ a
    → n' +ℤ d' ≡ g' +ℤ a'
    → n +ℤ n' +ℤ (d +ℤ d') ≡ g +ℤ g' +ℤ (a +ℤ a')
regroup n d g a n' d' g' a' e f =
    let p = ap pos_part e in
    let q = ap neg_part e in let p' = ap pos_part f in let q' = ap neg_part f in omega int_laws

-- The totals of a costed run balance: net pay and deductions together are gross pay and the cash
-- advances, and there is a worker for each item.
pub calculate_items-totals :
    (rate : StatutoryRate) (ps : List PeriodInputs) {rs : List SalariedResult}
    → calculate_items rate ps ≡ ok rs
    → let t = refresh_run_totals rs in
      (t.total_net_pay +ℤ t.total_deductions ≡ t.total_gross_pay +ℤ total_advances rs)
      × (t.total_workers ≡ length ps)
unfolding calculate_items refresh_run_totals
calculate_items-totals rate [] h = rw (← ok-injective h) (unfold ◌+ℤ◌ in (refl, refl))
calculate_items-totals rate (p ∷ ps) h =
    let (r, e, h1) = >>=-returns (calculate rate p) _ h in
    let (rs, es, h2) = >>=-returns (calculate_items rate ps) _ h1 in
    let (balance, workers) = calculate_items-totals rate ps es in
    let t = refresh_run_totals rs in
    rw (← ok-injective h2) (
      regroup r.net_pay r.total_deductions r.gross_pay r.inputs.loan_advance t.total_net_pay
          t.total_deductions t.total_gross_pay (total_advances rs) (calculate-net rate p e) balance,
      omega arith,
    )
