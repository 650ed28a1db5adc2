-- ===== src/Deductions.antt =====
-- app/payroll_calculations/deductions.py: the shared deduction policy. Version 0 is the historical
-- policy, version 1 the evidence-based one, which raises where the evidence is missing.
pub mod Overtime
pub mod Policy
pub mod Evidence
pub mod Roster
pub mod Tests
use pmvp.Prelude.{
  ℕ, ◌+◌, ◌-◌, ◌*◌, min, Bool, true, false, not, ◌&&◌, ◌||◌, ◌==◌, ltb, leb, Option, none, some,
  List, [], ◌∷◌, ◌++◌, if◌then◌else◌,
}
use pmvp.Prelude.Int.{ℤ, pos, negsuc}
use pmvp.Prelude.Result.{Result, ok, raised, ◌>>=◌, ◌>>◌, raise_if}
use pmvp.Text.{Text, strip, is_empty}
use pmvp.Money.{rate_unit, round_half_up}
use pmvp.Statutory.{Date, date_le, StatutoryRate, compute_overtime_tax}

-- The labels of `_amount`.
pub data Label : Type 0 where
  basic_salary overtime employee_provident_fund employer_provident_fund tax_relief : Label
  approved_tax_relief : Label

-- The places that raise `DeductionPolicyError`.
pub data PolicyError : Type 0 where
  negative_amount : Label → PolicyError
  unconfirmed_ssnit_year : PolicyError
  outside_ssnit_range : PolicyError
  unverified_pension_split : PolicyError
  below_minimum_remittance : PolicyError
  no_approved_scheme : PolicyError
  exemption_exceeded : PolicyError

pub data PolicyWarning : Type 0 where
  pension_rounding : ℕ → ℕ → PolicyWarning
  scheme_missing : PolicyWarning
  exemption_limited : PolicyWarning
  relief_not_applied : PolicyWarning
  overtime_ordinary : PolicyWarning

-- class `DeductionContext`
pub record DeductionContext : Type 0 where
  pub period : Option Date
  pub is_junior : Option Bool
  pub qualifying_annual_income : Option ℤ
  pub income_year : Option ℕ
  pub pf_scheme_approved : Bool
  pub pf_scheme_reference : Text
  pub relief_approval_ref : Text
  pub relief_valid_from : Option Date
  pub relief_valid_to : Option Date
  pub approved_relief_monthly : ℤ

-- `DeductionContext()`
abbrev pub empty_context : DeductionContext
empty_context = record {
  period = none;
  is_junior = none;
  qualifying_annual_income = none;
  income_year = none;
  pf_scheme_approved = false;
  pf_scheme_reference = [];
  relief_approval_ref = [];
  relief_valid_from = none;
  relief_valid_to = none;
  approved_relief_monthly = pos 0;
}

-- class `DeductionAdjustments`
pub record DeductionAdjustments : Type 0 where
  pub ssnit : ℕ
  pub ssf_employer : ℕ
  pub pensionable_salary : ℕ
  pub ssnit_remittance : ℕ
  pub tier_2_remittance : ℕ
  pub pf_allowable_employee : ℕ
  pub pf_employer_taxable : ℕ
  pub tax_relief_applied : ℕ
  pub overtime_tax : ℕ
  pub overtime_ordinary_pay : ℕ
  pub warnings : List PolicyWarning

-- `DeductionAdjustments(pensionable_salary=...)`
abbrev pub initial_adjustments : ℕ → DeductionAdjustments
initial_adjustments basic = record {
  ssnit = 0;
  ssf_employer = 0;
  pensionable_salary = basic;
  ssnit_remittance = 0;
  tier_2_remittance = 0;
  pf_allowable_employee = 0;
  pf_employer_taxable = 0;
  tax_relief_applied = 0;
  overtime_tax = 0;
  overtime_ordinary_pay = 0;
  warnings = [];
}

abbrev pub warn : PolicyWarning → DeductionAdjustments → DeductionAdjustments
warn w result = record result { warnings = result.warnings ++ (w ∷ []) }

-- `_amount(value, label)`
pub amount : ℤ → Label → Result PolicyError ℕ
amount (pos n) label = ok n
amount (negsuc n) label = raised (negative_amount label)

-- `getattr(rate, name, None) or default`
abbrev pub or_default : ℕ → ℕ → ℕ
or_default value default = if value == 0 then default else value

abbrev pub date_or : Option Date → Date → Date
date_or none default = default
date_or (some d) default = d

-- The block `if not strict`.
historical_policy : StatutoryRate → ℕ → ℕ → ℕ → ℕ → DeductionAdjustments
historical_policy rate basic over employee_pf requested = record (initial_adjustments basic) {
  ssnit = round_half_up rate_unit (basic * rate.ssf_employee_rate);
  ssf_employer = round_half_up rate_unit (basic * rate.ssf_employer_rate);
  pf_allowable_employee = employee_pf;
  tax_relief_applied = requested;
  overtime_tax = compute_overtime_tax rate over basic;
}

-- The block `if basic > 0`, its checks in order.
pub pension_checks : StatutoryRate → Date → ℕ → Result PolicyError (Unit {0})
pension_checks rate period basic = do
  raise_if (not (period.year == or_default rate.ssnit_limits_year 2026)) unconfirmed_ssnit_year
  raise_if
      (ltb basic (or_default rate.ssnit_min_insurable 58780)
        || ltb (or_default rate.ssnit_max_insurable 6900000) basic)
      outside_ssnit_range
  raise_if (not (rate.ssf_employee_rate == 55000) || not (rate.ssf_employer_rate == 130000))
      unverified_pension_split
  raise_if
      (ltb (round_half_up rate_unit (basic * 135000))
        (or_default rate.ssnit_min_monthly_remittance 7940))
      below_minimum_remittance

-- The contributions and the remittances, rounded apart, with a warning if their totals differ.
pub pension_amounts : StatutoryRate → ℕ → DeductionAdjustments → DeductionAdjustments
pension_amounts rate basic result =
    let ssnit = round_half_up rate_unit (basic * rate.ssf_employee_rate) in
    let ssf_employer = round_half_up rate_unit (basic * rate.ssf_employer_rate) in
    let ssnit_remittance = round_half_up rate_unit (basic * 135000) in
    let tier_2_remittance = round_half_up rate_unit (basic * 50000) in
    let paid = record result {
      ssnit = ssnit;
      ssf_employer = ssf_employer;
      ssnit_remittance = ssnit_remittance;
      tier_2_remittance = tier_2_remittance;
    } in
    if ssnit + ssf_employer == ssnit_remittance + tier_2_remittance
    then paid
    else warn (pension_rounding (ssnit + ssf_employer) (ssnit_remittance + tier_2_remittance)) paid

pub pension_block :
    StatutoryRate → Date → ℕ → DeductionAdjustments → Result PolicyError DeductionAdjustments
unfolding pension_checks pension_amounts
pension_block rate period basic result =
    if ltb 0 basic
    then (pension_checks rate period basic >> ok (pension_amounts rate basic result))
    else ok result

-- `documented_scheme`
abbrev pub documented_scheme : DeductionContext → Bool
documented_scheme context =
    context.pf_scheme_approved && not (is_empty (strip context.pf_scheme_reference))

-- The documented branch: cap is basic * 16.5% at scale rate_unit.
pub documented_fund :
    StatutoryRate → ℕ → ℕ → ℕ → DeductionAdjustments → Result PolicyError DeductionAdjustments
documented_fund rate basic employee_pf employer_pf result =
    let cap = basic * or_default rate.provident_fund_tax_limit 165000 in
    let allowable =
      round_half_up rate_unit (min (employee_pf * rate_unit) (cap - employer_pf * rate_unit)) in
    let allowed = record result { pf_allowable_employee = allowable } in
    (raise_if (ltb 0 employer_pf && ltb cap ((employee_pf + employer_pf) * rate_unit))
      exemption_exceeded)
    >> ok (
        if ltb cap (employee_pf * rate_unit) && employer_pf == 0
        then warn exemption_limited allowed
        else allowed)

-- The block `if employee_pf or employer_pf`.
pub provident_fund_block :
    StatutoryRate
    → DeductionContext
    → ℕ
    → ℕ
    → ℕ
    → DeductionAdjustments
    → Result PolicyError DeductionAdjustments
unfolding documented_fund
provident_fund_block rate context basic employee_pf employer_pf result =
    if employee_pf == 0 && employer_pf == 0
    then ok result
    else (if documented_scheme context
        then documented_fund rate basic employee_pf employer_pf result
        else (raise_if (ltb 0 employer_pf) no_approved_scheme >> ok (warn scheme_missing result)))

-- `relief_valid_from <= period <= relief_valid_to`, both present
abbrev pub covers : Option Date → Option Date → Date → Bool
covers none until period = false
covers (some from) none period = false
covers (some from) (some until) period = date_le from period && date_le period until

abbrev pub valid_award : DeductionContext → Date → Bool
valid_award context period =
    not (is_empty (strip context.relief_approval_ref))
    && covers context.relief_valid_from context.relief_valid_to period

pub relief_block :
    DeductionContext → Date → ℕ → DeductionAdjustments → Result PolicyError DeductionAdjustments
unfolding amount
relief_block context period requested result = do
  approved ← amount context.approved_relief_monthly approved_tax_relief
  ok (
      if valid_award context period
      then record result { tax_relief_applied = approved }
      else (if approved == 0 && requested == 0 then result else warn relief_not_applied result))

-- `known_annual` and the comparison with the qualifying limit; a float here is finite.
abbrev pub qualifying_income : Option ℤ → ℕ → Bool
qualifying_income none limit = false
qualifying_income (some (pos annual)) limit = leb annual limit
qualifying_income (some (negsuc n)) limit = false

abbrev pub is_true : Option Bool → Bool
is_true none = false
is_true (some b) = b

abbrev pub is_year : Option ℕ → ℕ → Bool
is_year none year = false
is_year (some y) year = y == year

-- `qualifies`: is the overtime concession evidenced?
abbrev pub qualifies : StatutoryRate → DeductionContext → Date → Bool
qualifies rate context period =
    is_true context.is_junior
    && is_year context.income_year period.year
    && qualifying_income context.qualifying_annual_income
        (or_default rate.overtime_qualifying_annual_limit 1800000)

pub overtime_block :
    StatutoryRate → DeductionContext → Date → ℕ → ℕ → DeductionAdjustments → DeductionAdjustments
overtime_block rate context period basic over result =
    if over == 0
    then result
    else (if qualifies rate context period
        then record result { overtime_tax = compute_overtime_tax rate over basic }
        else warn overtime_ordinary (record result { overtime_ordinary_pay = over }))

-- The strict policy after the amounts have been checked.
pub evidenced_policy :
    StatutoryRate → ℕ → ℕ → ℕ → ℕ → ℕ → DeductionContext → Result PolicyError DeductionAdjustments
unfolding pension_block provident_fund_block relief_block overtime_block
evidenced_policy rate basic over employee_pf employer_pf requested context = do
  let period = date_or context.period rate.effective_from
  pensioned ← pension_block rate period basic (initial_adjustments basic)
  funded ← provident_fund_block rate context basic employee_pf employer_pf pensioned
  relieved ← relief_block context period requested funded
  ok (overtime_block rate context period basic over relieved)

unfoldable pub deduction_adjustments :
    StatutoryRate → ℤ → ℤ → ℤ → ℤ → ℤ → DeductionContext → Result PolicyError DeductionAdjustments
unfolding amount historical_policy evidenced_policy
deduction_adjustments rate basic_in overtime_pay fund employer_fund relief context = do
  basic ← amount basic_in basic_salary
  over ← amount overtime_pay overtime
  employee_pf ← amount fund employee_provident_fund
  employer_pf ← amount employer_fund employer_provident_fund
  requested ← amount relief tax_relief
  if rate.deductions_policy_version == 0
      then ok (historical_policy rate basic over employee_pf requested)
      else evidenced_policy rate basic over employee_pf employer_pf requested context
