-- ===== src/Statutory.antt =====
-- class `StatutoryRate` of app/models.py: one effective-dated version of the statutory rates, and
-- the taxes that it computes. Amounts are pesewas; a rate r is the whole number r * rate_unit.
pub mod Paye
pub mod Overtime
pub mod Bonus
mod Tests
use pmvp.Prelude.{
  ℕ, suc, ◌+◌, ◌-◌, ◌*◌, min, Bool, true, false, ◌&&◌, ◌||◌, ◌==◌, ltb, leb, Option, none, some,
  List, [], ◌∷◌, if◌then◌else◌,
}
use pmvp.Prelude.Int.{ℤ, pos, pos_part, neg_part, ltb_ℤ, leb_ℤ}
use pmvp.Money.{rate_unit, round_half_up}

pub record Date : Type 0 where
  pub year : ℕ
  pub month : ℕ
  pub day : ℕ

-- `a <= b` on dates
abbrev pub date_le : Date → Date → Bool
date_le a b =
    ltb a.year b.year
    || (a.year == b.year && (ltb a.month b.month || (a.month == b.month && leb a.day b.day)))

-- One entry of `paye_bands`: from `over` on, tax = (income - over) * rate + base.
pub record Band : Type 0 where
  pub over : ℕ
  pub rate : ℕ
  pub base : ℕ

pub record StatutoryRate : Type 0 where
  pub effective_from : Date
  pub ssf_employee_rate : ℕ
  pub ssf_employer_rate : ℕ
  pub paye_bands : List Band
  pub deductions_policy_version : ℕ
  pub ssnit_min_insurable : ℕ
  pub ssnit_max_insurable : ℕ
  pub ssnit_limits_year : ℕ
  pub ssnit_min_monthly_remittance : ℕ
  pub provident_fund_tax_limit : ℕ
  pub overtime_qualifying_annual_limit : ℕ
  pub overtime_rate_low : ℕ
  pub overtime_rate_high : ℕ
  pub overtime_basic_threshold : ℕ
  pub bonus_rate : ℕ
  pub bonus_annual_basic_threshold : ℕ
  pub icu_member_rate : ℕ
  pub overtime_junior_monthly_threshold : ℕ

-- the loop of `compute_paye` over the bands, highest threshold first
unfoldable pub paye_from : List Band → ℤ → ℕ
paye_from [] taxable_income = 0
paye_from (band ∷ bands) taxable_income =
    if leb_ℤ (pos band.over) taxable_income
    then round_half_up rate_unit
        ((pos_part taxable_income - band.over) * band.rate + band.base * rate_unit)
    else paye_from bands taxable_income

unfoldable pub compute_paye : StatutoryRate → ℤ → ℕ
unfolding paye_from
compute_paye rate taxable_income = paye_from rate.paye_bands taxable_income

-- The Decimal inside `compute_overtime_tax`, at scale rate_unit ^ 2, and its rounding.
unfoldable pub compute_overtime_tax : StatutoryRate → ℕ → ℕ → ℕ
compute_overtime_tax rate overtime_pay basic_salary =
    if overtime_pay == 0
    then 0
    else (let cap = basic_salary * rate.overtime_basic_threshold in
        let low_portion = min (overtime_pay * rate_unit) cap in
        let high_portion = overtime_pay * rate_unit - cap in
        round_half_up (rate_unit * rate_unit)
          (low_portion * rate.overtime_rate_low + high_portion * rate.overtime_rate_high))

-- `max(cap - D(already_used), D(0))`, at scale rate_unit
unfoldable pub remaining_bonus_cap : StatutoryRate → ℤ → ℤ → ℕ
remaining_bonus_cap rate basic_salary already_used =
    let factor = 12 * rate.bonus_annual_basic_threshold in
    pos_part basic_salary * factor
    + neg_part already_used * rate_unit
    - (neg_part basic_salary * factor + pos_part already_used * rate_unit)

-- (concessionary tax, excess)
unfoldable pub split_bonus : StatutoryRate → ℤ → ℤ → ℤ → ℕ × ℕ
unfolding remaining_bonus_cap
split_bonus rate bonus basic_salary already_used =
    if leb_ℤ bonus (pos 0)
    then (0, 0)
    else (let remaining_cap = remaining_bonus_cap rate basic_salary already_used in
        let concession = min (pos_part bonus * rate_unit) remaining_cap in
        let excess = pos_part bonus * rate_unit - remaining_cap in
        (
          round_half_up (rate_unit * rate_unit) (concession * rate.bonus_rate),
          round_half_up rate_unit excess,
        ))

unfoldable pub icu_dues : StatutoryRate → ℕ → Bool → ℕ
icu_dues rate basic_salary is_member =
    if is_member then round_half_up rate_unit (basic_salary * rate.icu_member_rate) else 0

-- `active_for`: of the versions with effective_from <= on_date, the one with the latest date.
unfoldable pub active_for : List StatutoryRate → Date → Option StatutoryRate
active_for [] on_date = none
active_for (r ∷ rs) on_date =
    let later = active_for rs on_date in
    if date_le r.effective_from on_date
    then elim later [
      | none ↦ some r
      | some best ↦ if date_le best.effective_from r.effective_from then some r else some best
    ]
    else later
