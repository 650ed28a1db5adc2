-- ===== src/Deductions/Overtime.antt =====
-- The overtime block of app/payroll_calculations/deductions.py and the evidence it asks for.
use pmvp.Prelude.{
  ℕ, ◌≤◌, ◌≡◌, ◌⊎◌, inl, inr, refl, ap, ◌&&◌, ◌==◌, ==-refl, Bool, Option, some, none, true, false,
  if◌then◌else◌, Bool-cases, arith,
}
use pmvp.Prelude.Int.{ℤ, pos, negsuc}
use pmvp.Statutory.{Date, StatutoryRate, compute_overtime_tax}
use pmvp.Deductions.{
  DeductionContext, DeductionAdjustments, overtime_block, qualifies, is_true, is_year,
  qualifying_income, or_default,
}

-- What qualifies overtime for the concession in a period: a junior worker whose income, on record
-- for the year of the period, is not negative and at most the rate's limit (18000.00 where the rate
-- has none).
abbrev pub HasOvertimeEvidence : StatutoryRate → DeductionContext → Date → Type 0
HasOvertimeEvidence rate context period =
    (context.is_junior ≡ some true)
    × (context.income_year ≡ some period.year)
    × (annual : ℕ) × (context.qualifying_annual_income ≡ some (pos annual))
    × (annual ≤ (
        if rate.overtime_qualifying_annual_limit == 0
        then 1800000
        else rate.overtime_qualifying_annual_limit))

is_true-evidence : (junior : Option Bool) → is_true junior ≡ true → junior ≡ some true
is_true-evidence none h = cc
is_true-evidence (some b) h = ap some h

is_year-evidence : (o : Option ℕ) (year : ℕ) → is_year o year ≡ true → o ≡ some year
is_year-evidence none year h = cc
is_year-evidence (some y) year h = ground arith

income-evidence :
    (income : Option ℤ) (limit : ℕ)
    → qualifying_income income limit ≡ true
    → (annual : ℕ) × (income ≡ some (pos annual)) × (annual ≤ limit)
income-evidence none limit h = cc
income-evidence (some (pos annual)) limit h = (annual, refl, ground arith)
income-evidence (some (negsuc n)) limit h = cc

both : (a b : Bool) → (a && b) ≡ true → (a ≡ true) × (b ≡ true)
both a b h = ground arith

qualifies-evidence :
    (rate : StatutoryRate) (context : DeductionContext) (period : Date)
    → qualifies rate context period ≡ true
    → HasOvertimeEvidence rate context period
qualifies-evidence rate context period q =
    let limit = or_default rate.overtime_qualifying_annual_limit 1800000 in
    let income = qualifying_income context.qualifying_annual_income limit in
    let year = is_year context.income_year period.year in
    let (evidence, low) = both (is_true context.is_junior && year) income q in
    let (junior, same_year) = both (is_true context.is_junior) year evidence in
    let (annual, recorded, within) = income-evidence context.qualifying_annual_income limit low in
    (
      is_true-evidence context.is_junior junior,
      is_year-evidence context.income_year period.year same_year,
      annual,
      recorded,
      within,
    )

evidence-qualifies :
    (rate : StatutoryRate) (context : DeductionContext) (period : Date)
    → HasOvertimeEvidence rate context period
    → qualifies rate context period ≡ true
evidence-qualifies rate context period (junior, year, annual, income, low) =
    rw (junior, year, income, ==-refl period.year) (ground arith)

clash : {b : Bool} → b ≡ true → b ≡ false → ⊥
clash h g = ground arith

-- Overtime with the evidence for it, taxed at the flat rates alone, and without it, taxed as ordinary
-- pay alone.
abbrev pub OvertimeFacts :
    StatutoryRate → DeductionContext → Date → ℕ → ℕ → DeductionAdjustments → Type 0
OvertimeFacts rate context period basic o r =
    HasOvertimeEvidence rate context period
      × (r.overtime_tax ≡ compute_overtime_tax rate o basic)
      × (r.overtime_ordinary_pay ≡ 0)
    ⊎ (HasOvertimeEvidence rate context period → ⊥)
      × (r.overtime_tax ≡ 0)
      × (r.overtime_ordinary_pay ≡ o)

pub overtime_block-facts :
    (rate : StatutoryRate) (context : DeductionContext) (period : Date) (basic o : ℕ)
    (s : DeductionAdjustments)
    → s.overtime_tax ≡ 0
    → s.overtime_ordinary_pay ≡ 0
    → OvertimeFacts rate context period basic o (overtime_block rate context period basic o s)
unfolding overtime_block compute_overtime_tax
overtime_block-facts rate context period basic o s t p =
    elim (Bool-cases (qualifies rate context period)) [
      | inl q ↦ inl (qualifies-evidence rate context period q, ground arith, ground arith)
      | inr q ↦
          inr (λ e. clash (evidence-qualifies rate context period e) q, ground arith, ground arith)
    ]
