-- ===== src/Fixtures.antt =====
-- The data that the tests share: the statutory rates that app/seed.py stores for 2026, a costed
-- month, runs and users.
use pmvp.Prelude.{ℕ, true, Option, none, some, [], ◌∷◌}
use pmvp.Prelude.Int.{pos}
use pmvp.Text.{codes}
use pmvp.Statutory.{Date, Band, StatutoryRate}
use pmvp.Deductions.{DeductionContext, DeductionAdjustments}
use pmvp.Deductions.Roster.{RosterEmployee}
use pmvp.Salaried.{PeriodInputs}
use pmvp.Status.{Run, RunStatus, RiskStatus}
use pmvp.Access.{User}

abbrev pub day_of : ℕ → ℕ → ℕ → Date
day_of y m d = record { year = y; month = m; day = d }

abbrev pub band_of : ℕ → ℕ → ℕ → Band
band_of over rate base = record { over = over; rate = rate; base = base }

abbrev pub rate_2026 : StatutoryRate
rate_2026 = record {
  effective_from = day_of 2026 1 1;
  ssf_employee_rate = 55000;
  ssf_employer_rate = 130000;
  paye_bands =
      band_of 5000000 350000 1362110
      ∷ band_of 1966800 300000 452150
      ∷ band_of 366800 250000 52150
      ∷ band_of 76800 175000 1400
      ∷ band_of 66800 100000 400
      ∷ band_of 58800 50000 0
      ∷ [];
  deductions_policy_version = 1;
  ssnit_min_insurable = 58780;
  ssnit_max_insurable = 6900000;
  ssnit_limits_year = 2026;
  ssnit_min_monthly_remittance = 7940;
  provident_fund_tax_limit = 165000;
  overtime_qualifying_annual_limit = 1800000;
  overtime_rate_low = 50000;
  overtime_rate_high = 100000;
  overtime_basic_threshold = 500000;
  bonus_rate = 50000;
  bonus_annual_basic_threshold = 150000;
  icu_member_rate = 30000;
  overtime_junior_monthly_threshold = 150000;
}

-- June 2026, a junior with a documented scheme and an award of relief.
abbrev pub june_context : DeductionContext
june_context = record {
  period = some (day_of 2026 6 1);
  is_junior = some true;
  qualifying_annual_income = some (pos 1200000);
  income_year = some 2026;
  pf_scheme_approved = true;
  pf_scheme_reference = codes "PF1";
  relief_approval_ref = codes "R1";
  relief_valid_from = some (day_of 2026 1 1);
  relief_valid_to = some (day_of 2026 12 31);
  approved_relief_monthly = pos 10000;
}

abbrev pub june_inputs : PeriodInputs
june_inputs = record {
  basic_salary = pos 100000;
  transport_allowance = pos 20000;
  housing_allowance = pos 0;
  medical_allowance = pos 0;
  meal_allowance = pos 5000;
  productivity_bonus = pos 30000;
  end_of_year_bonus = pos 0;
  other_allowances = pos 0;
  overtime_pay = pos 15000;
  pay_difference = pos 0;
  pf_fund_employee = pos 5000;
  pf_fund_employer = pos 5000;
  tax_relief_monthly = pos 10000;
  loan_deduction = pos 2500;
  loan_advance = pos 1000;
  welfare_deduction = pos 500;
  iou_deduction = pos 0;
  other_deductions = pos 0;
  bonus_concession_used_ytd = pos 0;
  calculation_context = june_context;
}

abbrev pub run_of : ℕ → RunStatus → Option RiskStatus → ℕ → ℕ → Run
run_of id status risk workers net = record {
  id = id;
  client_company_id = some 7;
  status = status;
  risk_status = risk;
  total_workers = workers;
  total_net_pay = some (pos net);
  created_at = id;
}

abbrev pub operator : User
operator = record {
  is_authenticated = true;
  client_company_id = none;
  role = codes " Payrolla_Admin ";
}

-- The adjustments of that month.
abbrev pub june_adjustments : DeductionAdjustments
june_adjustments = record {
  ssnit = 5500;
  ssf_employer = 13000;
  pensionable_salary = 100000;
  ssnit_remittance = 13500;
  tier_2_remittance = 5000;
  pf_allowable_employee = 5000;
  pf_employer_taxable = 0;
  tax_relief_applied = 10000;
  overtime_tax = 750;
  overtime_ordinary_pay = 0;
  warnings = [];
}

-- A welder on the roster with that evidence and an award.
abbrev pub welder : RosterEmployee
welder = record {
  id = 4;
  staff_id = codes "DCL9";
  overtime_is_junior = some true;
  overtime_qualifying_annual_income = some (pos 1200000);
  overtime_income_year = some 2026;
  pf_scheme_approved = true;
  pf_scheme_reference = codes "PF1";
  tax_relief_approval_ref = [];
  tax_relief_valid_from = none;
  tax_relief_valid_to = none;
  tax_relief_monthly = pos 10000;
  tax_relief_approvals =
      record {
        id = 1;
        reference = codes "R1";
        valid_from = day_of 2026 1 1;
        valid_to = day_of 2026 12 31;
        monthly_amount = pos 10000;
      }
      ∷ [];
}
