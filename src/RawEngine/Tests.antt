-- ===== src/RawEngine/Tests.antt =====
-- Concrete hours, payslips and dues of the raw-hours engine.
use pmvp.Prelude.{ℕ, ◌+◌, ◌≡◌, refl, true, false, not, ◌&&◌, ltb, none, some, List, [], ◌∷◌}
use pmvp.Prelude.Int.{ℤ, pos}
use pmvp.Text.{Text, codes, is_empty, strip}
use pmvp.Hourly.{roster_get}
use pmvp.Salaried.{calculate}
use pmvp.RawEngine.{PayslipInputs, Payslip, compute_payslip}
use pmvp.RawEngine.Agreement.{period_inputs_of, SameOutcome, compute_payslip-same}
use pmvp.RawEngine.Rates.{RateEntry, Category}
use pmvp.RawEngine.Cleaning.{number}
use pmvp.RawEngine.Consolidation.{HoursRow, consolidate_hours, total_hours, hours_of, blank_hours}
use pmvp.RawEngine.Cells.{sheet_hours, sheet_total, unnamed_hours, consolidate_hours_lem}
use pmvp.RawEngine.Validation.{
  CheckedItem, validate_run, is_savable, is_none_blocked, validate_run-is_savable,
}
use pmvp.RawEngine.Seed.{
  SeedEmployee, SeedRun, SeedError, build_inputs, compute_each, compute_seed_month,
}
use pmvp.RawEngine.Month.{AreInputsOf, compute_seed_month_lem}
use pmvp.RawEngine.Slips.{get_slip}
use pmvp.Prelude.Result.{Result, ok, raised}
use pmvp.Statutory.{StatutoryRate}
use pmvp.Deductions.{deduction_adjustments}
use pmvp.Fixtures.{day_of, welder, rate_2026, june_context}

abbrev june_hours : PayslipInputs
june_hours = record {
  basic_wage = pos 63135;
  overtime_pay = pos 97859;
  allowances = pos 1200;
  bonus = pos 12097;
  pay_difference = pos 0;
  tax_relief_monthly = pos 10000;
  provident_fund = pos 0;
  is_icu_member = true;
  loan = pos 0;
  welfare = pos 500;
  donations = pos 200;
  other_deductions = pos 0;
  bonus_concession_used_ytd = pos 0;
  context = some june_context;
  pf_fund_employer = pos 0;
}

compute_payslip-same_example :
    SameOutcome
      (compute_payslip rate_2026 june_hours)
      (calculate rate_2026 (period_inputs_of june_hours))
compute_payslip-same_example = compute_payslip-same rate_2026 june_hours

abbrev worked : List (Text × ℕ)
worked = (codes "N", 16000) ∷ (codes "OT", 1250) ∷ (codes "SHIFT", 800) ∷ (codes "X", 0) ∷ []

abbrev table : List (Text × RateEntry)
table =
    (codes "N", record { hourly_rate = 394000000; category = Category.basic })
    ∷ (codes "OT", record { hourly_rate = 591000000; category = Category.overtime })
    ∷ []

abbrev hours_row : Text → Text → ℤ → HoursRow
hours_row staff code h = record { staff_id = staff; pay_code = code; hours = number h }

abbrev sheet : List HoursRow
sheet =
    hours_row (codes "DCL 9") (codes "Overtime weekday") (pos 800)
    ∷ hours_row (codes "dcl9") (codes " OVERTIME  WEEKDAY ") (pos 250)
    ∷ hours_row (codes "  ") (codes "NORMAL") (pos 100)
    ∷ []

abbrev checked : List CheckedItem
checked =
    record {
      staff_id = codes "DCL9";
      icu_dues = 1894;
      is_member = false;
      gross_pay = pos 115000;
      net_pay = pos 90000;
      source_gross = some (pos 115001);
      source_net = none;
    }
    ∷ []

consolidate_hours_lem_example :
    ((staff code : Text)
      → is_empty staff ≡ false
      → is_empty code ≡ false
      → hours_of staff code (consolidate_hours sheet) ≡ sheet_hours staff code sheet)
    × (total_hours (consolidate_hours sheet) + unnamed_hours sheet ≡ sheet_total sheet)
consolidate_hours_lem_example = consolidate_hours_lem sheet

validate_run-is_savable_example :
    is_savable (validate_run checked (some (sheet, consolidate_hours sheet)) [])
    ≡ (not (ltb 1 (blank_hours sheet)) && is_none_blocked [])
validate_run-is_savable_example = validate_run-is_savable checked sheet []

abbrev parsed : SeedEmployee
parsed = record {
  staff_id = codes "DCL 9";
  basic_salary = pos 0;
  icu_member = true;
  is_hourly = true;
  rates = table;
  raw_hours = worked;
  bonus = pos 30000;
  other_allowance = pos 0;
  pay_difference = pos 0;
  tax_relief_monthly = pos 10000;
  provident_fund = pos 0;
  loan = pos 0;
  donations = pos 0;
  other_deduction = pos 0;
  welfare = pos 0;
  pf_fund_employer = pos 0;
}

abbrev seed_run : SeedRun
seed_run = record {
  id = 12;
  year = 2026;
  on_date = day_of 2026 6 1;
  paid_runs = [];
  roster = welder ∷ [];
}

abbrev payslips_of : Result SeedError (List (Text × Payslip)) → List (Text × Payslip)
payslips_of (raised e) = []
payslips_of (ok payslips) = payslips

-- The same rates before the evidenced policy.
abbrev rate_before : StatutoryRate
rate_before = record rate_2026 { deductions_policy_version = 0 }

abbrev seeded : List (Text × Payslip)
seeded = payslips_of (compute_seed_month rate_before (some seed_run) (parsed ∷ []))

seeded_ok : compute_seed_month rate_before (some seed_run) (parsed ∷ []) ≡ ok seeded
unfolding compute_seed_month compute_each build_inputs compute_payslip deduction_adjustments
    roster_get strip
seeded_ok = refl

compute_seed_month_lem_example :
    (inputs : PayslipInputs) × AreInputsOf seed_run parsed inputs
    × (slip : Payslip) × (compute_payslip rate_before inputs ≡ ok slip)
    × (get_slip parsed.staff_id seeded ≡ some slip)
compute_seed_month_lem_example =
    compute_seed_month_lem rate_before seed_run [] parsed [] tt seeded_ok
