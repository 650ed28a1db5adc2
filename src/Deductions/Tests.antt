-- ===== src/Deductions/Tests.antt =====
-- The evidenced policy on a junior's month in June 2026.
use pmvp.Prelude.{◌≡◌, ◌≢◌, ◌≤◌, ◌+◌, ◌⊎◌, refl, arith, false, none, some, [], ◌∷◌}
use pmvp.Prelude.Int.{pos}
use pmvp.Prelude.Result.{ok}
use pmvp.Money.{round_half_up}
use pmvp.Text.{strip, codes}
use pmvp.Statutory.{compute_overtime_tax}
use pmvp.Deductions.{
  empty_context, deduction_adjustments, amount, evidenced_policy, pension_block, pension_checks,
  pension_amounts, documented_fund, provident_fund_block, relief_block, overtime_block,
}
use pmvp.Deductions.Policy.{PensionFacts, FundFacts, ReliefFacts}
use pmvp.Deductions.Overtime.{OvertimeFacts}
use pmvp.Deductions.Evidence.{
  evidenced_pension, evidenced_allowances, evidenced_overtime, policy_period,
}
use pmvp.Deductions.Roster.{
  Award, RosterEmployee, NoneValid, IsLatest, relief_of, context_for_employee,
  context_for_employee-IsLatest,
}
use pmvp.Fixtures.{day_of, rate_2026, june_context, june_adjustments}

pub june_costed :
    deduction_adjustments rate_2026
      (pos 100000)
      (pos 15000)
      (pos 5000)
      (pos 5000)
      (pos 10000)
      june_context
    ≡ ok june_adjustments
unfolding deduction_adjustments amount evidenced_policy pension_block pension_checks pension_amounts
    documented_fund provident_fund_block relief_block overtime_block compute_overtime_tax
    round_half_up strip
june_costed = refl

june_strict : rate_2026.deductions_policy_version ≢ 0
june_strict = λ e. ground arith

evidenced_pension_example :
    PensionFacts rate_2026 (policy_period rate_2026 june_context) 100000 june_adjustments
    × (june_adjustments.pensionable_salary ≡ 100000)
    × (5500 + 13000 ≤ 13500 + 5000 + 1)
    × (13500 + 5000 ≤ 5500 + 13000 + 1)
evidenced_pension_example =
    evidenced_pension rate_2026 100000 15000 5000 5000 10000 june_context june_strict june_costed
      (omega arith)

evidenced_allowances_example :
    FundFacts rate_2026 june_context 100000 5000 5000 june_adjustments
    × ReliefFacts june_context (policy_period rate_2026 june_context) june_adjustments
evidenced_allowances_example =
    evidenced_allowances rate_2026 100000 15000 5000 5000 10000 june_context june_strict june_costed

evidenced_overtime_example :
    OvertimeFacts rate_2026 june_context
      (policy_period rate_2026 june_context)
      100000
      15000
      june_adjustments
evidenced_overtime_example =
    evidenced_overtime rate_2026 100000 15000 5000 5000 10000 june_context june_strict june_costed

abbrev awarded : RosterEmployee
awarded = record {
  id = 4;
  staff_id = codes "DCL9";
  overtime_is_junior = none;
  overtime_qualifying_annual_income = none;
  overtime_income_year = none;
  pf_scheme_approved = false;
  pf_scheme_reference = [];
  tax_relief_approval_ref = [];
  tax_relief_valid_from = none;
  tax_relief_valid_to = none;
  tax_relief_monthly = pos 10000;
  tax_relief_approvals =
      record {
        id = 1;
        reference = codes "R1";
        valid_from = day_of 2026 1 1;
        valid_to = day_of 2026 12 31;
        monthly_amount = pos 10000;
      }
      ∷ record {
        id = 2;
        reference = codes "R2";
        valid_from = day_of 2026 3 1;
        valid_to = day_of 2026 12 31;
        monthly_amount = pos 0;
      }
      ∷ [];
}

context_for_employee-IsLatest_example :
    (NoneValid (day_of 2026 6 1) awarded.tax_relief_approvals
      × (relief_of (context_for_employee (some awarded) (day_of 2026 6 1))
          ≡ relief_of empty_context))
    ⊎ ((a : Award) × IsLatest (day_of 2026 6 1) awarded.tax_relief_approvals (some a)
        × (relief_of (context_for_employee (some awarded) (day_of 2026 6 1))
            ≡ (a.reference, some a.valid_from, some a.valid_to, a.monthly_amount)))
context_for_employee-IsLatest_example =
    context_for_employee-IsLatest awarded (day_of 2026 6 1) (λ e. ground arith)
