-- ===== src/Hourly/Tests.antt =====
-- A raw run of one worker, who is on the roster, and a helper who is not.
use pmvp.Prelude.{ℕ, ◌≡◌, refl, none, some, List, [], ◌∷◌}
use pmvp.Prelude.Int.{pos}
use pmvp.Prelude.Result.{ok}
use pmvp.Text.{Text, codes, strip}
use pmvp.Money.{round_half_up}
use pmvp.Deductions.Tests.{june_costed}
use pmvp.Salaried.{calculate}
use pmvp.RawEngine.Rates.{Category}
use pmvp.Hourly.{
  RawPayEntry, RunData, HourlyResult, HourlyPay, gather_entries, settle_hourly, apply_statutory,
  apply_all, calculate_run, used_ytd,
}
use pmvp.Hourly.Agreement.{monthly_inputs_of, SamePayOutcome, apply_statutory-same}
use pmvp.Hourly.Workers.{AllPaid, DistinctKeys, results_of, has_key, has_entry, calculate_run_lem}
use pmvp.Fixtures.{welder, rate_2026, day_of, june_context, june_adjustments}

abbrev raw_run : RunData
raw_run = record {
  id = 12;
  year = 2026;
  paid_runs = [];
  roster = welder ∷ [];
  profiles =
      record {
        employee_id = none;
        pay_code = codes "N";
        hourly_rate = 625000000;
        category = Category.basic;
      }
      ∷ record {
        employee_id = some 4;
        pay_code = codes "OT";
        hourly_rate = 750000000;
        category = Category.overtime;
      }
      ∷ [];
  items =
      record {
        employee_id = some 4;
        staff_id = codes "DCL9";
        pf_fund_employee = pos 5000;
        pf_fund_employer = pos 5000;
      }
      ∷ [];
  on_date = day_of 2026 6 1;
}

abbrev entry_of : Text → ℕ → RawPayEntry
entry_of code hours = record { employee_id_str = codes "dcl 9"; pay_code = code; hours = hours }

abbrev entries : List RawPayEntry
entries = entry_of (codes "N") 16000 ∷ entry_of (codes "OT") 2000 ∷ entry_of (codes "Z") 100 ∷ []

abbrev pub welder_june : HourlyResult
welder_june = record {
  employee_id_str = codes "dcl 9";
  employee_id = some 4;
  tax_relief_monthly = pos 10000;
  lines =
      record {
        pay_code = codes "N";
        category = Category.basic;
        hours = 16000;
        rate = 625000000;
        amount = 100000;
      }
      ∷ record {
        pay_code = codes "OT";
        category = Category.overtime;
        hours = 2000;
        rate = 750000000;
        amount = 15000;
      }
      ∷ [];
  missing_rate_codes = codes "Z" ∷ [];
  basic_wage = 100000;
  overtime_pay = 15000;
  bonus = 0;
  allowances = 0;
  gross_pay = 115000;
  pf_fund_employee = pos 5000;
  pf_fund_employer = pos 5000;
  context = june_context;
}

gathered : gather_entries raw_run entries [] ≡ welder_june ∷ []
unfolding gather_entries round_half_up strip
gathered = refl

abbrev costed : List HourlyPay
costed = settle_hourly rate_2026 (used_ytd raw_run welder_june) welder_june june_adjustments ∷ []

calculated : calculate_run rate_2026 raw_run entries ≡ ok costed
unfolding calculate_run apply_all apply_statutory
calculated = rw (gathered, june_costed) refl

calculate_run_lem_example :
    AllPaid costed
    × DistinctKeys (results_of costed)
    × ((key : Text) → has_key key (results_of costed) ≡ has_entry key entries)
calculate_run_lem_example = calculate_run_lem rate_2026 raw_run entries calculated

apply_statutory-same_example :
    SamePayOutcome
      (apply_statutory rate_2026 raw_run welder_june)
      (calculate rate_2026 (monthly_inputs_of raw_run welder_june))
apply_statutory-same_example = apply_statutory-same rate_2026 raw_run welder_june
