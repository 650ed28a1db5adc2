-- ===== src/Calculation.antt =====
-- The route `calculate` of app/payroll.py, with `recalculate_salaried_items`: Calculate Pay on one
-- run. The figures of the items are stored only by a commit, so a path without one leaves the run as
-- it was. The test of the role is that of Lifecycle; the names, bank columns and warnings that go with
-- the figures of an item are left out.
pub mod Route
mod Tests
use pmvp.Prelude.{
  ℕ, ◌+◌, Bool, true, false, Option, none, some, List, [], ◌∷◌, ◌++◌, length, if◌then◌else◌,
}
use pmvp.Prelude.Int.{ℤ, pos, ◌+ℤ◌}
use pmvp.Prelude.Result.{Result, ok, raised}
use pmvp.Text.{Text}
use pmvp.Statutory.{StatutoryRate}
use pmvp.Status.{RunStatus, is_pending}
use pmvp.Deductions.{PolicyError}
use pmvp.Salaried.{
  PeriodInputs, SalariedResult, Problem, RunTotals, calculate_items, verify_statutory_invariants,
  refresh_run_totals,
}
use pmvp.Yearly.{RatedRun, PeriodError, statutory_rate_for_run}
use pmvp.Hourly.{RawPayEntry, RunData, HourlyPay, calculate_run}

-- The stored figures of a run's items.
pub data Figures : Type 0 where
  salaried_items : List SalariedResult → Figures
  hourly_items : List HourlyPay → Figures

-- A run, with what the route reads: the columns of the salaried items as `_calculate_item` passes
-- them on, the imported hours, and the data of the hourly calculator (for the same period).
pub record PayRun : Type 0 where
  pub rated : RatedRun
  pub is_raw : Bool
  pub inputs : List PeriodInputs
  pub entries : List RawPayEntry
  pub hourly : RunData
  pub figures : Figures
  pub totals : RunTotals

-- The messages of the route; the missing codes are in the order of the workers.
pub data CalculateReply : Type 0 where
  not_pending already_computed : CalculateReply
  without_rate : PeriodError → CalculateReply
  blocked : PolicyError → CalculateReply
  missing_rates : List Text → CalculateReply
  violation : List Problem → CalculateReply
  calculated : ℕ → CalculateReply

abbrev pub all_missing : List HourlyPay → List Text
all_missing [] = []
all_missing (h ∷ pays) = h.result.missing_rate_codes ++ all_missing pays

-- `refresh_run_totals` on the items of a raw run
unfoldable pub refresh_hourly_totals : List HourlyPay → RunTotals
refresh_hourly_totals [] = record {
  total_gross_pay = pos 0;
  total_deductions = pos 0;
  total_net_pay = pos 0;
  total_paye = 0;
  total_ssnit = 0;
  total_ssnit_employer = 0;
  total_workers = 0;
}
refresh_hourly_totals (h ∷ pays) =
    let rest = refresh_hourly_totals pays in
    record {
      total_gross_pay = pos h.result.gross_pay +ℤ rest.total_gross_pay;
      total_deductions = h.total_deductions +ℤ rest.total_deductions;
      total_net_pay = h.net_pay +ℤ rest.total_net_pay;
      total_paye = h.paye + rest.total_paye;
      total_ssnit = h.ssnit + rest.total_ssnit;
      total_ssnit_employer = h.ssf_employer + rest.total_ssnit_employer;
      total_workers = rest.total_workers + 1;
    }

abbrev pub store_hourly : RatedRun → List HourlyPay → List Text → PayRun → CalculateReply × PayRun
store_hourly stamped pays [] run = (
  calculated (length pays),
  record run { rated = stamped; figures = hourly_items pays; totals = refresh_hourly_totals pays },
)
store_hourly stamped pays (code ∷ codes) run = (missing_rates (code ∷ codes), run)

abbrev pub after_hourly :
    RatedRun → Result PolicyError (List HourlyPay) → PayRun → CalculateReply × PayRun
after_hourly stamped (raised e) run = (blocked e, run)
after_hourly stamped (ok pays) run = store_hourly stamped pays (all_missing pays) run

-- A raw run whose pay was stored when it was confirmed has no imported hours.
unfoldable pub calculate_raw :
    StatutoryRate → RatedRun → List RawPayEntry → PayRun → CalculateReply × PayRun
calculate_raw rate stamped [] run = (already_computed, run)
calculate_raw rate stamped (entry ∷ entries) run =
    after_hourly stamped (calculate_run rate run.hourly (entry ∷ entries)) run

abbrev pub store_salaried :
    RatedRun → List SalariedResult → List Problem → PayRun → CalculateReply × PayRun
store_salaried stamped results [] run = (
  calculated (length run.inputs),
  record run {
    rated = stamped;
    figures = salaried_items results;
    totals = refresh_run_totals results;
  },
)
store_salaried stamped results (problem ∷ problems) run = (violation (problem ∷ problems), run)

abbrev pub after_salaried :
    StatutoryRate
    → RatedRun
    → Result PolicyError (List SalariedResult)
    → PayRun
    → CalculateReply × PayRun
after_salaried rate stamped (raised e) run = (blocked e, run)
after_salaried rate stamped (ok results) run =
    store_salaried stamped results (verify_statutory_invariants rate results) run

abbrev pub calculate_with :
    Result PeriodError (StatutoryRate × RatedRun) → PayRun → CalculateReply × PayRun
calculate_with (raised e) run = (without_rate e, run)
calculate_with (ok (rate, stamped)) run =
    if run.is_raw
    then calculate_raw rate stamped run.entries run
    else after_salaried rate stamped (calculate_items rate run.inputs) run

abbrev pub has_pending_status : Option RunStatus → Bool
has_pending_status none = false
has_pending_status (some s) = is_pending s

-- `calculate`
unfoldable pub calculate_pay : List StatutoryRate → PayRun → CalculateReply × PayRun
unfolding statutory_rate_for_run calculate_raw
calculate_pay rates run =
    if has_pending_status run.rated.status
    then calculate_with (statutory_rate_for_run rates run.rated) run
    else (not_pending, run)
