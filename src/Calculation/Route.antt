-- ===== src/Calculation/Route.antt =====
-- What Calculate Pay leaves of a run (the route `calculate` of app/payroll.py).
use pmvp.Prelude.{◌⊎◌, ℕ, ◌≡◌, true, false, List, [], ◌∷◌}
use pmvp.Prelude.Int.{ℤ, pos, ◌+ℤ◌}
use pmvp.Prelude.Result.{Result, ok, raised}
use pmvp.Text.{Text}
use pmvp.Statutory.{StatutoryRate}
use pmvp.Deductions.{PolicyError}
use pmvp.Salaried.{SalariedResult, calculate_items, verify_statutory_invariants}
use pmvp.Salaried.Totals.{total_advances}
use pmvp.Yearly.{RatedRun, statutory_rate_for_run}
use pmvp.Hourly.{HourlyPay, calculate_run}
use pmvp.Calculation.{
  Figures, salaried_items, hourly_items, PayRun, CalculateReply, not_pending, already_computed,
  without_rate, blocked, missing_rates, violation, calculated, all_missing, has_pending_status,
}

-- The cash advances among the stored figures.
abbrev pub advances_of : Figures → ℤ
advances_of (salaried_items results) = total_advances results
advances_of (hourly_items pays) = pos 0

-- Totals that balance for a number of workers.
abbrev pub Balances : ℕ → PayRun → Type 0
Balances workers run =
    (run.totals.total_net_pay +ℤ run.totals.total_deductions
      ≡ run.totals.total_gross_pay +ℤ advances_of run.figures)
    × (run.totals.total_workers ≡ workers)

-- The calculator that the run asks for raises `e`.
abbrev pub IsBlocked : StatutoryRate → PayRun → PolicyError → Type 0
IsBlocked rate run e =
    (run.is_raw ≡ true) × (calculate_run rate run.hourly run.entries ≡ raised e)
    ⊎ (run.is_raw ≡ false) × (calculate_items rate run.inputs ≡ raised e)

-- The figures of every item, as the calculator that the run asks for gives them, and checked.
abbrev pub Stores : StatutoryRate → PayRun → PayRun → Type 0
Stores rate run after =
    ((run.is_raw ≡ true)
      × (pays : List HourlyPay) × (calculate_run rate run.hourly run.entries ≡ ok pays)
      × (all_missing pays ≡ [])
      × (after.figures ≡ hourly_items pays))
    ⊎ ((run.is_raw ≡ false)
        × (results : List SalariedResult) × (calculate_items rate run.inputs ≡ ok results)
        × (verify_statutory_invariants rate results ≡ [])
        × (after.figures ≡ salaried_items results))

-- The rate in force for the run.
abbrev pub IsInForce : List StatutoryRate → PayRun → StatutoryRate → Type 0
IsInForce rates run rate =
    (stamped : RatedRun) × (statutory_rate_for_run rates run.rated ≡ ok (rate, stamped))

-- What a reply says of the run before and after.
abbrev pub Leaves : List StatutoryRate → PayRun → CalculateReply → PayRun → Type 0
Leaves rates run (calculated workers) after =
    (rate : StatutoryRate) × (statutory_rate_for_run rates run.rated ≡ ok (rate, after.rated))
    × Stores rate run after
    × Balances workers after
Leaves rates run not_pending after = (has_pending_status run.rated.status ≡ false) × (after ≡ run)
Leaves rates run already_computed after = (run.is_raw ≡ true) × (run.entries ≡ []) × (after ≡ run)
Leaves rates run (without_rate e) after =
    (statutory_rate_for_run rates run.rated ≡ raised e) × (after ≡ run)
Leaves rates run (blocked e) after =
    (rate : StatutoryRate) × IsInForce rates run rate × IsBlocked rate run e × (after ≡ run)
Leaves rates run (missing_rates []) after = ⊥
Leaves rates run (missing_rates (code ∷ codes)) after =
    (rate : StatutoryRate) × IsInForce rates run rate
    × (run.is_raw ≡ true)
    × (pays : List HourlyPay) × (calculate_run rate run.hourly run.entries ≡ ok pays)
    × (all_missing pays ≡ code ∷ codes)
    × (after ≡ run)
Leaves rates run (violation []) after = ⊥
Leaves rates run (violation (problem ∷ problems)) after =
    (rate : StatutoryRate) × IsInForce rates run rate
    × (run.is_raw ≡ false)
    × (results : List SalariedResult) × (calculate_items rate run.inputs ≡ ok results)
    × (verify_statutory_invariants rate results ≡ problem ∷ problems)
    × (after ≡ run)
