-- ===== src/Salaried/Tests.antt =====
-- The salaried theorems on one worker's June 2026.
use pmvp.Prelude.{◌≡◌, ◌≢◌, refl, arith, [], ◌∷◌, length}
use pmvp.Prelude.Int.{pos, pos_part, ◌+ℤ◌}
use pmvp.Prelude.Result.{ok}
use pmvp.Deductions.Tests.{june_costed}
use pmvp.Salaried.{
  settle_pay, calculate, calculate_items, verify_statutory_invariants, refresh_run_totals,
}
use pmvp.Salaried.Invariants.{HasPlainDeductions, calculate_items-verified}
use pmvp.Salaried.Totals.{chargeable, calculate-reconciles, total_advances, calculate_items-totals}
use pmvp.Fixtures.{rate_2026, june_inputs, june_adjustments}

june_plain : HasPlainDeductions june_inputs
june_plain = record {
  loan = omega arith;
  welfare = omega arith;
  iou = omega arith;
  other = omega arith;
}

june_result :
    calculate rate_2026 june_inputs ≡ ok (settle_pay rate_2026 june_inputs june_adjustments)
unfolding calculate
june_result = rw june_costed refl

june_items :
    calculate_items rate_2026 (june_inputs ∷ [])
    ≡ ok (settle_pay rate_2026 june_inputs june_adjustments ∷ [])
unfolding calculate_items
june_items = rw june_result refl

june_strict : rate_2026.deductions_policy_version ≢ 0
june_strict = λ e. ground arith

calculate_items-verified_example :
    (length (settle_pay rate_2026 june_inputs june_adjustments ∷ []) ≡ length (june_inputs ∷ []))
    × (verify_statutory_invariants rate_2026
          (settle_pay rate_2026 june_inputs june_adjustments ∷ [])
        ≡ [])
calculate_items-verified_example =
    calculate_items-verified rate_2026 (june_inputs ∷ []) (june_plain, tt) june_items

calculate-reconciles_example :
    let r = settle_pay rate_2026 june_inputs june_adjustments in
    r.taxable_income +ℤ pos r.tax_relief_applied ≡ pos (pos_part (chargeable r))
calculate-reconciles_example = calculate-reconciles rate_2026 june_inputs june_strict june_result

calculate_items-totals_example :
    let rs = settle_pay rate_2026 june_inputs june_adjustments ∷ [] in
    let t = refresh_run_totals rs in
    (t.total_net_pay +ℤ t.total_deductions ≡ t.total_gross_pay +ℤ total_advances rs)
    × (t.total_workers ≡ 1)
calculate_items-totals_example = calculate_items-totals rate_2026 (june_inputs ∷ []) june_items
