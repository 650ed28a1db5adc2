-- ===== src/Deductions/Evidence.antt =====
-- The evidenced policy of app/payroll_calculations/deductions.py as a whole.
use pmvp.Prelude.{ℕ, ◌+◌, ◌*◌, ◌≤◌, ◌<◌, ◌≡◌, refl, ◌≢◌, arith}
use pmvp.Prelude.Int.{ℤ, pos, pos_part, ◌≤ℤ◌}
use pmvp.Prelude.Result.{ok}
use native.Mathlib.Decide.{ℕ_discrete}
use pmvp.Money.{rate_unit, round_half_up}
use pmvp.Statutory.{Date, StatutoryRate}
use pmvp.Deductions.{
  DeductionContext, DeductionAdjustments, initial_adjustments, date_or, deduction_adjustments,
}
use pmvp.Deductions.Policy.{
  Blocks, PensionFacts, FundFacts, ReliefFacts, pension_block-facts, pension_block-ssnit,
  pension_block-frame, provident_fund_block-facts, provident_fund_block-frame, relief_block-facts,
  relief_block-frame, overtime_block-frame, deduction_adjustments-Blocks,
}
use pmvp.Deductions.Overtime.{OvertimeFacts, overtime_block-facts}

-- A costed salary has whole, non-negative amounts.
deduction_adjustments-pos :
    (rate : StatutoryRate) (basic over fund employer relief : ℤ) (context : DeductionContext)
    {r : DeductionAdjustments}
    → deduction_adjustments rate basic over fund employer relief context ≡ ok r
    → deduction_adjustments rate
        (pos (pos_part basic))
        (pos (pos_part over))
        (pos (pos_part fund))
        (pos (pos_part employer))
        (pos (pos_part relief))
        context
      ≡ ok r
unfolding deduction_adjustments
deduction_adjustments-pos rate (pos b) (pos o) (pos f) (pos e) (pos r) context h = h
deduction_adjustments-pos rate _ _ _ _ _ context h = ground arith

-- The date that the policy checks the evidence against.
abbrev pub policy_period : StatutoryRate → DeductionContext → Date
policy_period rate context = date_or context.period rate.effective_from

-- Both policies cost nothing with a negative amount in it.
pub deduction_adjustments-nonneg :
    (rate : StatutoryRate) (basic over fund employer relief : ℤ) (context : DeductionContext)
    {r : DeductionAdjustments}
    → deduction_adjustments rate basic over fund employer relief context ≡ ok r
    → (pos 0 ≤ℤ basic) × (pos 0 ≤ℤ over) × (pos 0 ≤ℤ fund) × (pos 0 ≤ℤ employer) × (pos 0 ≤ℤ relief)
unfolding deduction_adjustments
deduction_adjustments-nonneg rate basic over fund employer relief context h = ground arith

module _ (rate : StatutoryRate) (basic o e er requested : ℕ) (context : DeductionContext)
    {r : DeductionAdjustments} (strict : rate.deductions_policy_version ≢ 0)
    (costed : deduction_adjustments rate
        (pos basic)
        (pos o)
        (pos e)
        (pos er)
        (pos requested)
        context
      ≡ ok r) where
  blocks : Blocks rate basic o e er requested context r
  blocks = deduction_adjustments-Blocks rate basic o e er requested context strict costed

  -- Where the evidenced policy costs an item: a positive basic salary lies in the confirmed year's SSNIT
  -- range, bears the four rounded shares of 5.5, 13, 13.5 and 5 percent, is pensionable whole, and
  -- its contributions and remittances differ in total by at most one pesewa.
  pub evidenced_pension :
      0 < basic
      → PensionFacts rate (policy_period rate context) basic r
        × (r.pensionable_salary ≡ basic)
        × (r.ssnit + r.ssf_employer ≤ r.ssnit_remittance + r.tier_2_remittance + 1)
        × (r.ssnit_remittance + r.tier_2_remittance ≤ r.ssnit + r.ssf_employer + 1)
  evidenced_pension p =
      unfold round_half_up in
      ground (
        arith,
        blocks,
        pension_block-facts rate (policy_period rate context) basic (initial_adjustments basic)
            blocks.pension_step p,
        pension_block-frame rate (policy_period rate context) basic (initial_adjustments basic)
            blocks.pension_step,
        provident_fund_block-frame rate context basic e er blocks.pensioned blocks.fund_step,
        relief_block-frame context (policy_period rate context) requested blocks.funded
            blocks.relief_step,
        overtime_block-frame rate context (policy_period rate context) basic o blocks.relieved,
      )

  -- Where the evidenced policy costs an item: the allowable provident fund is at most the payment, fits with the employer's part in the
  -- exemption (to half a pesewa), and needs a documented scheme; relief is a valid award, whole.
  pub evidenced_allowances :
      FundFacts rate context basic e er r × ReliefFacts context (policy_period rate context) r
  evidenced_allowances = ground (
    arith,
    blocks,
    pension_block-frame rate (policy_period rate context) basic (initial_adjustments basic)
        blocks.pension_step,
    provident_fund_block-facts rate context basic e er blocks.pensioned blocks.fund_step,
    provident_fund_block-frame rate context basic e er blocks.pensioned blocks.fund_step,
    relief_block-facts context (policy_period rate context) requested blocks.funded
        blocks.relief_step,
    relief_block-frame context (policy_period rate context) requested blocks.funded
        blocks.relief_step,
    overtime_block-frame rate context (policy_period rate context) basic o blocks.relieved,
  )

  -- Where the evidenced policy costs an item: overtime is taxed once, at the concessionary rates alone where the evidence qualifies it, and
  -- as ordinary pay alone where it does not.
  pub evidenced_overtime : OvertimeFacts rate context (policy_period rate context) basic o r
  evidenced_overtime =
      let period = policy_period rate context in
      let framed =
        pension_block-frame rate period basic (initial_adjustments basic) blocks.pension_step in
      let funded =
        provident_fund_block-frame rate context basic e er blocks.pensioned blocks.fund_step in
      let relieved = relief_block-frame context period requested blocks.funded blocks.relief_step in
      rw blocks.overtime_step (
        overtime_block-facts rate context period basic o blocks.relieved (ground arith)
          (ground arith))

  evidenced_ssnit :
      (r.ssnit ≡ round_half_up rate_unit (basic * rate.ssf_employee_rate))
      × (r.pensionable_salary ≡ basic)
  evidenced_ssnit =
      let period = policy_period rate context in
      let framed =
        pension_block-frame rate period basic (initial_adjustments basic) blocks.pension_step in
      let ssnit =
        pension_block-ssnit rate period basic (initial_adjustments basic) blocks.pension_step
          refl in
      let funded =
        provident_fund_block-frame rate context basic e er blocks.pensioned blocks.fund_step in
      let relieved = relief_block-frame context period requested blocks.funded blocks.relief_step in
      let timed = overtime_block-frame rate context period basic o blocks.relieved in ground arith

historical_ssnit :
    (rate : StatutoryRate) (basic o e er requested : ℕ) (context : DeductionContext)
    {r : DeductionAdjustments}
    → rate.deductions_policy_version ≡ 0
    → deduction_adjustments rate (pos basic) (pos o) (pos e) (pos er) (pos requested) context ≡ ok r
    → (r.ssnit ≡ round_half_up rate_unit (basic * rate.ssf_employee_rate))
      × (r.pensionable_salary ≡ basic)
unfolding deduction_adjustments
historical_ssnit rate basic o e er requested context v h = ground arith

-- Under either policy the employee's contribution is the rate's share of the pensionable salary,
-- which is the basic salary.
pub deduction_adjustments-ssnit :
    (rate : StatutoryRate) (basic over fund employer relief : ℤ) (context : DeductionContext)
    {r : DeductionAdjustments}
    → deduction_adjustments rate basic over fund employer relief context ≡ ok r
    → (r.ssnit ≡ round_half_up rate_unit (pos_part basic * rate.ssf_employee_rate))
      × (r.pensionable_salary ≡ pos_part basic)
deduction_adjustments-ssnit rate basic over fund employer relief context h =
    let h' = deduction_adjustments-pos rate basic over fund employer relief context h in
    elim (ℕ_discrete rate.deductions_policy_version 0) [
      | yes v ↦
          historical_ssnit rate (pos_part basic) (pos_part over) (pos_part fund) (pos_part employer)
            (pos_part relief) context v h'
      | no v ↦
          evidenced_ssnit rate (pos_part basic) (pos_part over) (pos_part fund) (pos_part employer)
            (pos_part relief) context v h'
    ]
