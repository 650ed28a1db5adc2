-- ===== src/Deductions/Policy.antt =====
-- What each block of the deduction policy leaves alone, and the bounds on what it sets.
use pmvp.Prelude.{ℕ, ◌+◌, ◌*◌, ◌≤◌, ◌<◌, ◌≡◌, ◌≢◌, ◌⊎◌, true, if◌then◌else◌, arith}
use pmvp.Prelude.Int.{pos, pos_part}
use pmvp.Prelude.Result.{ok, >>=-returns}
use pmvp.Money.{rate_unit, round_half_up}
use pmvp.Statutory.{Date, StatutoryRate}
use pmvp.Deductions.{
  DeductionContext, DeductionAdjustments, pension_block, provident_fund_block, relief_block,
  overtime_block, evidenced_policy, initial_adjustments, date_or, or_default, documented_scheme,
  amount, deduction_adjustments, valid_award,
}

-- The facts about pension that a costed salary rests on.
pub record PensionFacts (rate : StatutoryRate) (period : Date) (basic : ℕ)
    (r : DeductionAdjustments) : Type 0 where
  pub year_confirmed : period.year ≡ or_default rate.ssnit_limits_year 2026
  pub above_minimum : or_default rate.ssnit_min_insurable 58780 ≤ basic
  pub below_maximum : basic ≤ or_default rate.ssnit_max_insurable 6900000
  pub employee_share : r.ssnit ≡ round_half_up rate_unit (basic * 55000)
  pub employer_share : r.ssf_employer ≡ round_half_up rate_unit (basic * 130000)
  pub tier_1 : r.ssnit_remittance ≡ round_half_up rate_unit (basic * 135000)
  pub tier_2 : r.tier_2_remittance ≡ round_half_up rate_unit (basic * 50000)

pub pension_block-facts :
    (rate : StatutoryRate) (period : Date) (basic : ℕ) (s : DeductionAdjustments)
    {r : DeductionAdjustments}
    → pension_block rate period basic s ≡ ok r
    → 0 < basic
    → PensionFacts rate period basic r
unfolding pension_block
pension_block-facts rate period basic s h p = ground arith

-- What the pension block leaves alone.
pub pension_block-frame :
    (rate : StatutoryRate) (period : Date) (basic : ℕ) (s : DeductionAdjustments)
    {r : DeductionAdjustments}
    → pension_block rate period basic s ≡ ok r
    → (r.pensionable_salary ≡ s.pensionable_salary)
      × (r.pf_allowable_employee ≡ s.pf_allowable_employee)
      × (r.tax_relief_applied ≡ s.tax_relief_applied)
      × (r.overtime_tax ≡ s.overtime_tax)
      × (r.overtime_ordinary_pay ≡ s.overtime_ordinary_pay)
      × (r.pf_employer_taxable ≡ s.pf_employer_taxable)
unfolding pension_block
pension_block-frame rate period basic s h = ground arith

pub provident_fund_block-frame :
    (rate : StatutoryRate) (context : DeductionContext) (basic e er : ℕ) (s : DeductionAdjustments)
    {r : DeductionAdjustments}
    → provident_fund_block rate context basic e er s ≡ ok r
    → (r.pensionable_salary ≡ s.pensionable_salary)
      × (r.ssnit ≡ s.ssnit)
      × (r.ssf_employer ≡ s.ssf_employer)
      × (r.ssnit_remittance ≡ s.ssnit_remittance)
      × (r.tier_2_remittance ≡ s.tier_2_remittance)
      × (r.tax_relief_applied ≡ s.tax_relief_applied)
      × (r.overtime_tax ≡ s.overtime_tax)
      × (r.overtime_ordinary_pay ≡ s.overtime_ordinary_pay)
      × (r.pf_employer_taxable ≡ s.pf_employer_taxable)
unfolding provident_fund_block
provident_fund_block-frame rate context basic e er s h = ground arith

pub relief_block-frame :
    (context : DeductionContext) (period : Date) (requested : ℕ) (s : DeductionAdjustments)
    {r : DeductionAdjustments}
    → relief_block context period requested s ≡ ok r
    → (r.pensionable_salary ≡ s.pensionable_salary)
      × (r.ssnit ≡ s.ssnit)
      × (r.ssf_employer ≡ s.ssf_employer)
      × (r.ssnit_remittance ≡ s.ssnit_remittance)
      × (r.tier_2_remittance ≡ s.tier_2_remittance)
      × (r.pf_allowable_employee ≡ s.pf_allowable_employee)
      × (r.overtime_tax ≡ s.overtime_tax)
      × (r.overtime_ordinary_pay ≡ s.overtime_ordinary_pay)
      × (r.pf_employer_taxable ≡ s.pf_employer_taxable)
unfolding relief_block amount
relief_block-frame context period requested s h = ground arith

pub overtime_block-frame :
    (rate : StatutoryRate) (context : DeductionContext) (period : Date) (basic o : ℕ)
    (s : DeductionAdjustments)
    → let r = overtime_block rate context period basic o s in
      (r.pensionable_salary ≡ s.pensionable_salary)
      × (r.ssnit ≡ s.ssnit)
      × (r.ssf_employer ≡ s.ssf_employer)
      × (r.ssnit_remittance ≡ s.ssnit_remittance)
      × (r.tier_2_remittance ≡ s.tier_2_remittance)
      × (r.pf_allowable_employee ≡ s.pf_allowable_employee)
      × (r.tax_relief_applied ≡ s.tax_relief_applied)
      × (r.pf_employer_taxable ≡ s.pf_employer_taxable)
unfolding overtime_block
overtime_block-frame rate context period basic o s = ground arith

-- The evidence for what counts as an allowable provident fund.
pub record FundFacts (rate : StatutoryRate) (context : DeductionContext) (basic e er : ℕ)
    (r : DeductionAdjustments) : Type 0 where
  pub within_payment : r.pf_allowable_employee ≤ e
  pub within_exemption :
      2 * (rate_unit * (r.pf_allowable_employee + er))
      ≤ 2 * (basic * or_default rate.provident_fund_tax_limit 165000) + rate_unit
  pub needs_scheme : (documented_scheme context ≡ true) ⊎ ((r.pf_allowable_employee ≡ 0) × (er ≡ 0))

pub provident_fund_block-facts :
    (rate : StatutoryRate) (context : DeductionContext) (basic e er : ℕ) (s : DeductionAdjustments)
    {r : DeductionAdjustments}
    → provident_fund_block rate context basic e er s ≡ ok r
    → s.pf_allowable_employee ≡ 0
    → FundFacts rate context basic e er r
unfolding provident_fund_block round_half_up
provident_fund_block-facts rate context basic e er s h z = ground arith

-- What the relief block decides: an award that is valid in the period is applied whole, and
-- nothing else is.
abbrev pub ReliefFacts : DeductionContext → Date → DeductionAdjustments → Type 0
ReliefFacts context period r =
    r.tax_relief_applied
    ≡ (if valid_award context period then pos_part context.approved_relief_monthly else 0)

pub relief_block-facts :
    (context : DeductionContext) (period : Date) (requested : ℕ) (s : DeductionAdjustments)
    {r : DeductionAdjustments}
    → relief_block context period requested s ≡ ok r
    → s.tax_relief_applied ≡ 0
    → ReliefFacts context period r
unfolding relief_block amount
relief_block-facts context period requested s h z = ground arith

-- A successful evidenced run, block by block.
pub record Blocks (rate : StatutoryRate) (basic o e er requested : ℕ) (context : DeductionContext)
    (r : DeductionAdjustments) : Type 0 where
  pub pensioned : DeductionAdjustments
  pub funded : DeductionAdjustments
  pub relieved : DeductionAdjustments
  pub pension_step :
      pension_block rate
        (date_or context.period rate.effective_from)
        basic
        (initial_adjustments basic)
      ≡ ok pensioned
  pub fund_step : provident_fund_block rate context basic e er pensioned ≡ ok funded
  pub relief_step :
      relief_block context (date_or context.period rate.effective_from) requested funded
      ≡ ok relieved
  pub overtime_step :
      r ≡ overtime_block rate context (date_or context.period rate.effective_from) basic o relieved

evidenced_policy-Blocks :
    (rate : StatutoryRate) (basic o e er requested : ℕ) (context : DeductionContext)
    {r : DeductionAdjustments}
    → evidenced_policy rate basic o e er requested context ≡ ok r
    → Blocks rate basic o e er requested context r
unfolding evidenced_policy
evidenced_policy-Blocks rate basic o e er requested context h =
    let period = date_or context.period rate.effective_from in
    let (s, hs, h1) =
      >>=-returns (pension_block rate period basic (initial_adjustments basic)) _ h in
    let (t, ht, h2) = >>=-returns (provident_fund_block rate context basic e er s) _ h1 in
    let (u, hu, h3) = >>=-returns (relief_block context period requested t) _ h2 in
    record {
      pensioned = s;
      funded = t;
      relieved = u;
      pension_step = hs;
      fund_step = ht;
      relief_step = hu;
      overtime_step = ground arith;
    }

-- A salary that the evidenced policy costs: the calls of `_amount` have passed.
pub deduction_adjustments-Blocks :
    (rate : StatutoryRate) (basic o e er requested : ℕ) (context : DeductionContext)
    {r : DeductionAdjustments}
    → rate.deductions_policy_version ≢ 0
    → deduction_adjustments rate (pos basic) (pos o) (pos e) (pos er) (pos requested) context ≡ ok r
    → Blocks rate basic o e er requested context r
unfolding deduction_adjustments
deduction_adjustments-Blocks rate basic o e er requested context v h =
    evidenced_policy-Blocks rate basic o e er requested context (ground arith)

pub pension_block-ssnit :
    (rate : StatutoryRate) (period : Date) (basic : ℕ) (s : DeductionAdjustments)
    {r : DeductionAdjustments}
    → pension_block rate period basic s ≡ ok r
    → s.ssnit ≡ 0
    → r.ssnit ≡ round_half_up rate_unit (basic * rate.ssf_employee_rate)
unfolding pension_block round_half_up
pension_block-ssnit rate period basic s h z = ground arith
