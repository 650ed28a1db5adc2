-- ===== src/Statutory/Overtime.antt =====
-- `compute_overtime_tax` of app/models.py against its two rates and the overtime.
use pmvp.Prelude.{ℕ, ◌+◌, ◌-◌, ◌*◌, ◌≤◌, ◌≡◌, ap, min, arith}
use pmvp.Money.{rate_unit, round_half_up}
use pmvp.Statutory.{StatutoryRate, compute_overtime_tax}

round_double_mono :
    (m n : ℕ)
    → m ≤ n
    → round_half_up (rate_unit * rate_unit) m ≤ round_half_up (rate_unit * rate_unit) n
unfolding round_half_up
round_double_mono m n h = omega arith

-- The tax before rounding: pay up to the cap at the low rate, the rest at the high rate.
abbrev blended : ℕ → ℕ → ℕ → ℕ → ℕ
blended low high cap pay = min pay cap * low + (pay - cap) * high

mul_mono : (a b c : ℕ) → a ≤ b → a * c ≤ b * c
mul_mono a b c h = grind arith

mul-mono_right : (a b c : ℕ) → b ≤ c → a * b ≤ a * c
mul-mono_right a b c h = grind arith

split-at : (cap pay : ℕ) → min pay cap + (pay - cap) ≡ pay
split-at cap pay = omega arith

blended-bounds :
    (low high cap pay : ℕ)
    → low ≤ high
    → (pay * low ≤ blended low high cap pay) × (blended low high cap pay ≤ pay * high)
blended-bounds low high cap pay h =
    let at_low = ap (λ (t : ℕ). t * low) (split-at cap pay) in
    let at_high = ap (λ (t : ℕ). t * high) (split-at cap pay) in
    let rest = mul-mono_right (pay - cap) low high h in
    let first = mul-mono_right (min pay cap) low high h in (omega arith, omega arith)

blended_mono : (low high cap s t : ℕ) → s ≤ t → blended low high cap s ≤ blended low high cap t
blended_mono low high cap s t h =
    let first = mul_mono (min s cap) (min t cap) low (omega arith) in
    let rest = mul_mono (s - cap) (t - cap) high (omega arith) in omega arith

-- More overtime on the same basic salary never lowers the concessionary tax.
compute_overtime_tax_mono :
    (rate : StatutoryRate) (s t basic : ℕ)
    → s ≤ t
    → compute_overtime_tax rate s basic ≤ compute_overtime_tax rate t basic
unfolding compute_overtime_tax
compute_overtime_tax_mono rate s t basic h =
    let cap = basic * rate.overtime_basic_threshold in
    let low = rate.overtime_rate_low in
    let high = rate.overtime_rate_high in
    ground (
      arith,
      round_double_mono (blended low high cap (s * rate_unit))
          (blended low high cap (t * rate_unit)),
      blended_mono low high cap (s * rate_unit) (t * rate_unit) (omega arith),
    )

-- When the low rate is at most the high rate, the concessionary tax lies between the whole
-- overtime at the low rate and the whole overtime at the high rate, each rounded once.
pub compute_overtime_tax-bounds :
    (rate : StatutoryRate) (pay basic : ℕ)
    → rate.overtime_rate_low ≤ rate.overtime_rate_high
    → (round_half_up rate_unit (pay * rate.overtime_rate_low) ≤ compute_overtime_tax rate pay basic)
      × (compute_overtime_tax rate pay basic
          ≤ round_half_up rate_unit (pay * rate.overtime_rate_high))
unfolding compute_overtime_tax round_half_up
compute_overtime_tax-bounds rate pay basic h =
    let bounds =
      blended-bounds rate.overtime_rate_low rate.overtime_rate_high
        (basic * rate.overtime_basic_threshold) (pay * rate_unit) h in
    ground arith
