-- ===== src/RawEngine/Union.antt =====
-- app/raw_engine/icu_distribution.py: the shares of the union dues of a run. The source multiplies
-- floats before it rounds, where a product on the half pesewa can fall below it; here the product is
-- exact, so one share may differ by a pesewa. The remainders are taken from what is stored.
use pmvp.Prelude.{ℕ, ◌+◌, ◌*◌, ◌≤◌, ◌≡◌, arith}
use pmvp.Prelude.Int.{ℤ, pos, ◌+ℤ◌, ◌-ℤ◌, int_laws, ◌≤ℤ◌, pos_part, neg_part}
use pmvp.Money.{round_half_up}

pub record UnionDistribution : Type 0 where
  pub total : ℕ
  pub union : ℕ
  pub edfund : ℤ
  pub icu_accra : ℕ
  pub local : ℕ
  pub icu_tema : ℤ
  pub icu_edac : ℕ
  pub dcl_eef : ℤ

-- The shares, in hundredths.
abbrev union_share : ℕ
union_share = 50

abbrev union_icu_accra : ℕ
union_icu_accra = 75

abbrev union_local : ℕ
union_local = 20

abbrev edfund_icu_edac : ℕ
edfund_icu_edac = 80

abbrev share_of : ℕ → ℕ → ℕ
share_of amount share = round_half_up 100 (amount * share)

unfoldable pub distribute_union_dues : ℕ → UnionDistribution
distribute_union_dues total =
    let union = share_of total union_share in
    let edfund = pos total -ℤ pos union in
    let icu_accra = share_of union union_icu_accra in
    let local = share_of union union_local in
    let icu_edac = share_of (pos_part edfund) edfund_icu_edac in
    record {
      total = total;
      union = union;
      edfund = edfund;
      icu_accra = icu_accra;
      local = local;
      icu_tema = pos union -ℤ pos icu_accra -ℤ pos local;
      icu_edac = icu_edac;
      dcl_eef = edfund -ℤ pos icu_edac;
    }

-- `total_payout`
unfoldable pub total_payout : UnionDistribution → ℤ
total_payout d = pos d.icu_accra +ℤ pos d.local +ℤ d.icu_tema +ℤ pos d.icu_edac +ℤ d.dcl_eef

-- Three quarters and a fifth, each rounded, are never more than the whole.
shares_fit : (u : ℕ) → share_of u union_icu_accra + share_of u union_local ≤ u
unfolding round_half_up
shares_fit u = ground arith

half_fits : (u : ℕ) → share_of u union_share ≤ u
unfolding round_half_up
half_fits u = ground arith

most_fits : (u : ℕ) → share_of u edfund_icu_edac ≤ u
unfolding round_half_up
most_fits u = ground arith

-- A remainder that is not negative.
remainder : (a b : ℕ) → b ≤ a → neg_part (pos a -ℤ pos b) ≡ 0
unfolding ◌-ℤ◌
remainder a b h = ground arith

-- The five payouts of the union cascade add up to the dues that were collected, to the pesewa, and
-- the three that take a rounding remainder are not negative.
pub distribute_union_dues-ties :
    (total : ℕ)
    → let d = distribute_union_dues total in
      (total_payout d ≡ pos total)
      × (pos 0 ≤ℤ d.edfund)
      × (pos 0 ≤ℤ d.icu_tema)
      × (pos 0 ≤ℤ d.dcl_eef)
unfolding distribute_union_dues total_payout
distribute_union_dues-ties total =
    let u = share_of total union_share in
    let e = pos total -ℤ pos u in
    let p = half_fits total in
    let positive = remainder total u p in
    let q = shares_fit u in
    let r = most_fits (pos_part e) in
    (omega int_laws, omega int_laws, omega int_laws, omega int_laws)
