-- ===== src/Links/Codes.antt =====
-- What a minted short code opens, and for how long: `mint_payslip_link` and `resolve_payslip_link` of
-- app/distribution/links.py.
use mathlib.Core.Option
use pmvp.Prelude.{
  ℕ, suc, ◌+◌, ◌*◌, ◌≡◌, refl, ap, ◌∙◌, inl, inr, true, false, ◌&&◌, ==-refl, ltb, leb, Option,
  none, some, List, [], ◌∷◌, ◌++◌, map, if◌then◌else◌, arith, Bool-cases, Option-cases,
}
use pmvp.Text.{Text, text_eq, text_eq_refl}
use pmvp.Links.{
  Item, PayslipLink, is_code, find_item, find_link, is_live, is_for, revoke_row, supersede,
  seconds_per_day, new_link, open_link, mint_payslip_link, resolve_payslip_link,
}

-- A change of a row that keeps its hash.
abbrev pub KeepsHash : (PayslipLink → PayslipLink) → Type 0
KeepsHash f = (l : PayslipLink) → (f l).code_hash ≡ l.code_hash

find_link-map :
    (digest : Text) (f : PayslipLink → PayslipLink) (links : List PayslipLink)
    → KeepsHash f
    → find_link digest (map f links) ≡ Option.map f (find_link digest links)
unfolding find_link
find_link-map digest f [] k = refl
find_link-map digest f (l ∷ links) k =
    let same = ap (λ (h : Text). text_eq h digest) (k l) in
    elim (Bool-cases (text_eq l.code_hash digest)) [
      | inl e ↦ rw (same ∙ e, e) refl
      | inr e ↦ rw (same ∙ e, e) (find_link-map digest f links k)
    ]

revoke_row-KeepsHash : (delivery now : ℕ) → KeepsHash (revoke_row delivery now)
revoke_row-KeepsHash delivery now l = ground arith

-- The rows that a mint leaves, before its own.
abbrev pub superseded_row : Option ℕ → ℕ → PayslipLink → PayslipLink
superseded_row none now l = l
superseded_row (some delivery) now l = revoke_row delivery now l

pub find_link-supersede :
    (digest : Text) (delivery : Option ℕ) (now : ℕ) (links : List PayslipLink)
    → find_link digest (supersede delivery now links)
      ≡ Option.map (superseded_row delivery now) (find_link digest links)
find_link-supersede digest none now links = elim (Option-cases (find_link digest links)) [
  | inl e ↦ rw e refl
  | inr (l, e) ↦ rw e refl
]
find_link-supersede digest (some delivery) now links =
    find_link-map digest (revoke_row delivery now) links (revoke_row-KeepsHash delivery now)

pub find_link-append :
    (digest : Text) (links : List PayslipLink) (l : PayslipLink)
    → find_link digest (links ++ (l ∷ [])) ≡ elim (find_link digest links) [
      | none ↦ if text_eq l.code_hash digest then some l else none
      | some k ↦ some k
    ]
unfolding find_link
find_link-append digest [] l = ground arith
find_link-append digest (k ∷ links) l = elim (Bool-cases (text_eq k.code_hash digest)) [
  | inl e ↦ rw e refl
  | inr e ↦ rw e (find_link-append digest links l)
]

-- A code that is minted for a stored item opens that item until its days are over, and nothing from
-- then on, if its hash was not in the table before.
pub resolve_payslip_link-mint :
    (code_hash : Text → Text) (days now later : ℕ) (code : Text) (item : Item) (delivery : Option ℕ)
    (links : List PayslipLink) (items : List Item)
    → is_code code ≡ true
    → find_link (code_hash code) links ≡ none
    → find_item item.id items ≡ some item
    → resolve_payslip_link code_hash later code
        (mint_payslip_link code_hash days now code item delivery links)
        items
      ≡ (if ltb later (now + days * seconds_per_day) then some item else none)
unfolding resolve_payslip_link mint_payslip_link open_link
resolve_payslip_link-mint code_hash days now later code item delivery links items c f i =
    let l = new_link days now (code_hash code) item delivery in
    let found : find_link (code_hash code) (supersede delivery now links ++ (l ∷ [])) ≡ some l =
      find_link-append (code_hash code) (supersede delivery now links) l
      ∙ rw
          (
            find_link-supersede (code_hash code) delivery now links,
            f,
            text_eq_refl (code_hash code),
          )
          refl in
    rw (c, found)
      (elim (Bool-cases (ltb later l.expires_at)) [
        | inl e ↦
            let kept : leb l.expires_at later ≡ false = ground arith in
            rw (open_link, kept, i, ==-refl item.payslip_token_version, e) refl
        | inr e ↦
            let over : leb l.expires_at later ≡ true = ground arith in rw (open_link, over, e) refl
      ])

-- The live codes of a delivery.
unfoldable pub live_codes : ℕ → List PayslipLink → ℕ
live_codes delivery [] = 0
live_codes delivery (l ∷ links) =
    if is_for delivery l && is_live l
    then suc (live_codes delivery links)
    else live_codes delivery links

live_codes-superseded :
    (delivery now : ℕ) (links : List PayslipLink)
    → live_codes delivery (map (revoke_row delivery now) links) ≡ 0
unfolding live_codes
live_codes-superseded delivery now [] = refl
live_codes-superseded delivery now (l ∷ links) =
    ground (arith, live_codes-superseded delivery now links)

live_codes-append :
    (delivery : ℕ) (links : List PayslipLink) (l : PayslipLink)
    → live_codes delivery (links ++ (l ∷ []))
      ≡ live_codes delivery links + (if is_for delivery l && is_live l then 1 else 0)
unfolding live_codes
live_codes-append delivery [] l = ground arith
live_codes-append delivery (k ∷ links) l = ground (arith, live_codes-append delivery links l)

-- Minting for a delivery leaves exactly one live code of it, the new one, whatever was minted for it
-- before; and a link of no delivery, or of another one, is found as it was.
mint_payslip_link-one :
    (code_hash : Text → Text) (days now delivery : ℕ) (code digest : Text) (item : Item)
    (links : List PayslipLink) {l : PayslipLink}
    → find_link digest links ≡ some l
    → is_for delivery l ≡ false
    → let after = mint_payslip_link code_hash days now code item (some delivery) links in
      (live_codes delivery after ≡ 1) × (find_link digest after ≡ some l)
unfolding mint_payslip_link
mint_payslip_link-one code_hash days now delivery code digest item links {l} h other =
    let row = new_link days now (code_hash code) item (some delivery) in
    let left = map (revoke_row delivery now) links in
    (
      live_codes-append delivery left row
          ∙ rw (live_codes-superseded delivery now links, ==-refl delivery) refl,
      find_link-append digest left row
          ∙ rw
              (
                find_link-map digest (revoke_row delivery now) links
                    (revoke_row-KeepsHash delivery now),
                h,
                other,
              )
              refl,
    )
