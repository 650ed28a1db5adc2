-- ===== src/Links/Revocation.antt =====
-- Revocation of a payslip's links through any later use: `revoke_payslip_links` of
-- app/distribution/tokens.py with the operations of app/distribution/links.py.
use mathlib.Core.Path.{subst}
use pmvp.Prelude.{
  ℕ, suc, ◌+◌, ◌≤◌, ◌≡◌, refl, sym, ◌∙◌, inl, inr, Bool, true, false, Option, none, some, List, [],
  ◌∷◌, ◌++◌, arith, Bool-cases,
}
use pmvp.Text.{Text, text_eq, text_eq_refl}
use pmvp.Links.{
  Item, PayslipLink, is_code, find_item, find_link, is_live, revoke_at, supersede, new_link,
  open_link, mint_payslip_link, resolve_payslip_link, revoke_payslip_links, revoke_code,
  revoke_first,
}
use pmvp.Links.Codes.{find_link-append, find_link-supersede, superseded_row}

pub record Store : Type 0 where
  pub links : List PayslipLink
  pub items : List Item

-- The version of a stored payslip; 0 where there is none.
abbrev pub version_of : Option Item → ℕ
version_of none = 0
version_of (some item) = item.payslip_token_version

abbrev is_stored : Option Item → Bool
is_stored none = false
is_stored (some item) = true

-- The operations on links: a mint for a stored payslip (the new hash is not in the table: the column is
-- unique), a revocation of one code, and a revocation of a payslip's links.
pub data LinkStep (code_hash : Text → Text) : Store → Store → Type 0 where
  mint :
      {s : Store} {item : Item} (days now : ℕ) (code : Text) (delivery : Option ℕ)
      → find_item item.id s.items ≡ some item
      → find_link (code_hash code) s.links ≡ none
      → LinkStep code_hash s (record {
        links = mint_payslip_link code_hash days now code item delivery s.links;
        items = s.items;
      })
  revoke_one :
      {s : Store} (now : ℕ) (code : Text)
      → LinkStep code_hash s
          (record { links = (revoke_code code_hash now code s.links).1; items = s.items })
  revoke_all :
      {s : Store} (id : ℕ)
      → LinkStep code_hash s (record { links = s.links; items = revoke_payslip_links id s.items })

pub data LinkSteps (code_hash : Text → Text) : Store → Store → Type 0 where
  stay : {s : Store} → LinkSteps code_hash s s
  step :
      {s t u : Store} → LinkSteps code_hash s t → LinkStep code_hash t u → LinkSteps code_hash s u

-- A link of the payslip `id` with this hash is stored, at least `gap` versions behind.
abbrev IsBehind : Text → ℕ → ℕ → Store → Type 0
IsBehind digest id gap s =
    (l : PayslipLink) × (find_link digest s.links ≡ some l)
    × (l.payroll_item_id ≡ id)
    × (l.token_version + gap ≤ version_of (find_item id s.items))
    × (is_stored (find_item id s.items) ≡ true)

version_of-revoke :
    (id j : ℕ) (items : List Item)
    → version_of (find_item j items) ≤ version_of (find_item j (revoke_payslip_links id items))
unfolding find_item revoke_payslip_links
version_of-revoke id j [] = omega arith
version_of-revoke id j (item ∷ items) = ground (arith, version_of-revoke id j items)

is_stored-revoke :
    (id j : ℕ) (items : List Item)
    → is_stored (find_item j (revoke_payslip_links id items)) ≡ is_stored (find_item j items)
unfolding find_item revoke_payslip_links
is_stored-revoke id j [] = refl
is_stored-revoke id j (item ∷ items) = ground (arith, is_stored-revoke id j items)

version_of-revoke_same :
    (id : ℕ) (items : List Item)
    → is_stored (find_item id items) ≡ true
    → version_of (find_item id (revoke_payslip_links id items))
      ≡ suc (version_of (find_item id items))
unfolding find_item revoke_payslip_links
version_of-revoke_same id [] h = cc
version_of-revoke_same id (row ∷ items) h = ground (arith, version_of-revoke_same id items)

-- What a revocation of one code leaves to be found.
revoke_first-found :
    (digest other : Text) (now : ℕ) (links : List PayslipLink) {l : PayslipLink}
    → find_link digest links ≡ some l
    → (m : PayslipLink) × (find_link digest (revoke_first other now links).1 ≡ some m)
      × (m.payroll_item_id ≡ l.payroll_item_id)
      × (m.token_version ≡ l.token_version)
unfolding find_link revoke_first
revoke_first-found digest other now [] h = ground arith
revoke_first-found digest other now (k ∷ links) {l} h =
    elim (Bool-cases (text_eq k.code_hash other)) [
      | inl o ↦ elim (Bool-cases (text_eq k.code_hash digest)) [
        | inl e ↦ elim (Bool-cases (is_live k)) [
          | inl a ↦ (revoke_at now k, ground arith, ground arith, ground arith)
          | inr a ↦ (k, ground arith, ground arith, ground arith)
        ]
        | inr e ↦ (l, ground arith, refl, refl)
      ]
      | inr o ↦ elim (Bool-cases (text_eq k.code_hash digest)) [
        | inl e ↦ (k, ground arith, ground arith, ground arith)
        | inr e ↦
            let (m, f, i, v) = revoke_first-found digest other now links {l = l} (ground arith) in
            (m, ground arith, i, v)
      ]
    ]

superseded_row-same :
    (delivery : Option ℕ) (now : ℕ) (l : PayslipLink)
    → ((superseded_row delivery now l).payroll_item_id ≡ l.payroll_item_id)
      × ((superseded_row delivery now l).token_version ≡ l.token_version)
superseded_row-same none now l = (refl, refl)
superseded_row-same (some d) now l = ground arith

step-IsBehind :
    {code_hash : Text → Text} {s t : Store} (digest : Text) (id gap : ℕ)
    → LinkStep code_hash s t
    → IsBehind digest id gap s
    → IsBehind digest id gap t
unfolding mint_payslip_link revoke_code
step-IsBehind {code_hash} digest id gap (mint {s} {item} days now code delivery g f)
      (l, h, own, v, i) =
    let row = new_link days now (code_hash code) item delivery in
    let same = superseded_row-same delivery now l in
    (
      superseded_row delivery now l,
      find_link-append digest (supersede delivery now s.links) row
          ∙ rw (find_link-supersede digest delivery now s.links, h) refl,
      same.0 ∙ own,
      omega (arith, same.1, v),
      i,
    )
step-IsBehind {code_hash} digest id gap (revoke_one {s} now code) (l, h, own, v, i) =
    elim (Bool-cases (is_code code)) [
      | inl e ↦
          let (m, f, o, w) = revoke_first-found digest (code_hash code) now s.links h in
          (m, rw e f, o ∙ own, omega (arith, w, v), i)
      | inr e ↦ (l, rw e h, own, v, i)
    ]
step-IsBehind digest id gap (revoke_all {s} j) (l, h, own, v, i) =
    (l, h, own, omega (arith, v, version_of-revoke j id s.items), is_stored-revoke j id s.items ∙ i)

steps-IsBehind :
    {code_hash : Text → Text} {s t : Store} (digest : Text) (id gap : ℕ)
    → LinkSteps code_hash s t
    → IsBehind digest id gap s
    → IsBehind digest id gap t
steps-IsBehind digest id gap stay b = b
steps-IsBehind digest id gap (step r t) b =
    step-IsBehind digest id gap t (steps-IsBehind digest id gap r b)

-- A link that is behind its payslip opens nothing.
open_link-behind :
    (now : ℕ) (l : PayslipLink) (items : List Item)
    → l.token_version + 1 ≤ version_of (find_item l.payroll_item_id items)
    → open_link now l items ≡ none
unfolding open_link
open_link-behind now l items v = ground arith

behind-closed :
    (code_hash : Text → Text) (code : Text) (id now : ℕ) (s : Store)
    → IsBehind (code_hash code) id 1 s
    → resolve_payslip_link code_hash now code s.links s.items ≡ none
unfolding resolve_payslip_link
behind-closed code_hash code id now s (l, h, own, v, i) = elim (Bool-cases (is_code code)) [
  | inr e ↦ rw e refl
  | inl e ↦
      rw (e, h)
        (open_link-behind now l s.items
          (subst (λ k. l.token_version + 1 ≤ version_of (find_item k s.items)) (sym own) v))
]

IsBehind-revoked :
    (digest : Text) (id : ℕ) (s : Store)
    → IsBehind digest id 0 s
    → IsBehind digest id 1 (record { links = s.links; items = revoke_payslip_links id s.items })
IsBehind-revoked digest id s (l, h, own, v, i) = (
  l,
  h,
  own,
  omega (arith, v, version_of-revoke_same id s.items i),
  is_stored-revoke id id s.items ∙ i,
)

-- Revoking a payslip's links kills every short code minted for it: a code that was minted for a stored
-- payslip, with any operations on links after it, a revocation of that payslip's links, and any
-- operations after that, opens nothing at any time.
pub revoked_for_good :
    {code_hash : Text → Text} (s : Store) {t u : Store} {item : Item} (days now later : ℕ)
    (code : Text) (delivery : Option ℕ)
    → find_item item.id s.items ≡ some item
    → find_link (code_hash code) s.links ≡ none
    → LinkSteps code_hash
        (record {
          links = mint_payslip_link code_hash days now code item delivery s.links;
          items = s.items;
        })
        t
    → LinkSteps code_hash
        (record { links = t.links; items = revoke_payslip_links item.id t.items })
        u
    → resolve_payslip_link code_hash later code u.links u.items ≡ none
unfolding mint_payslip_link
revoked_for_good {code_hash} s {t} {u} {item} days now later code delivery i f before after =
    let row = new_link days now (code_hash code) item delivery in
    let minted : find_link (code_hash code) (supersede delivery now s.links ++ (row ∷ []))
        ≡ some row =
      find_link-append (code_hash code) (supersede delivery now s.links) row
      ∙ rw
          (
            find_link-supersede (code_hash code) delivery now s.links,
            f,
            text_eq_refl (code_hash code),
          )
          refl in
    let held =
      steps-IsBehind (code_hash code) item.id 0 before
        (row, minted, refl, rw i (omega arith), rw i refl) in
    behind-closed code_hash code item.id later u (
      steps-IsBehind (code_hash code) item.id 1 after
        (IsBehind-revoked (code_hash code) item.id t held))
