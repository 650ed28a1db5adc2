-- ===== src/Links/Signed.antt =====
-- The signed links of app/distribution/tokens.py, for a signing library that keeps its promises.
use pmvp.Prelude.{
  ℕ, suc, ◌-◌, ◌≤◌, ◌≡◌, refl, leb, ◌==◌, ==-refl, none, some, List, [], ◌∷◌, if◌then◌else◌, arith,
  Bool-cases, inl, inr,
}
use pmvp.Links.{
  Item, fields, refused_token, Serializer, find_item, resolve_loaded, issue_payslip_token,
  resolve_payslip_item, revoke_payslip_links,
}

-- A token that was signed loads as it was dumped while it is at most `max_age` old, and is refused
-- when it is older.
pub record KeepsPromises (s : Serializer) : Type 0 where
  pub loads-dumps :
      (signed now max_age id version : ℕ)
      → signed ≤ now
      → s.loads now max_age (s.dumps signed id version)
        ≡ (if leb (now - signed) max_age then fields (some id) (some version) else refused_token)

-- A token issued for a stored payslip opens it while it is at most the maximal age old, and nothing
-- once it is older.
resolve_payslip_item-issue :
    (s : Serializer) (max_age signed now : ℕ) (item : Item) (items : List Item)
    → KeepsPromises s
    → signed ≤ now
    → find_item item.id items ≡ some item
    → resolve_payslip_item s max_age now (issue_payslip_token s signed item) items
      ≡ (if leb (now - signed) max_age then some item else none)
unfolding resolve_payslip_item issue_payslip_token resolve_loaded
resolve_payslip_item-issue s max_age signed now item items k o i =
    rw (k.loads-dumps signed now max_age item.id item.payslip_token_version o)
      (elim (Bool-cases (leb (now - signed) max_age)) [
        | inl e ↦ rw (e, resolve_loaded, i, ==-refl item.payslip_token_version) refl
        | inr e ↦ rw e refl
      ])

find_item-revoke :
    (id j : ℕ) (items : List Item) {item : Item}
    → find_item j items ≡ some item
    → find_item j (revoke_payslip_links id items) ≡ (
        if j == id
        then some (record item { payslip_token_version = suc item.payslip_token_version })
        else some item)
unfolding find_item revoke_payslip_links
find_item-revoke id j [] h = cc
find_item-revoke id j (row ∷ items) {item} h =
    ground (arith, find_item-revoke id j items {item = item})

-- After the revocation of a payslip's links, a token issued for a stored payslip before it opens
-- nothing if that payslip is the revoked one, and what it opened before if it is another.
resolve_payslip_item-revoke :
    (s : Serializer) (max_age signed now id : ℕ) (item : Item) (items : List Item)
    → KeepsPromises s
    → signed ≤ now
    → find_item item.id items ≡ some item
    → resolve_payslip_item s max_age now
        (issue_payslip_token s signed item)
        (revoke_payslip_links id items)
      ≡ (if item.id == id
          then none
          else resolve_payslip_item s max_age now (issue_payslip_token s signed item) items)
unfolding resolve_payslip_item issue_payslip_token resolve_loaded
resolve_payslip_item-revoke s max_age signed now id item items k o i =
    rw (k.loads-dumps signed now max_age item.id item.payslip_token_version o)
      (elim (Bool-cases (leb (now - signed) max_age)) [
        | inr e ↦ rw e (ground arith)
        | inl e ↦ rw (e, resolve_loaded, find_item-revoke id item.id items i, i) (ground arith)
      ])
