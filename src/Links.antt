-- ===== src/Links.antt =====
-- The links that open a payslip without a login: app/distribution/links.py (short codes) and
-- app/distribution/tokens.py (signed tokens). Times are seconds; a table is a list. The keyed hash and
-- the signing library are parameters.
pub mod Codes
pub mod Revocation
pub mod Signed
mod Tests
use pmvp.Prelude.{
  ℕ, suc, ◌+◌, ◌*◌, Bool, true, false, not, ◌&&◌, ◌||◌, ◌==◌, ltb, leb, Option, none, some, List,
  [], ◌∷◌, ◌++◌, map, length, if◌then◌else◌,
}
use pmvp.Text.{Text, text_eq}

-- The columns of PayrollItem that a link reads.
pub record Item : Type 0 where
  pub id : ℕ
  pub payslip_token_version : ℕ

pub record PayslipLink : Type 0 where
  pub code_hash : Text
  pub payroll_item_id : ℕ
  pub payslip_delivery_id : Option ℕ
  pub token_version : ℕ
  pub expires_at : ℕ
  pub revoked_at : Option ℕ

-- CODE_LENGTH
abbrev pub code_length : ℕ
code_length = 12

-- `[A-Za-z0-9]`
abbrev pub is_code_char : ℕ → Bool
is_code_char c = (leb 48 c && leb c 57) || ((leb 65 c && leb c 90) || (leb 97 c && leb c 122))

abbrev pub all_code_chars : Text → Bool
all_code_chars [] = true
all_code_chars (c ∷ code) = is_code_char c && all_code_chars code

-- `_CODE.fullmatch(code)`
unfoldable pub is_code : Text → Bool
is_code code = (length code == code_length) && all_code_chars code

unfoldable pub find_item : ℕ → List Item → Option Item
find_item id [] = none
find_item id (item ∷ items) = if item.id == id then some item else find_item id items

-- `PayslipLink.query.filter_by(code_hash=...).first()`
unfoldable pub find_link : Text → List PayslipLink → Option PayslipLink
find_link digest [] = none
find_link digest (l ∷ links) = if text_eq l.code_hash digest then some l else find_link digest links

abbrev pub is_live : PayslipLink → Bool
is_live l = elim l.revoked_at [ none ↦ true | some t ↦ false ]

abbrev pub is_for : ℕ → PayslipLink → Bool
is_for delivery l = elim l.payslip_delivery_id [ none ↦ false | some d ↦ d == delivery ]

abbrev pub revoke_at : ℕ → PayslipLink → PayslipLink
revoke_at now l = record l { revoked_at = some now }

abbrev pub revoke_row : ℕ → ℕ → PayslipLink → PayslipLink
revoke_row delivery now l = if is_for delivery l && is_live l then revoke_at now l else l

unfoldable pub revoke_delivery_links : ℕ → ℕ → List PayslipLink → List PayslipLink
revoke_delivery_links delivery now links = map (revoke_row delivery now) links

-- The revocation of `mint_payslip_link`, where there is a delivery.
abbrev pub supersede : Option ℕ → ℕ → List PayslipLink → List PayslipLink
supersede none now links = links
supersede (some delivery) now links = map (revoke_row delivery now) links

abbrev pub seconds_per_day : ℕ
seconds_per_day = 86400

-- The row that is minted; `digest` is the hash of the random code.
abbrev pub new_link : ℕ → ℕ → Text → Item → Option ℕ → PayslipLink
new_link days now digest item delivery = record {
  code_hash = digest;
  payroll_item_id = item.id;
  payslip_delivery_id = delivery;
  token_version = item.payslip_token_version;
  expires_at = now + days * seconds_per_day;
  revoked_at = none;
}

unfoldable pub revoke_payslip_links : ℕ → List Item → List Item
revoke_payslip_links id [] = []
revoke_payslip_links id (item ∷ items) =
    if item.id == id
    then record item { payslip_token_version = suc item.payslip_token_version } ∷ items
    else item ∷ revoke_payslip_links id items

-- The item of a link that was found, if the link still opens it.
unfoldable pub open_link : ℕ → PayslipLink → List Item → Option Item
unfolding find_item
open_link now l items =
    if not (is_live l) || leb l.expires_at now
    then none
    else elim (find_item l.payroll_item_id items) [
      | none ↦ none
      | some item ↦ if l.token_version == item.payslip_token_version then some item else none
    ]

unfoldable pub revoke_first : Text → ℕ → List PayslipLink → Bool × List PayslipLink
revoke_first digest now [] = (false, [])
revoke_first digest now (l ∷ links) =
    let (revoked, rest) = revoke_first digest now links in
    if text_eq l.code_hash digest
    then (if is_live l then (true, revoke_at now l ∷ links) else (false, l ∷ links))
    else (revoked, l ∷ rest)

module _ (code_hash : Text → Text) where
  -- `mint_payslip_link`, for the random code that it drew
  unfoldable pub mint_payslip_link :
      ℕ → ℕ → Text → Item → Option ℕ → List PayslipLink → List PayslipLink
  mint_payslip_link days now code item delivery links =
      supersede delivery now links ++ (new_link days now (code_hash code) item delivery ∷ [])

  unfoldable pub resolve_payslip_link : ℕ → Text → List PayslipLink → List Item → Option Item
  unfolding is_code find_link open_link
  resolve_payslip_link now code links items =
      if is_code code
      then elim (find_link (code_hash code) links) [ none ↦ none | some l ↦ open_link now l items ]
      else none

  unfoldable pub revoke_code : ℕ → Text → List PayslipLink → Bool × List PayslipLink
  unfolding is_code revoke_first
  revoke_code now code links =
      if is_code code then revoke_first (code_hash code) now links else (false, links)

-- What `loads` of the signing library gives: nothing for a bad signature or an old token, a value
-- that is no dictionary, or the fields of the payload.
pub data Loaded : Type 0 where
  refused_token other_value : Loaded
  fields : Option ℕ → Option ℕ → Loaded

abbrev pub checked_version : Option ℕ → Item → Option Item
checked_version none item = none
checked_version (some v) item = if v == item.payslip_token_version then some item else none

-- `resolve_payslip_item` on what was loaded
unfoldable pub resolve_loaded : Loaded → List Item → Option Item
unfolding find_item
resolve_loaded (fields (some id) version) items = elim (find_item id items) [
  | none ↦ none
  | some item ↦ checked_version version item
]
resolve_loaded (fields none version) items = none
resolve_loaded refused_token items = none
resolve_loaded other_value items = none

-- The signing library: `dumps` at a time, and `loads` at a time with a maximal age.
pub record Serializer : Type 0 where
  pub dumps : ℕ → ℕ → ℕ → Text
  pub loads : ℕ → ℕ → Text → Loaded

unfoldable pub issue_payslip_token : Serializer → ℕ → Item → Text
issue_payslip_token s now item = s.dumps now item.id item.payslip_token_version

unfoldable pub resolve_payslip_item : Serializer → ℕ → ℕ → Text → List Item → Option Item
unfolding resolve_loaded
resolve_payslip_item s max_age now token items = resolve_loaded (s.loads now max_age token) items
