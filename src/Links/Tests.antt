-- ===== src/Links/Tests.antt =====
-- The links of one payslip, with a hash that appends a mark and a signature that lists its parts.
use pmvp.Prelude.{ℕ, ◌-◌, ◌≡◌, refl, true, leb, none, some, List, [], ◌∷◌, if◌then◌else◌}
use pmvp.Text.{Text, codes}
use pmvp.Links.{
  Item, PayslipLink, Loaded, fields, refused_token, Serializer, is_code, find_item, find_link,
  resolve_payslip_link, mint_payslip_link, revoke_payslip_links, new_link,
}
use pmvp.Links.Codes.{resolve_payslip_link-mint}
use pmvp.Links.Revocation.{Store, stay, revoked_for_good}
use pmvp.Links.Signed.{KeepsPromises}

abbrev marked : Text → Text
marked code = 35 ∷ code

abbrev code : Text
code = codes "Ab3dEf6hIj9l"

abbrev payslip : Item
payslip = record { id = 8; payslip_token_version = 2 }

abbrev stored : List Item
stored = record { id = 7; payslip_token_version = 0 } ∷ payslip ∷ []

code-is_code : is_code code ≡ true
unfolding is_code
code-is_code = refl

no_link : find_link (marked code) [] ≡ none
unfolding find_link
no_link = refl

payslip-stored : find_item 8 stored ≡ some payslip
unfolding find_item
payslip-stored = refl

resolve_payslip_link-mint_example :
    resolve_payslip_link marked 500 code
      (mint_payslip_link marked 30 100 code payslip (some 5) [])
      stored
    ≡ some payslip
resolve_payslip_link-mint_example =
    resolve_payslip_link-mint marked 30 100 500 code payslip (some 5) [] stored code-is_code no_link
      payslip-stored

abbrev earlier : PayslipLink
earlier = new_link 30 50 (codes "x") payslip (some 6)

earlier_found : find_link (codes "x") (earlier ∷ []) ≡ some earlier
unfolding find_link
earlier_found = refl

abbrev empty_store : Store
empty_store = record { links = []; items = stored }

revoked_for_good_example :
    resolve_payslip_link marked 500 code
      (mint_payslip_link marked 30 100 code payslip (some 5) [])
      (revoke_payslip_links 8 stored)
    ≡ none
revoked_for_good_example =
    revoked_for_good empty_store {item = payslip} 30 100 500 code (some 5) payslip-stored no_link
      stay stay

-- The parts of a token, when it was signed included.
abbrev read_token : ℕ → ℕ → Text → Loaded
read_token now max_age (signed ∷ id ∷ version ∷ []) =
    if leb (now - signed) max_age then fields (some id) (some version) else refused_token
read_token now max_age _ = refused_token

abbrev signer : Serializer
signer = record { dumps = λ signed id version. signed ∷ id ∷ version ∷ []; loads = read_token }

signer-KeepsPromises : KeepsPromises signer
signer-KeepsPromises = record { loads-dumps = λ signed now max_age id version o. refl }
