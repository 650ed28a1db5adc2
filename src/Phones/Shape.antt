-- ===== src/Phones/Shape.antt =====
-- The form that app/distribution/phones.py gives a number.
use pmvp.Prelude.{
  ℕ, zero, suc, ◌≡◌, refl, Bool, true, false, Option, none, some, [], ◌∷◌, ◌++◌, length,
  length-drop, drop, arith, if◌then◌else◌,
}
use pmvp.Text.{Text}
use pmvp.Phones.{
  is_served, without_separators, all_digits, is_number, country, without_plus, national_part,
  with_country, normalise_value, normalise_gh_mobile,
}

-- Nine digits after the country, with the prefix of a network.
abbrev pub IsNational : Text → Type 0
IsNational national =
    (length national ≡ 9) × (all_digits national ≡ true) × (is_served national ≡ true)

all_digits-drop : (n : ℕ) (s : Text) → all_digits s ≡ true → all_digits (drop n s) ≡ true
all_digits-drop zero s h = h
all_digits-drop (suc n) [] h = h
all_digits-drop (suc n) (c ∷ s) h = all_digits-drop n s (ground arith)

national_part-digits :
    (value : Text) {national : Text}
    → all_digits value ≡ true
    → national_part value ≡ some national
    → (length national ≡ 9) × (all_digits national ≡ true)
unfolding national_part
national_part-digits value digits h = ground (
  arith,
  all_digits-drop 3 value digits,
  all_digits-drop 1 value digits,
  length-drop 3 value,
  length-drop 1 value,
)

without_separators-digits : (s : Text) → all_digits s ≡ true → without_separators s ≡ s
unfolding without_separators
without_separators-digits [] h = refl
without_separators-digits (c ∷ s) h = ground (arith, without_separators-digits s)

if_some :
    (test : Bool) (s : Text) {n : Text}
    → (if test then some s else none) ≡ some n
    → (test ≡ true) × (n ≡ s)
if_some true s h = (refl, cc)
if_some false s h = cc

when_true :
    (test : Bool) {o : Option Text} {n : Text}
    → (if test then o else none) ≡ some n
    → (test ≡ true) × (o ≡ some n)
when_true true h = (refl, h)
when_true false h = cc

with_country-served :
    (o : Option Text) {n : Text}
    → with_country o ≡ some n
    → (national : Text) × (o ≡ some national)
      × (n ≡ country ++ national)
      × (is_served national ≡ true)
with_country-served none h = cc
with_country-served (some national) h =
    let (served, same) = if_some (is_served national) (country ++ national) h in
    (national, refl, same, served)

normalise_value-IsNational :
    (o : Option Text) {n : Text}
    → normalise_value o ≡ some n
    → (national : Text) × (n ≡ country ++ national) × IsNational national
normalise_value-IsNational none h = cc
normalise_value-IsNational (some value) h =
    let (number, made) = when_true (is_number value) h in
    let (national, part, same, served) = with_country-served (national_part value) made in
    let (nine, digits) = national_part-digits value (ground arith) part in
    (national, same, (nine, digits, served))

national_part-country :
    (national : Text) → length national ≡ 9 → national_part (country ++ national) ≡ some national
unfolding national_part
national_part-country national nine = rw nine refl

-- A number in its outgoing form stays as it is.
normalise-again :
    (national : Text)
    → IsNational national
    → normalise_gh_mobile (some (country ++ national)) ≡ some (country ++ national)
unfolding normalise_gh_mobile
normalise-again national (nine, digits, served) =
    rw (without_separators-digits national digits, digits, nine, served) refl

-- A number that is accepted goes out as the country and nine digits that start with the prefix of a
-- network that is served; and what goes out is accepted as it stands.
pub normalise_gh_mobile-IsNational :
    (raw : Option Text) {n : Text}
    → normalise_gh_mobile raw ≡ some n
    → ((national : Text) × (n ≡ country ++ national) × IsNational national)
      × (normalise_gh_mobile (some n) ≡ some n)
unfolding normalise_gh_mobile
normalise_gh_mobile-IsNational none h = cc
normalise_gh_mobile-IsNational (some raw) h =
    let (national, same, shape) =
      normalise_value-IsNational (without_plus (without_separators raw)) h in
    ((national, same, shape), rw same (normalise-again national shape))
