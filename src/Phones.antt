-- ===== src/Phones.antt =====
-- app/distribution/phones.py: the form in which a Ghana mobile number goes out. A number is a text
-- of code points; white space is that of ASCII.
pub mod Shape
mod Tests
use pmvp.Prelude.{
  ℕ, Bool, true, false, not, ◌&&◌, ◌||◌, ◌==◌, leb, Option, none, some, List, [], ◌∷◌, ◌++◌, length,
  take, drop, if◌then◌else◌,
}
use pmvp.Text.{Text, codes, text_eq, is_space, is_empty}

-- GH_MOBILE_PREFIXES
abbrev pub gh_mobile_prefixes : List Text
gh_mobile_prefixes =
    codes "20"
    ∷ codes "50"
    ∷ codes "24"
    ∷ codes "25"
    ∷ codes "53"
    ∷ codes "54"
    ∷ codes "55"
    ∷ codes "59"
    ∷ codes "26"
    ∷ codes "27"
    ∷ codes "56"
    ∷ codes "57"
    ∷ []

abbrev pub is_among : Text → List Text → Bool
is_among s [] = false
is_among s (t ∷ ts) = text_eq t s || is_among s ts

-- `[\s\-.()]`
abbrev pub is_separator : ℕ → Bool
is_separator c = is_space c || (c == 45 || (c == 46 || (c == 40 || c == 41)))

unfoldable pub without_separators : Text → Text
without_separators [] = []
without_separators (c ∷ s) =
    if is_separator c then without_separators s else c ∷ without_separators s

abbrev pub is_digit : ℕ → Bool
is_digit c = leb 48 c && leb c 57

abbrev pub all_digits : Text → Bool
all_digits [] = true
all_digits (c ∷ s) = is_digit c && all_digits s

-- `[0-9]+` on the whole text
abbrev pub is_number : Text → Bool
is_number s = not (is_empty s) && all_digits s

abbrev pub starts_with : Text → Text → Bool
starts_with [] s = true
starts_with (c ∷ p) [] = false
starts_with (c ∷ p) (d ∷ s) = c == d && starts_with p s

abbrev pub country : Text
country = codes "233"

-- A "+" and what it must stand before.
abbrev pub without_plus : Text → Option Text
without_plus [] = some []
without_plus (c ∷ s) =
    if c == 43 then (if starts_with country s then some s else none) else some (c ∷ s)

-- The digits after the country or the trunk 0.
unfoldable pub national_part : Text → Option Text
national_part value =
    if length value == 12 && starts_with country value
    then some (drop 3 value)
    else (if length value == 10 && starts_with (codes "0") value
        then some (drop 1 value)
        else (if length value == 9 then some value else none))

-- `national[:2] in GH_MOBILE_PREFIXES`
unfoldable pub is_served : Text → Bool
is_served national = is_among (take 2 national) gh_mobile_prefixes

abbrev pub with_country : Option Text → Option Text
with_country none = none
with_country (some national) = if is_served national then some (country ++ national) else none

abbrev pub normalise_value : Option Text → Option Text
normalise_value none = none
normalise_value (some value) = if is_number value then with_country (national_part value) else none

unfoldable pub normalise_gh_mobile : Option Text → Option Text
unfolding without_separators national_part is_served
normalise_gh_mobile none = none
normalise_gh_mobile (some raw) = normalise_value (without_plus (without_separators raw))
