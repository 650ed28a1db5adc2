-- ===== src/RawEngine/Rates.antt =====
-- app/raw_engine/calc/rates.py: hours into money, by the rate table of the employee. A pay code is
-- a text; a table is a list of its entries in order, without a repeated code.
-- The source rounds a product of floats; here the product is exact, so a line whose product is next to
-- the half pesewa may differ by a pesewa.
use pmvp.Prelude.{
  ℕ, ◌+◌, ◌*◌, Bool, false, ◌||◌, ◌==◌, Option, none, some, List, [], ◌∷◌, ◌++◌, if◌then◌else◌,
}
use pmvp.Text.{Text, text_eq}
use pmvp.Money.{rate_unit, round_half_up}

-- The categories of WageRateProfile, and any other string.
pub data Category : Type 0 where
  basic overtime bonus allowance other_category : Category

-- (hourly_rate, category)
pub record RateEntry : Type 0 where
  pub hourly_rate : ℕ
  pub category : Category

-- (pay_code, category, hours, rate, amount)
pub record PayLine : Type 0 where
  pub pay_code : Text
  pub category : Category
  pub hours : ℕ
  pub rate : ℕ
  pub amount : ℕ

pub record RateApplication : Type 0 where
  pub basic_wage : ℕ
  pub overtime_pay : ℕ
  pub shift_allowances : ℕ
  pub lines : List PayLine
  pub missing_rate_codes : List Text

-- `money(float(hours) * float(hourly_rate))`
abbrev pub pay_for : ℕ → ℕ → ℕ
pay_for hours hourly_rate = round_half_up (100 * rate_unit) (hours * hourly_rate)

abbrev pub has_code : Text → List Text → Bool
has_code code [] = false
has_code code (c ∷ seen) = text_eq code c || has_code code seen

-- `if pay_code not in missing: missing.append(pay_code)`
abbrev pub note_missing : Text → List Text → List Text
note_missing code missing = if has_code code missing then missing else missing ++ (code ∷ [])

-- `rate_lookup.get(pay_code)`
unfoldable pub rate_lookup : Text → List (Text × RateEntry) → Option RateEntry
rate_lookup code [] = none
rate_lookup code ((c, e) ∷ table) = if text_eq c code then some e else rate_lookup code table

-- The bucket of a line; a bonus line, or one of an unknown category, has none here.
abbrev pub add_to_bucket : Category → ℕ → RateApplication → RateApplication
add_to_bucket basic amount r = record r { basic_wage = r.basic_wage + amount }
add_to_bucket overtime amount r = record r { overtime_pay = r.overtime_pay + amount }
add_to_bucket allowance amount r = record r { shift_allowances = r.shift_allowances + amount }
add_to_bucket bonus amount r = r
add_to_bucket other_category amount r = r

abbrev pub pay_line : Text → ℕ → RateEntry → PayLine
pay_line code hours e = record {
  pay_code = code;
  category = e.category;
  hours = hours;
  rate = e.hourly_rate;
  amount = pay_for hours e.hourly_rate;
}

-- One round of the loop of `apply_rates`, for hours that are not 0.
abbrev pub apply_rate : Text → ℕ → Option RateEntry → RateApplication → RateApplication
apply_rate code hours none r = record r {
  missing_rate_codes = note_missing code r.missing_rate_codes;
}
apply_rate code hours (some e) r =
    add_to_bucket e.category (pay_for hours e.hourly_rate)
      (record r { lines = r.lines ++ (pay_line code hours e ∷ []) })

abbrev pub no_pay : RateApplication
no_pay = record {
  basic_wage = 0;
  overtime_pay = 0;
  shift_allowances = 0;
  lines = [];
  missing_rate_codes = [];
}

unfoldable pub apply_from :
    List (Text × ℕ) → List (Text × RateEntry) → RateApplication → RateApplication
unfolding rate_lookup
apply_from [] table r = r
apply_from ((code, hours) ∷ worked) table r =
    apply_from worked table
      (if hours == 0 then r else apply_rate code hours (rate_lookup code table) r)

unfoldable pub apply_rates : List (Text × ℕ) → List (Text × RateEntry) → RateApplication
unfolding apply_from
apply_rates worked table = apply_from worked table no_pay
