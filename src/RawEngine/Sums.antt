-- ===== src/RawEngine/Sums.antt =====
-- The buckets and the missing codes that app/raw_engine/calc/rates.py leaves.
use pmvp.Prelude.{
  ℕ, ◌+◌, ◌≡◌, refl, Bool, true, false, not, ◌&&◌, ◌||◌, ◌==◌, Option, none, some, List, [], ◌∷◌,
  ◌++◌, Bool-cases, inl, inr, arith, if◌then◌else◌,
}
use pmvp.Text.{Text, text_eq, eq_of_text_eq, text_eq_sym}
use pmvp.RawEngine.Rates.{
  Category, basic, overtime, bonus, allowance, other_category, RateEntry, PayLine, RateApplication,
  has_code, note_missing, rate_lookup, add_to_bucket, apply_rate, apply_from, apply_rates, pay_line,
  pay_for, no_pay,
}

abbrev same_category : Category → Category → Bool
same_category basic basic = true
same_category overtime overtime = true
same_category bonus bonus = true
same_category allowance allowance = true
same_category other_category other_category = true
same_category c d = false

-- What the lines of a category come to.
abbrev pub line_total : Category → List PayLine → ℕ
line_total c [] = 0
line_total c (l ∷ ls) =
    if same_category c l.category then l.amount + line_total c ls else line_total c ls

pub line_total-append :
    (c : Category) (ls ms : List PayLine)
    → line_total c (ls ++ ms) ≡ line_total c ls + line_total c ms
line_total-append c [] ms = omega arith
line_total-append c (l ∷ ls) ms = ground (arith, line_total-append c ls ms)

-- The three buckets are the totals of their lines.
abbrev pub Adds : RateApplication → Type 0
Adds r =
    (r.basic_wage ≡ line_total basic r.lines)
    × (r.overtime_pay ≡ line_total overtime r.lines)
    × (r.shift_allowances ≡ line_total allowance r.lines)

-- The three totals after a line more.
totals_with :
    (ls : List PayLine) (l : PayLine)
    → let more = λ (c : Category). line_total c ls + line_total c (l ∷ []) in
      (line_total basic (ls ++ (l ∷ [])) ≡ more basic)
      × (line_total overtime (ls ++ (l ∷ [])) ≡ more overtime)
      × (line_total allowance (ls ++ (l ∷ [])) ≡ more allowance)
totals_with ls l =
    let more = λ (c : Category). line_total-append c ls (l ∷ []) in
    (more basic, more overtime, more allowance)

add_line :
    (c : Category) (code : Text) (hours rate : ℕ) (r : RateApplication)
    → Adds r
    → Adds (apply_rate code hours (some (record { hourly_rate = rate; category = c })) r)
add_line basic code hours rate r (b, o, a) =
    let (p, q, s) =
      totals_with r.lines (pay_line code hours (record { hourly_rate = rate; category = basic })) in
    (omega arith, omega arith, omega arith)
add_line overtime code hours rate r (b, o, a) =
    let (p, q, s) =
      totals_with r.lines
        (pay_line code hours (record { hourly_rate = rate; category = overtime })) in
    (omega arith, omega arith, omega arith)
add_line bonus code hours rate r (b, o, a) =
    let (p, q, s) =
      totals_with r.lines (pay_line code hours (record { hourly_rate = rate; category = bonus })) in
    (omega arith, omega arith, omega arith)
add_line allowance code hours rate r (b, o, a) =
    let (p, q, s) =
      totals_with r.lines
        (pay_line code hours (record { hourly_rate = rate; category = allowance })) in
    (omega arith, omega arith, omega arith)
add_line other_category code hours rate r (b, o, a) =
    let (p, q, s) =
      totals_with r.lines
        (pay_line code hours (record { hourly_rate = rate; category = other_category })) in
    (omega arith, omega arith, omega arith)

abbrev is_unset : Option RateEntry → Bool
is_unset none = true
is_unset (some e) = false

-- Whether a code was worked that the table has no rate for.
abbrev pub is_unpriced : Text → List (Text × ℕ) → List (Text × RateEntry) → Bool
is_unpriced code [] table = false
is_unpriced code ((c, hours) ∷ worked) table =
    (not (hours == 0) && (text_eq code c && is_unset (rate_lookup c table)))
    || is_unpriced code worked table

-- A list without repeated codes.
abbrev pub NoRepeat : List Text → Type 0
NoRepeat [] = Unit
NoRepeat (c ∷ cs) = (has_code c cs ≡ false) × NoRepeat cs

has_code-append :
    (code c : Text) (m : List Text)
    → has_code code (m ++ (c ∷ [])) ≡ (text_eq code c || has_code code m)
has_code-append code c [] = ground arith
has_code-append code c (d ∷ m) = ground (arith, has_code-append code c m)

has_code_of_eq :
    (code c : Text) (m : List Text)
    → text_eq code c ≡ true
    → has_code c m ≡ true
    → has_code code m ≡ true
has_code_of_eq code c m same h = rw (eq_of_text_eq code c same) h

has_code-note_missing :
    (code c : Text) (m : List Text)
    → has_code code (note_missing c m) ≡ (text_eq code c || has_code code m)
has_code-note_missing code c m = ground (arith, has_code-append code c m, has_code_of_eq code c m)

NoRepeat-append :
    (c : Text) (m : List Text) → NoRepeat m → has_code c m ≡ false → NoRepeat (m ++ (c ∷ []))
NoRepeat-append c [] n h = (refl, tt)
NoRepeat-append c (d ∷ m) (fresh, n) h =
    let e = has_code-append d c m in
    let s = text_eq_sym c d in (ground arith, NoRepeat-append c m n (ground arith))

note_missing-NoRepeat : (c : Text) (m : List Text) → NoRepeat m → NoRepeat (note_missing c m)
note_missing-NoRepeat c m n = elim (Bool-cases (has_code c m)) [
  | inl h ↦ rw h n
  | inr h ↦ rw h (NoRepeat-append c m n h)
]

bucket_keeps :
    (c : Category) (amount : ℕ) (r : RateApplication)
    → (add_to_bucket c amount r).missing_rate_codes ≡ r.missing_rate_codes
bucket_keeps basic amount r = refl
bucket_keeps overtime amount r = refl
bucket_keeps bonus amount r = refl
bucket_keeps allowance amount r = refl
bucket_keeps other_category amount r = refl

-- A result whose buckets add up and whose missing codes are listed once, and are those that a test
-- tells.
abbrev Prices : (Text → Bool) → RateApplication → Type 0
Prices missing r =
    Adds r
    × NoRepeat r.missing_rate_codes
    × ((code : Text) → has_code code r.missing_rate_codes ≡ missing code)

apply_rate-Prices :
    (code : Text) (hours : ℕ) (o : Option RateEntry) {missing : Text → Bool} (r : RateApplication)
    → Prices missing r
    → Prices (λ c. (text_eq c code && is_unset o) || missing c) (apply_rate code hours o r)
apply_rate-Prices code hours none r (adds, once, told) = (
  adds,
  note_missing-NoRepeat code r.missing_rate_codes once,
  λ c. ground (arith, has_code-note_missing c code r.missing_rate_codes, told c),
)
apply_rate-Prices code hours (some e) r (adds, once, told) =
    let priced = record r { lines = r.lines ++ (pay_line code hours e ∷ []) } in
    let keeps = bucket_keeps e.category (pay_for hours e.hourly_rate) priced in
    (
      add_line e.category code hours e.hourly_rate r adds,
      rw keeps once,
      λ c. rw keeps (ground (arith, told c)),
    )

apply_from-Prices :
    (worked : List (Text × ℕ)) (table : List (Text × RateEntry)) {missing : Text → Bool}
    (r : RateApplication)
    → Prices missing r
    → Prices (λ c. is_unpriced c worked table || missing c) (apply_from worked table r)
unfolding apply_from
apply_from-Prices [] table r prices = prices
apply_from-Prices ((c, hours) ∷ worked) table r (adds, once, told) =
    elim (Bool-cases (hours == 0)) [
      | inl idle ↦ rw (apply_from, idle) (apply_from-Prices worked table r (adds, once, told))
      | inr some_hours ↦
          let looked_up = rate_lookup c table in
          let (adds', once', told') =
            apply_from-Prices worked table (apply_rate c hours looked_up r)
              (apply_rate-Prices c hours looked_up r (adds, once, told)) in
          rw (apply_from, some_hours) (adds', once', λ code. ground (arith, told' code))
    ]

-- Every code that was worked for some hours is priced or is missing. The three buckets are the sums
-- of the amounts of the lines in their category, each missing code is listed once, and a code is
-- listed exactly if it was worked and has no rate.
apply_rates_lem :
    (worked : List (Text × ℕ)) (table : List (Text × RateEntry))
    → let r = apply_rates worked table in
      Adds r
      × NoRepeat r.missing_rate_codes
      × ((code : Text) → has_code code r.missing_rate_codes ≡ is_unpriced code worked table)
unfolding apply_rates
apply_rates_lem worked table =
    let (adds, once, told) =
      apply_from-Prices worked table {missing = λ c. false} no_pay
        ((refl, refl, refl), tt, λ c. refl) in
    (adds, once, λ code. ground (arith, told code))
