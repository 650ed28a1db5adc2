-- ===== src/Deductions/Roster.antt =====
-- `context_for_employee` of app/payroll_calculations/deductions.py: the evidence that the roster
-- holds for a payroll's date.
use pmvp.Prelude.{
  ℕ, ◌≤◌, ◌≡◌, ◌≢◌, ◌⊎◌, length, ltb→lt, inl, inr, refl, Bool, true, false, ◌&&◌, ltb, Option, none,
  some, List, [], ◌∷◌, Bool-cases, arith, if◌then◌else◌,
}
use pmvp.Prelude.Int.{ℤ}
use pmvp.Text.{Text}
use pmvp.Statutory.{Date, date_le}
use pmvp.Deductions.{DeductionContext, empty_context}

-- One row of `tax_relief_approvals`.
pub record Award : Type 0 where
  pub id : ℕ
  pub reference : Text
  pub valid_from : Date
  pub valid_to : Date
  pub monthly_amount : ℤ

-- The columns of an employee that are evidence. A missing text is empty, a missing amount 0.
pub record RosterEmployee : Type 0 where
  pub id : ℕ
  pub staff_id : Text
  pub overtime_is_junior : Option Bool
  pub overtime_qualifying_annual_income : Option ℤ
  pub overtime_income_year : Option ℕ
  pub pf_scheme_approved : Bool
  pub pf_scheme_reference : Text
  pub tax_relief_approval_ref : Text
  pub tax_relief_valid_from : Option Date
  pub tax_relief_valid_to : Option Date
  pub tax_relief_monthly : ℤ
  pub tax_relief_approvals : List Award

abbrev pub is_valid_on : Date → Award → Bool
is_valid_on on_date a = date_le a.valid_from on_date && date_le on_date a.valid_to

-- The first of the awards that are valid on the date with the greatest id.
unfoldable pub latest_award : Date → List Award → Option Award
latest_award on_date [] = none
latest_award on_date (a ∷ awards) =
    let later = latest_award on_date awards in
    if is_valid_on on_date a
    then elim later [ none ↦ some a | some b ↦ if ltb a.id b.id then some b else some a ]
    else later

-- The evidence apart from the relief.
abbrev evidence_of : RosterEmployee → Date → DeductionContext
evidence_of e on_date = record empty_context {
  period = some on_date;
  is_junior = e.overtime_is_junior;
  qualifying_annual_income = e.overtime_qualifying_annual_income;
  income_year = e.overtime_income_year;
  pf_scheme_approved = e.pf_scheme_approved;
  pf_scheme_reference = e.pf_scheme_reference;
}

abbrev with_award : Award → DeductionContext → DeductionContext
with_award a context = record context {
  relief_approval_ref = a.reference;
  relief_valid_from = some a.valid_from;
  relief_valid_to = some a.valid_to;
  approved_relief_monthly = a.monthly_amount;
}

-- The dated fields of an employee without any award.
abbrev with_dated_fields : RosterEmployee → DeductionContext → DeductionContext
with_dated_fields e context = record context {
  relief_approval_ref = e.tax_relief_approval_ref;
  relief_valid_from = e.tax_relief_valid_from;
  relief_valid_to = e.tax_relief_valid_to;
  approved_relief_monthly = e.tax_relief_monthly;
}

abbrev without_valid_award : List Award → RosterEmployee → DeductionContext → DeductionContext
without_valid_award [] e context = with_dated_fields e context
without_valid_award (a ∷ awards) e context = context

abbrev with_relief : Option Award → RosterEmployee → DeductionContext → DeductionContext
with_relief none e context = without_valid_award e.tax_relief_approvals e context
with_relief (some a) e context = with_award a context

unfoldable pub context_for_employee : Option RosterEmployee → Date → DeductionContext
unfolding latest_award
context_for_employee none on_date = record empty_context { period = some on_date }
context_for_employee (some e) on_date =
    with_relief (latest_award on_date e.tax_relief_approvals) e (evidence_of e on_date)

-- No award is valid on the date.
abbrev pub NoneValid : Date → List Award → Type 0
NoneValid on_date [] = Unit
NoneValid on_date (a ∷ awards) = (is_valid_on on_date a ≡ false) × NoneValid on_date awards

-- No award that is valid on the date was recorded after the one with this id.
abbrev pub NoneLater : Date → ℕ → List Award → Type 0
NoneLater on_date id [] = Unit
NoneLater on_date id (a ∷ awards) =
    (is_valid_on on_date a ≡ true → a.id ≤ id) × NoneLater on_date id awards

abbrev pub IsAward : Award → List Award → Type 0
IsAward a [] = ⊥
IsAward a (b ∷ awards) = (a ≡ b) ⊎ IsAward a awards

-- What the search found.
abbrev pub IsLatest : Date → List Award → Option Award → Type 0
IsLatest on_date awards none = NoneValid on_date awards
IsLatest on_date awards (some b) =
    IsAward b awards × (is_valid_on on_date b ≡ true) × NoneLater on_date b.id awards

NoneValid-later :
    (on_date : Date) (id : ℕ) (awards : List Award)
    → NoneValid on_date awards
    → NoneLater on_date id awards
NoneValid-later on_date id [] n = tt
NoneValid-later on_date id (a ∷ awards) (out, n) =
    (λ valid. cc, NoneValid-later on_date id awards n)

NoneLater-raise :
    (on_date : Date) {i j : ℕ} (awards : List Award)
    → i ≤ j
    → NoneLater on_date i awards
    → NoneLater on_date j awards
NoneLater-raise on_date [] h n = tt
NoneLater-raise on_date (a ∷ awards) h (under, n) =
    (λ valid. let u = under valid in omega arith, NoneLater-raise on_date awards h n)

-- One award more, in front.
newest :
    (on_date : Date) (a : Award) (awards : List Award) (later : Option Award)
    → IsLatest on_date awards later
    → is_valid_on on_date a ≡ true
    → IsLatest on_date
        (a ∷ awards)
        (elim later [ none ↦ some a | some b ↦ if ltb a.id b.id then some b else some a ])
newest on_date a awards none empty valid =
    (inl refl, valid, ((λ v. omega arith), NoneValid-later on_date a.id awards empty))
newest on_date a awards (some b) (member, holds, under) valid = elim (Bool-cases (ltb a.id b.id)) [
  | inl earlier ↦
      rw earlier
        (inr member, holds, ((λ v. let h = ltb→lt a.id b.id earlier in omega arith), under))
  | inr not_earlier ↦
      rw not_earlier
        (inl refl, valid, ((λ v. omega arith), NoneLater-raise on_date awards (ground arith) under))
]

older :
    (on_date : Date) (a : Award) (awards : List Award) (later : Option Award)
    → IsLatest on_date awards later
    → is_valid_on on_date a ≡ false
    → IsLatest on_date (a ∷ awards) later
older on_date a awards none empty out = (out, empty)
older on_date a awards (some b) (member, holds, under) out =
    (inr member, holds, ((λ valid. cc), under))

latest_award-IsLatest :
    (on_date : Date) (awards : List Award) → IsLatest on_date awards (latest_award on_date awards)
unfolding latest_award
latest_award-IsLatest on_date [] = tt
latest_award-IsLatest on_date (a ∷ awards) =
    let later = latest_award-IsLatest on_date awards in
    elim (Bool-cases (is_valid_on on_date a)) [
      | inl valid ↦ rw valid (newest on_date a awards _ later valid)
      | inr out ↦ rw out (older on_date a awards _ later out)
    ]

-- The relief that a context asks for.
abbrev pub relief_of : DeductionContext → Text × Option Date × Option Date × ℤ
relief_of c =
    (c.relief_approval_ref, c.relief_valid_from, c.relief_valid_to, c.approved_relief_monthly)

relieved :
    (e : RosterEmployee) (on_date : Date) (awards : List Award) (found : Option Award)
    → e.tax_relief_approvals ≡ awards
    → length awards ≢ 0
    → IsLatest on_date awards found
    → (NoneValid on_date awards
        × (relief_of (with_relief found e (evidence_of e on_date)) ≡ relief_of empty_context))
      ⊎ ((a : Award) × IsLatest on_date awards (some a)
          × (relief_of (with_relief found e (evidence_of e on_date))
              ≡ (a.reference, some a.valid_from, some a.valid_to, a.monthly_amount)))
relieved e on_date awards (some a) same has_awards latest = inr (a, latest, refl)
relieved e on_date [] none same has_awards empty = absurd (has_awards refl)
relieved e on_date (b ∷ awards) none same has_awards empty = inl (empty, rw same refl)

-- An employee who has awards is relieved by the last recorded one of those valid on the payroll's
-- date, with its reference, dates and amount (an amount of 0 revokes the earlier ones), and by
-- nothing where none is valid.
pub context_for_employee-IsLatest :
    (e : RosterEmployee) (on_date : Date)
    → length e.tax_relief_approvals ≢ 0
    → (NoneValid on_date e.tax_relief_approvals
        × (relief_of (context_for_employee (some e) on_date) ≡ relief_of empty_context))
      ⊎ ((a : Award) × IsLatest on_date e.tax_relief_approvals (some a)
          × (relief_of (context_for_employee (some e) on_date)
              ≡ (a.reference, some a.valid_from, some a.valid_to, a.monthly_amount)))
unfolding context_for_employee
context_for_employee-IsLatest e on_date has_awards =
    relieved e on_date e.tax_relief_approvals (latest_award on_date e.tax_relief_approvals) refl
      has_awards (latest_award-IsLatest on_date e.tax_relief_approvals)
