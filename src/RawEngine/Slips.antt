-- ===== src/RawEngine/Slips.antt =====
-- The dictionary of payslips that the loop of app/raw_engine/run.py fills.
use pmvp.Prelude.{
  ◌≡◌, ◌∙◌, ap, ◌++◌, Bool-cases, refl, false, Option, none, some, List, [], ◌∷◌, inl, inr, arith,
  if◌then◌else◌,
}
use pmvp.Prelude.Int.{ℤ}
use pmvp.Prelude.Result.{Result, ok, raised, ok-injective, >>=-returns}
use pmvp.Text.{Text, text_eq, text_eq_refl, eq_of_text_eq}
use pmvp.Statutory.{Date, StatutoryRate}
use pmvp.Deductions.{PolicyError}
use pmvp.Deductions.Roster.{RosterEmployee}
use pmvp.Hourly.{roster_get}
use pmvp.RawEngine.Cleaning.{normalise_emp_id}
use pmvp.RawEngine.{Payslip, compute_payslip}
use pmvp.RawEngine.Seed.{SeedEmployee, build_inputs, or_refused, put_slip, compute_each}

-- The payslip that the dictionary holds for a staff id.
abbrev pub get_slip : Text → List (Text × Payslip) → Option Payslip
get_slip key [] = none
get_slip key ((k, slip) ∷ payslips) = if text_eq k key then some slip else get_slip key payslips

get_slip-put_slip :
    (key : Text) (slip : Payslip) (payslips : List (Text × Payslip))
    → get_slip key (put_slip key slip payslips) ≡ some slip
get_slip-put_slip key slip [] = rw (text_eq_refl key) refl
get_slip-put_slip key slip ((k, s) ∷ payslips) = ground (arith, get_slip-put_slip key slip payslips)

get_slip-put_other :
    (key other : Text) (slip : Payslip) (payslips : List (Text × Payslip))
    → text_eq other key ≡ false
    → get_slip key (put_slip other slip payslips) ≡ get_slip key payslips
get_slip-put_other key other slip [] apart = rw apart refl
get_slip-put_other key other slip ((k, s) ∷ payslips) apart = elim (Bool-cases (text_eq k other)) [
  | inl same ↦
      let k_apart : text_eq k key ≡ false = rw (eq_of_text_eq k other same) apart in
      rw (same, k_apart) refl
  | inr differ ↦ rw (differ, get_slip-put_other key other slip payslips apart) refl
]

-- No employee of a list has the staff id.
abbrev pub NoneNamed : Text → List SeedEmployee → Type 0
NoneNamed key [] = Unit
NoneNamed key (emp ∷ emps) = (text_eq emp.staff_id key ≡ false) × NoneNamed key emps

or_refused-ok :
    (result : Result PolicyError Payslip) {slip : Payslip}
    → or_refused result ≡ ok slip
    → result ≡ ok slip
or_refused-ok (raised e) h = cc
or_refused-ok (ok s) h = ap ok (ok-injective h)

module _ (rate : StatutoryRate) (used_of : Option RosterEmployee → ℤ) (roster : List RosterEmployee)
    (on_date : Option Date) where
  abbrev slip_of : SeedEmployee → Result PolicyError Payslip
  slip_of emp =
      let employee = roster_get (normalise_emp_id emp.staff_id) roster in
      compute_payslip rate (build_inputs emp (used_of employee) employee on_date)

  compute_each-keeps :
      (key : Text) (emps : List SeedEmployee) (before : List (Text × Payslip))
      {after : List (Text × Payslip)}
      → NoneNamed key emps
      → compute_each rate used_of roster on_date emps before ≡ ok after
      → get_slip key after ≡ get_slip key before
  unfolding compute_each
  compute_each-keeps key [] before n h = rw (← ok-injective h) refl
  compute_each-keeps key (emp ∷ emps) before (apart, n) h =
      let (slip, e, rest) = >>=-returns (or_refused (slip_of emp)) _ h in
      compute_each-keeps key emps (put_slip emp.staff_id slip before) n rest
      ∙ get_slip-put_other key emp.staff_id slip before apart

  pub compute_each-found :
      (earlier : List SeedEmployee) (emp : SeedEmployee) (later : List SeedEmployee)
      (before : List (Text × Payslip)) {after : List (Text × Payslip)}
      → NoneNamed emp.staff_id later
      → compute_each rate used_of roster on_date (earlier ++ (emp ∷ later)) before ≡ ok after
      → (slip : Payslip) × (slip_of emp ≡ ok slip) × (get_slip emp.staff_id after ≡ some slip)
  unfolding compute_each
  compute_each-found [] emp later before n h =
      let (slip, e, rest) = >>=-returns (or_refused (slip_of emp)) _ h in
      (
        slip,
        or_refused-ok (slip_of emp) e,
        compute_each-keeps emp.staff_id later (put_slip emp.staff_id slip before) n rest
            ∙ get_slip-put_slip emp.staff_id slip before,
      )
  compute_each-found (first ∷ earlier) emp later before n h =
      let (slip, e, rest) = >>=-returns (or_refused (slip_of first)) _ h in
      compute_each-found earlier emp later (put_slip first.staff_id slip before) n rest
