-- ===== src/Hourly/Workers.antt =====
-- The workers that the loop over the imported hours finds (app/payroll_calculations/hourly.py), and
-- their pay.
use pmvp.Prelude.{
  ◌+◌, ◌≡◌, refl, sym, Bool, false, ◌||◌, Option, none, some, List, [], ◌∷◌, ◌++◌, map, Bool-cases,
  inl, inr, arith,
}
use mathlib.Core.Path.{subst}
use pmvp.Prelude.Int.{ℤ, pos, ◌+ℤ◌, int_laws}
use pmvp.Prelude.Result.{ok, ok-injective, >>=-returns}
use pmvp.Text.{Text, text_eq, text_eq_sym, eq_of_text_eq}
use pmvp.Statutory.{StatutoryRate}
use pmvp.Deductions.{DeductionAdjustments, deduction_adjustments}
use pmvp.RawEngine.Rates.{Category, basic, overtime, bonus, allowance, other_category, pay_for}
use pmvp.Hourly.{
  RawPayEntry, WageRateProfile, HourlyResult, HourlyPay, RunData, add_to_field, add_entry,
  priced_line, take_entry, profile_for, new_result, record_entry, gather_entries, settle_hourly,
  apply_statutory, apply_all, used_ytd, calculate_run,
}
use pmvp.Hourly.Lines.{LinesAdd, AllResults, gather_entries-LinesAdd}

-- The workers with a result, by their keys.
abbrev pub has_key : Text → List HourlyResult → Bool
has_key key [] = false
has_key key (r ∷ results) = text_eq r.employee_id_str key || has_key key results

abbrev pub has_entry : Text → List RawPayEntry → Bool
has_entry key [] = false
has_entry key (entry ∷ entries) = text_eq entry.employee_id_str key || has_entry key entries

-- One result for each worker.
abbrev pub DistinctKeys : List HourlyResult → Type 0
DistinctKeys [] = Unit
DistinctKeys (r ∷ results) = (has_key r.employee_id_str results ≡ false) × DistinctKeys results

add_entry-key :
    (entry : RawPayEntry) (o : Option WageRateProfile) (r : HourlyResult)
    → (add_entry entry o r).employee_id_str ≡ r.employee_id_str
add_entry-key entry none r = refl
add_entry-key entry (some w) r = field w.category
  where
    field :
        (c : Category)
        → (add_to_field c (pay_for entry.hours w.hourly_rate) (record r {
          lines = r.lines ++ (priced_line entry w ∷ []);
          gross_pay = r.gross_pay + pay_for entry.hours w.hourly_rate;
        })).employee_id_str
          ≡ r.employee_id_str
    field basic = refl
    field overtime = refl
    field bonus = refl
    field allowance = refl
    field other_category = refl

take_entry-key :
    (run : RunData) (entry : RawPayEntry) (r : HourlyResult)
    → (take_entry run entry r).employee_id_str ≡ r.employee_id_str
take_entry-key run entry r =
    add_entry-key entry (profile_for r.employee_id entry.pay_code run.profiles) r

new_result-key :
    (run : RunData) (entry : RawPayEntry)
    → (take_entry run entry (new_result run entry.employee_id_str)).employee_id_str
      ≡ entry.employee_id_str
unfolding new_result
new_result-key run entry = take_entry-key run entry (new_result run entry.employee_id_str)

has_key-record_entry :
    (key : Text) (run : RunData) (entry : RawPayEntry) (results : List HourlyResult)
    → has_key key (record_entry run entry results)
      ≡ (text_eq entry.employee_id_str key || has_key key results)
unfolding record_entry
has_key-record_entry key run entry [] = rw (new_result-key run entry) refl
has_key-record_entry key run entry (r ∷ results) =
    elim (Bool-cases (text_eq r.employee_id_str entry.employee_id_str)) [
      | inl same ↦
          let e = eq_of_text_eq r.employee_id_str entry.employee_id_str same in
          rw (record_entry, same, take_entry-key run entry r, ← e) (ground arith)
      | inr other ↦
          rw (record_entry, other) (ground (arith, has_key-record_entry key run entry results))
    ]

record_entry-DistinctKeys :
    (run : RunData) (entry : RawPayEntry) (results : List HourlyResult)
    → DistinctKeys results
    → DistinctKeys (record_entry run entry results)
unfolding record_entry
record_entry-DistinctKeys run entry [] distinct = (refl, tt)
record_entry-DistinctKeys run entry (r ∷ results) (fresh, distinct) =
    elim (Bool-cases (text_eq r.employee_id_str entry.employee_id_str)) [
      | inl same ↦ rw (record_entry, same, take_entry-key run entry r) (fresh, distinct)
      | inr other ↦
          let turned = text_eq_sym r.employee_id_str entry.employee_id_str in
          let keys = has_key-record_entry r.employee_id_str run entry results in
          rw (record_entry, other)
            (ground arith, record_entry-DistinctKeys run entry results distinct)
    ]

gather_entries-DistinctKeys :
    (run : RunData) (entries : List RawPayEntry) (results : List HourlyResult)
    → DistinctKeys results
    → DistinctKeys (gather_entries run entries results)
unfolding gather_entries
gather_entries-DistinctKeys run [] results distinct = distinct
gather_entries-DistinctKeys run (entry ∷ entries) results distinct =
    gather_entries-DistinctKeys run entries (record_entry run entry results)
      (record_entry-DistinctKeys run entry results distinct)

has_key-gather_entries :
    (key : Text) (run : RunData) (entries : List RawPayEntry) (results : List HourlyResult)
    → has_key key (gather_entries run entries results)
      ≡ (has_key key results || has_entry key entries)
unfolding gather_entries
has_key-gather_entries key run [] results = ground arith
has_key-gather_entries key run (entry ∷ entries) results =
    let rest = has_key-gather_entries key run entries (record_entry run entry results) in
    ground (arith, has_key-record_entry key run entry results)

abbrev pub results_of : List HourlyPay → List HourlyResult
results_of pays = map (λ h. h.result) pays

-- Every amount is a line's, and what is not deducted is paid.
abbrev pub AllPaid : List HourlyPay → Type 0
AllPaid [] = Unit
AllPaid (h ∷ pays) =
    (LinesAdd h.result × (h.net_pay +ℤ h.total_deductions ≡ pos h.result.gross_pay)) × AllPaid pays

settle_hourly-result :
    (rate : StatutoryRate) (used : ℤ) (r : HourlyResult) (a : DeductionAdjustments)
    → (settle_hourly rate used r a).result ≡ r
unfolding settle_hourly
settle_hourly-result rate used r a = refl

settle_hourly-net :
    (rate : StatutoryRate) (used : ℤ) (r : HourlyResult) (a : DeductionAdjustments)
    → let h = settle_hourly rate used r a in
      h.net_pay +ℤ h.total_deductions ≡ pos h.result.gross_pay
unfolding settle_hourly
settle_hourly-net rate used r a =
    let total = (settle_hourly rate used r a).total_deductions in
    let gross = pos r.gross_pay in omega int_laws

apply_statutory-Settled :
    (rate : StatutoryRate) (run : RunData) (r : HourlyResult) {pay : HourlyPay}
    → apply_statutory rate run r ≡ ok pay
    → (a : DeductionAdjustments) × (settle_hourly rate (used_ytd run r) r a ≡ pay)
unfolding apply_statutory
apply_statutory-Settled rate run r h =
    let (a, adjusted, same) =
      >>=-returns
        (deduction_adjustments rate (pos r.basic_wage) (pos r.overtime_pay) r.pf_fund_employee
          r.pf_fund_employer r.tax_relief_monthly r.context)
        _ h in
    (a, ok-injective same)

apply_statutory-paid :
    (rate : StatutoryRate) (run : RunData) (r : HourlyResult) {pay : HourlyPay}
    → apply_statutory rate run r ≡ ok pay
    → (pay.result ≡ r) × (pay.net_pay +ℤ pay.total_deductions ≡ pos pay.result.gross_pay)
apply_statutory-paid rate run r h =
    let (a, same) = apply_statutory-Settled rate run r h in
    rw (← same) (settle_hourly-result rate (used_ytd run r) r a, settle_hourly-net rate _ r a)

apply_all-AllPaid :
    (rate : StatutoryRate) (run : RunData) (results : List HourlyResult) {pays : List HourlyPay}
    → AllResults LinesAdd results
    → apply_all rate run results ≡ ok pays
    → AllPaid pays × (results_of pays ≡ results)
unfolding apply_all
apply_all-AllPaid rate run [] adds h = rw (← ok-injective h) (tt, refl)
apply_all-AllPaid rate run (r ∷ results) (add, adds) h =
    let (pay, e, h1) = >>=-returns (apply_statutory rate run r) _ h in
    let (pays, es, h2) = >>=-returns (apply_all rate run results) _ h1 in
    let (mine, balance) = apply_statutory-paid rate run r e in
    let (paid, kept) = apply_all-AllPaid rate run results adds es in
    rw (← ok-injective h2) (((subst LinesAdd (sym mine) add, balance), paid), rw (mine, kept) refl)

-- A raw run that is costed has one result for each worker with imported hours and no other. Each
-- bucket of a worker is the sum of the amounts of its lines (an unknown category counts as an
-- allowance), gross pay is the sum of the buckets, and net pay and deductions together are gross
-- pay.
pub calculate_run_lem :
    (rate : StatutoryRate) (run : RunData) (entries : List RawPayEntry) {pays : List HourlyPay}
    → calculate_run rate run entries ≡ ok pays
    → AllPaid pays
      × DistinctKeys (results_of pays)
      × ((key : Text) → has_key key (results_of pays) ≡ has_entry key entries)
unfolding calculate_run
calculate_run_lem rate run entries h =
    let (paid, same) =
      apply_all-AllPaid rate run (gather_entries run entries [])
        (gather_entries-LinesAdd run entries [] tt) h in
    (
      paid,
      rw same (gather_entries-DistinctKeys run entries [] tt),
      λ key. rw same (has_key-gather_entries key run entries []),
    )
