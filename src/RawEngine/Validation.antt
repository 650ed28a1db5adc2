-- ===== src/RawEngine/Validation.antt =====
-- app/raw_engine/validation.py: what must hold of a raw run before it is saved. Hours are hundredths
-- of an hour; an issue is its code with what it is about, its severity follows from the code.
use pmvp.Prelude.{
  ℕ, ◌+◌, ◌≡◌, refl, Bool, true, false, not, ◌&&◌, ◌||◌, ltb, Option, none, some, List, [], ◌∷◌,
  ◌++◌, arith, if◌then◌else◌,
}
use pmvp.Prelude.Int.{ℤ, pos, ◌+ℤ◌, ltb_ℤ, +ℤ_parts}
use pmvp.Text.{Text}
use pmvp.RawEngine.Consolidation.{
  HoursRow, Bucket, consolidate_hours, total_hours, raw_hours, blank_hours,
  total_hours-consolidate_hours,
}
use pmvp.RawEngine.Union.{distribute_union_dues, total_payout, distribute_union_dues-ties}

pub data Severity : Type 0 where
  block flag warning : Severity

pub data Field : Type 0 where
  gross net : Field

-- The issues that the rules raise.
pub data ValidationIssue : Type 0 where
  hours_reconciliation icu_tie_out : ValidationIssue
  nonmember_icu unknown_staff_id : Text → ValidationIssue
  recompute_drift_of : Text → Field → ValidationIssue

abbrev pub severity : ValidationIssue → Severity
severity hours_reconciliation = block
severity icu_tie_out = block
severity (nonmember_icu staff) = flag
severity (unknown_staff_id staff) = block
severity (recompute_drift_of staff f) = warning

abbrev pub issue_if : Bool → ValidationIssue → List ValidationIssue
issue_if test issue = if test then issue ∷ [] else []

-- `reconcile_hours`; `abs(raw - cons) > 0.01`
unfoldable pub reconcile_hours : List HoursRow → List (Text × Bucket) → List ValidationIssue
reconcile_hours rows consolidated =
    let raw = raw_hours rows in
    let cons = total_hours consolidated in
    issue_if (ltb (cons + 1) raw || ltb (raw + 1) cons) hours_reconciliation

-- `check_icu_tie_out`, on the cascade of the total
unfoldable pub check_icu_tie_out : ℕ → List ValidationIssue
check_icu_tie_out icu_total =
    let payout = total_payout (distribute_union_dues icu_total) in
    issue_if (ltb_ℤ (pos icu_total +ℤ pos 1) payout || ltb_ℤ (payout +ℤ pos 1) (pos icu_total))
      icu_tie_out

-- The columns of an item, and what the source file gives for its totals.
pub record CheckedItem : Type 0 where
  pub staff_id : Text
  pub icu_dues : ℕ
  pub is_member : Bool
  pub gross_pay : ℤ
  pub net_pay : ℤ
  pub source_gross : Option ℤ
  pub source_net : Option ℤ

unfoldable pub flag_nonmember_icu : List CheckedItem → List ValidationIssue
flag_nonmember_icu [] = []
flag_nonmember_icu (i ∷ items) =
    issue_if (ltb 0 i.icu_dues && not i.is_member) (nonmember_icu i.staff_id)
    ++ flag_nonmember_icu items

unfoldable pub block_unknown_staff : List Text → List ValidationIssue
block_unknown_staff [] = []
block_unknown_staff (staff ∷ blocked) = unknown_staff_id staff ∷ block_unknown_staff blocked

-- `abs(computed - source) > 0.02`
abbrev pub drifts : ℤ → Option ℤ → Bool
drifts computed none = false
drifts computed (some source) = ltb_ℤ (source +ℤ pos 2) computed || ltb_ℤ (computed +ℤ pos 2) source

unfoldable pub recompute_drift : List CheckedItem → List ValidationIssue
recompute_drift [] = []
recompute_drift (i ∷ items) =
    issue_if (drifts i.gross_pay i.source_gross) (recompute_drift_of i.staff_id gross)
    ++ issue_if (drifts i.net_pay i.source_net) (recompute_drift_of i.staff_id net)
    ++ recompute_drift items

abbrev pub total_icu : List CheckedItem → ℕ
total_icu [] = 0
total_icu (i ∷ items) = i.icu_dues + total_icu items

-- The optional reconciliation of `validate_run`.
abbrev pub reconciliation : Option (List HoursRow × List (Text × Bucket)) → List ValidationIssue
reconciliation none = []
reconciliation (some (rows, consolidated)) = reconcile_hours rows consolidated

unfoldable pub validate_run :
    List CheckedItem
    → Option (List HoursRow × List (Text × Bucket))
    → List Text
    → List ValidationIssue
unfolding reconcile_hours check_icu_tie_out flag_nonmember_icu block_unknown_staff recompute_drift
validate_run items hours blocked =
    reconciliation hours
    ++ check_icu_tie_out (total_icu items)
    ++ flag_nonmember_icu items
    ++ block_unknown_staff blocked
    ++ recompute_drift items

abbrev pub is_block : ValidationIssue → Bool
is_block issue = elim (severity issue) [ block ↦ true | _ ↦ false ]

-- `is_savable`
unfoldable pub is_savable : List ValidationIssue → Bool
is_savable [] = true
is_savable (issue ∷ issues) = not (is_block issue) && is_savable issues

is_savable-append :
    (xs ys : List ValidationIssue) → is_savable (xs ++ ys) ≡ (is_savable xs && is_savable ys)
unfolding is_savable
is_savable-append [] ys = refl
is_savable-append (x ∷ xs) ys = ground (arith, is_savable-append xs ys)

flags_only : (items : List CheckedItem) → is_savable (flag_nonmember_icu items) ≡ true
unfolding is_savable flag_nonmember_icu
flags_only [] = refl
flags_only (i ∷ items) = ground (arith, flags_only items)

warnings_only : (items : List CheckedItem) → is_savable (recompute_drift items) ≡ true
unfolding is_savable recompute_drift
warnings_only [] = refl
warnings_only (i ∷ items) = ground (arith, warnings_only items)

-- The cascade never fails to tie out.
tie_out-none : (total : ℕ) → check_icu_tie_out total ≡ []
unfolding check_icu_tie_out
tie_out-none total =
    rw ((distribute_union_dues-ties total).0) (ground (arith, +ℤ_parts (pos total) (pos 1)))

abbrev pub is_none_blocked : List Text → Bool
is_none_blocked [] = true
is_none_blocked (staff ∷ blocked) = false

blocked_savable :
    (blocked : List Text) → is_savable (block_unknown_staff blocked) ≡ is_none_blocked blocked
unfolding is_savable block_unknown_staff
blocked_savable [] = refl
blocked_savable (staff ∷ blocked) = refl

reconciled_savable :
    (rows : List HoursRow)
    → is_savable (reconcile_hours rows (consolidate_hours rows)) ≡ not (ltb 1 (blank_hours rows))
unfolding is_savable reconcile_hours
reconciled_savable rows = ground (arith, total_hours-consolidate_hours rows)

-- A raw run that is validated against its own rows may be saved exactly if no worker is unknown and
-- the rows without a worker or an element hold at most a hundredth of an hour. Union dues never
-- stop a run, and neither do dues of a non-member or a drift from the source.
pub validate_run-is_savable :
    (items : List CheckedItem) (rows : List HoursRow) (blocked : List Text)
    → is_savable (validate_run items (some (rows, consolidate_hours rows)) blocked)
      ≡ (not (ltb 1 (blank_hours rows)) && is_none_blocked blocked)
unfolding validate_run
validate_run-is_savable items rows blocked =
    let unknown = block_unknown_staff blocked in
    let drift = recompute_drift items in
    let flags = flag_nonmember_icu items in
    let hours = reconcile_hours rows (consolidate_hours rows) in
    let reported : is_savable (hours ++ [] ++ flags ++ unknown ++ drift)
        ≡ (not (ltb 1 (blank_hours rows)) && is_none_blocked blocked) =
      rw
        (
          is_savable-append (hours ++ [] ++ flags ++ unknown) drift,
          is_savable-append (hours ++ [] ++ flags) unknown,
          is_savable-append (hours ++ []) flags,
          is_savable-append hours [],
          flags_only items,
          warnings_only items,
          blocked_savable blocked,
          reconciled_savable rows,
        )
        (unfold is_savable in ground arith) in
    rw (tie_out-none (total_icu items)) reported
