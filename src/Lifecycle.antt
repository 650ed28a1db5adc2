-- ===== src/Lifecycle.antt =====
-- The routes that move a payroll run through its life: app/payroll.py (submit, approve, reject,
-- mark processed, delete, and the bulk actions), app/oversight (risk check, release), with the guard
-- `role_required` of app/auth.py. A route takes the stored runs and returns them as it leaves them.
pub mod Single
pub mod Bulk
mod Tests
use pmvp.Prelude.{
  ℕ, Bool, true, false, not, ◌&&◌, ◌||◌, ◌==◌, Option, none, some, List, [], ◌∷◌, ◌++◌,
  if◌then◌else◌,
}
use pmvp.Text.{Text}
use pmvp.Status.{
  RunStatus, draft, approved, rejected, processed, pending_approval, held, auto_accepted, risk_held,
  risk_accepted, risk_released, RiskStatus, Run, is_deletable, is_risk_gated, is_held,
}
use pmvp.Access.{
  User, in_group, submit_approval_roles, approval_roles, mark_processed_roles, delete_roles,
}

-- The replies of a route: the page of another plane, no permission, no such run, a refusal with
-- its reasons, or the action done.
pub data Reply : Type 0 where
  wrong_plane forbidden not_found refused done : Reply

unfoldable pub find_run : ℕ → List Run → Option Run
find_run id [] = none
find_run id (run ∷ runs) = if run.id == id then some run else find_run id runs

-- The stored row with this id becomes `f row`.
unfoldable pub update_run : ℕ → (Run → Run) → List Run → List Run
update_run id f [] = []
update_run id f (run ∷ runs) = if run.id == id then f run ∷ runs else run ∷ update_run id f runs

abbrev pub Route : Type 0
Route = List Run → Reply × List Run

-- `role_required(*roles)`: the user is logged in. The branch for the archived role client_user, in no
-- group of roles, sends to the same page as the test of the group, and is that test here.
unfoldable pub role_required : User → List Text → Route → Route
unfolding in_group
role_required user roles view runs = elim user.client_company_id [
  | some company ↦ (wrong_plane, runs)
  | none ↦ if in_group user.role roles then view runs else (forbidden, runs)
]

-- `platform_required`
unfoldable pub platform_required : User → Route → Route
platform_required user view runs = elim user.client_company_id [
  | some company ↦ (wrong_plane, runs)
  | none ↦ view runs
]

-- `db.get_or_404`, and a mutation of the row, committed
unfoldable pub move_run : ℕ → (Run → Run) → Route
unfolding find_run update_run
move_run id f runs = elim (find_run id runs) [
  | none ↦ (not_found, runs)
  | some run ↦ (done, update_run id f runs)
]

abbrev pub with_status : RunStatus → Run → Run
with_status status run = record run { status = status }

unfoldable pub submit_for_approval : User → ℕ → Route
unfolding role_required move_run
submit_for_approval user id =
    role_required user submit_approval_roles (move_run id (with_status pending_approval))

-- `_approve_run` and `_reject_run`, on the column that the gates read
abbrev pub approve_run : Run → Run
approve_run = with_status approved

abbrev pub reject_run : Run → Run
reject_run = with_status rejected

unfoldable pub approve : User → ℕ → Route
unfolding role_required move_run
approve user id = role_required user approval_roles (move_run id approve_run)

unfoldable pub reject : User → ℕ → Route
unfolding role_required move_run
reject user id = role_required user approval_roles (move_run id reject_run)

unfoldable pub mark_paid : User → ℕ → Route
unfolding role_required move_run
mark_paid user id = role_required user mark_processed_roles (move_run id (with_status processed))

-- The records that block a purge, as `payroll_run_record_blockers` counts them.
pub record Records : Type 0 where
  pub vouchers : ℕ
  pub remittances : ℕ
  pub sent_deliveries : ℕ
  pub linked_expenses : ℕ

pub data Blocker : Type 0 where
  status_blocker : RunStatus → Blocker
  voucher_blocker : Blocker
  remittance_blocker : ℕ → Blocker
  sent_blocker : ℕ → Blocker
  expense_blocker : ℕ → Blocker

abbrev block_if : Bool → Blocker → List Blocker
block_if test b = if test then b ∷ [] else []

unfoldable pub payroll_run_record_blockers : Records → List Blocker
payroll_run_record_blockers r =
    block_if (not (r.vouchers == 0)) voucher_blocker
    ++ (block_if (not (r.remittances == 0)) (remittance_blocker r.remittances)
        ++ (block_if (not (r.sent_deliveries == 0)) (sent_blocker r.sent_deliveries)
            ++ block_if (not (r.linked_expenses == 0)) (expense_blocker r.linked_expenses)))

unfoldable pub payroll_run_delete_blockers : Run → Records → List Blocker
unfolding payroll_run_record_blockers
payroll_run_delete_blockers run records =
    block_if (not (is_deletable run.status)) (status_blocker run.status)
    ++ payroll_run_record_blockers records

-- `purge_payroll_run`, on the table of runs
unfoldable pub purge_run : ℕ → List Run → List Run
purge_run id [] = []
purge_run id (run ∷ runs) = if run.id == id then purge_run id runs else run ∷ purge_run id runs

abbrev has_blockers : List Blocker → Bool
has_blockers [] = false
has_blockers (b ∷ bs) = true

-- `records` is the database's answer about each run.
unfoldable pub delete_run : (ℕ → Records) → User → ℕ → Route
unfolding role_required find_run payroll_run_delete_blockers purge_run
delete_run records user id = role_required user delete_roles (λ runs. elim (find_run id runs) [
  | none ↦ (not_found, runs)
  | some run ↦
      if has_blockers (payroll_run_delete_blockers run (records id))
      then (refused, runs)
      else (done, purge_run id runs)
])

-- `apply_risk_gate` and the status move of `risk_check`; `tripped` is the verdict of app/risk.py.
abbrev pub park_run : Bool → Run → Run
park_run tripped run = record run {
  status = if tripped then held else auto_accepted;
  risk_status = some (if tripped then risk_held else risk_accepted);
}

unfoldable pub risk_check : (Run → Bool) → User → ℕ → Route
unfolding platform_required find_run update_run
risk_check tripped user id = platform_required user (λ runs. elim (find_run id runs) [
  | none ↦ (not_found, runs)
  | some run ↦
      if is_risk_gated run.status
      then (done, update_run id (park_run (tripped run)) runs)
      else (refused, runs)
])

-- `release_risk_hold`
abbrev pub release_verdict : Option RiskStatus → Option RiskStatus
release_verdict (some risk_held) = some risk_released
release_verdict other = other

abbrev pub release_run : Run → Run
release_run run = record run {
  status = pending_approval;
  risk_status = release_verdict run.risk_status;
}

unfoldable pub release_hold : User → ℕ → Route
unfolding platform_required find_run update_run
release_hold user id = platform_required user (λ runs. elim (find_run id runs) [
  | none ↦ (not_found, runs)
  | some run ↦
      if is_held run.status then (done, update_run id release_run runs) else (refused, runs)
])

-- The de-duplication of the ids of a bulk action, in order. An id that is no number has been left
-- out already.
unfoldable pub contains : ℕ → List ℕ → Bool
contains id [] = false
contains id (x ∷ seen) = x == id || contains id seen

unfoldable pub ordered_ids : List ℕ → List ℕ → List ℕ
unfolding contains
ordered_ids seen [] = []
ordered_ids seen (id ∷ ids) =
    let rest = ordered_ids (if contains id seen then seen else id ∷ seen) ids in
    if contains id seen then rest else id ∷ rest

-- Does the run exist, and may the action be taken on it?
abbrev pub passes : (Run → Bool) → Option Run → Bool
passes eligible none = false
passes eligible (some run) = eligible run

-- The loop of `_bulk_apply`: (ids done, ids skipped, the runs).
unfoldable pub bulk_from :
    (Run → Bool) → (Run → Run) → List ℕ → List Run → List ℕ × List ℕ × List Run
unfolding find_run update_run
bulk_from eligible action [] runs = ([], [], runs)
bulk_from eligible action (id ∷ ids) runs =
    let fit = passes eligible (find_run id runs) in
    let (ok, skipped, after) =
      bulk_from eligible action ids (if fit then update_run id action runs else runs) in
    if fit then (id ∷ ok, skipped, after) else (ok, id ∷ skipped, after)

unfoldable pub bulk_apply :
    (Run → Bool) → (Run → Run) → List ℕ → List Run → List ℕ × List ℕ × List Run
unfolding ordered_ids bulk_from
bulk_apply eligible action run_ids runs = bulk_from eligible action (ordered_ids [] run_ids) runs
