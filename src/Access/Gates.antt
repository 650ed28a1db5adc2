-- ===== src/Access/Gates.antt =====
-- Which roles the gates of app/permissions.py let move a run, and where they leave it with no way on.
use pmvp.Prelude.{◌≡◌, inl, inr, Bool, true, false, some, not, ◌&&◌, ◌==◌, arith}
use pmvp.Text.{Text}
use pmvp.Status.{Run, auto_accepted, approve, is_closed, is_pending, recommended_action_for}
use pmvp.Access.{
  normalise_role, member, md, is_tenant_role, can_operate_payroll, can_calculate_run,
  can_submit_run_for_approval, can_approve_run, can_reject_run, can_mark_run_processed,
  can_distribute_run, can_delete_run, in_group,
}
use pmvp.Access.Names.{tenant-cases}

-- The managing director may neither compute nor submit a run, may approve exactly the pending runs
-- that have workers, and may reject exactly the pending runs.
md_signs_only :
    (role : Text) (run : Run)
    → normalise_role role ≡ md
    → (can_calculate_run role run ≡ false)
      × (can_submit_run_for_approval role run ≡ false)
      × (can_approve_run role run ≡ (not (run.total_workers == 0) && is_pending run.status))
      × (can_reject_run role run ≡ is_pending run.status)
unfolding can_calculate_run can_submit_run_for_approval can_approve_run can_reject_run in_group
md_signs_only role run h = rw h (unfold member in ground arith)

-- The gates of permissions.py that compute, submit, approve, reject and delete a run refuse a closed
-- one (approved or processed) to every role. The statement is about these predicates, by which the
-- pages offer an action; a route that tests the role alone does not ask them.
pub closed_is_frozen :
    (role : Text) (run : Run)
    → is_closed run.status ≡ true
    → (can_calculate_run role run ≡ false)
      × (can_submit_run_for_approval role run ≡ false)
      × (can_approve_run role run ≡ false)
      × (can_reject_run role run ≡ false)
      × (can_delete_run role run ≡ false)
unfolding can_calculate_run can_submit_run_for_approval can_approve_run can_reject_run
    can_delete_run
closed_is_frozen role run h = ground arith

-- The recommended next step of an auto-accepted run is to approve it, and the gates of permissions.py
-- that approve, reject, submit, compute, close, distribute and delete a run refuse it to every role:
-- the pages offer no role the step that they recommend. The statement is about these predicates; a
-- route that tests the role alone does not ask them.
pub auto_accepted_is_stuck :
    (role : Text) (run : Run) (distributed : Bool)
    → run.status ≡ auto_accepted
    → (recommended_action_for run distributed ≡ some approve)
      × (can_approve_run role run ≡ false)
      × (can_reject_run role run ≡ false)
      × (can_submit_run_for_approval role run ≡ false)
      × (can_calculate_run role run ≡ false)
      × (can_mark_run_processed role run ≡ false)
      × (can_distribute_run role run ≡ false)
      × (can_delete_run role run ≡ false)
unfolding recommended_action_for can_calculate_run can_submit_run_for_approval can_approve_run
    can_reject_run can_delete_run can_mark_run_processed can_distribute_run
auto_accepted_is_stuck role run distributed h = ground arith

-- A role of the tenant plane passes no gate on an operator's run.
tenant_passes_no_gate :
    (role : Text) (run : Run)
    → is_tenant_role role ≡ true
    → (can_operate_payroll role ≡ false)
      × (can_calculate_run role run ≡ false)
      × (can_submit_run_for_approval role run ≡ false)
      × (can_approve_run role run ≡ false)
      × (can_reject_run role run ≡ false)
      × (can_mark_run_processed role run ≡ false)
      × (can_distribute_run role run ≡ false)
      × (can_delete_run role run ≡ false)
unfolding is_tenant_role can_operate_payroll can_calculate_run can_submit_run_for_approval
    can_approve_run can_reject_run can_mark_run_processed can_distribute_run can_delete_run
tenant_passes_no_gate role run h = elim (tenant-cases (normalise_role role) h) [
  | inl e ↦ rw e (unfold member in ground arith)
  | inr e ↦ rw e (unfold member in ground arith)
]
