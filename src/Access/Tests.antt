-- ===== src/Access/Tests.antt =====
-- The gates and the role names on concrete roles and runs.
use pmvp.Prelude.{◌≡◌, refl, true, false, some, none}
use pmvp.Text.{Text, codes, strip, lower}
use pmvp.Status.{Run, auto_accepted, processed, draft, approve, recommended_action_for}
use pmvp.Access.{
  normalise_role, member, md, is_tenant_role, can_calculate_run, can_submit_run_for_approval,
  can_approve_run, can_reject_run, can_mark_run_processed, can_distribute_run, can_delete_run,
}
use pmvp.Access.Gates.{closed_is_frozen, auto_accepted_is_stuck}
use pmvp.Fixtures.{run_of}

abbrev draft_run : Run
draft_run = run_of 1 draft none 3 900

abbrev processed_run : Run
processed_run = run_of 2 processed none 3 900

abbrev accepted_run : Run
accepted_run = run_of 3 auto_accepted none 3 900

closed_is_frozen_example :
    (can_calculate_run md processed_run ≡ false)
    × (can_submit_run_for_approval md processed_run ≡ false)
    × (can_approve_run md processed_run ≡ false)
    × (can_reject_run md processed_run ≡ false)
    × (can_delete_run md processed_run ≡ false)
closed_is_frozen_example = closed_is_frozen md processed_run refl

auto_accepted_is_stuck_example :
    (recommended_action_for accepted_run false ≡ some approve)
    × (can_approve_run md accepted_run ≡ false)
    × (can_reject_run md accepted_run ≡ false)
    × (can_submit_run_for_approval md accepted_run ≡ false)
    × (can_calculate_run md accepted_run ≡ false)
    × (can_mark_run_processed md accepted_run ≡ false)
    × (can_distribute_run md accepted_run ≡ false)
    × (can_delete_run md accepted_run ≡ false)
auto_accepted_is_stuck_example = auto_accepted_is_stuck md accepted_run false refl

abbrev preparer : Text
preparer = codes "Client_Preparer"

preparer_is_tenant : is_tenant_role preparer ≡ true
unfolding is_tenant_role normalise_role member strip lower
preparer_is_tenant = refl
