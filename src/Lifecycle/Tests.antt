-- ===== src/Lifecycle/Tests.antt =====
-- The routes on three stored runs.
use pmvp.Prelude.{ℕ, ◌≡◌, ◌+◌, refl, Bool, true, false, some, none, List, [], ◌∷◌, length}
use pmvp.Text.{strip, lower}
use pmvp.Status.{Run, draft, held, rejected, risk_held, is_pending, is_deletable}
use pmvp.Access.{normalise_role, member, in_group, approval_roles, can_approve_run, can_delete_run}
use pmvp.Lifecycle.{
  Records, done, find_run, approve, approve_run, delete_run, ordered_ids, bulk_apply, role_required,
  payroll_run_delete_blockers, payroll_run_record_blockers,
}
use pmvp.Lifecycle.Single.{approve_ignores_gate, delete_run_lem}
use pmvp.Lifecycle.Bulk.{AreDistinct, after_bulk, bulk_apply_lem}
use pmvp.Fixtures.{run_of, operator}

abbrev stored : List Run
stored =
    run_of 1 draft none 3 900
    ∷ run_of 2 held (some risk_held) 4 1200
    ∷ run_of 3 rejected none 3 900
    ∷ []

abbrev no_records : ℕ → Records
no_records id = record { vouchers = 0; remittances = 0; sent_deliveries = 0; linked_expenses = 0 }

abbrev pending_test : Run → Bool
pending_test run = is_pending run.status

found_1 : find_run 1 stored ≡ some (run_of 1 draft none 3 900)
unfolding find_run
found_1 = refl

found_2 : find_run 2 stored ≡ some (run_of 2 held (some risk_held) 4 1200)
unfolding find_run
found_2 = refl

found_3 : find_run 3 stored ≡ some (run_of 3 rejected none 3 900)
unfolding find_run
found_3 = refl

bulk_apply_lem_example :
    let (ok, skipped, after) = bulk_apply pending_test approve_run (1 ∷ 3 ∷ 1 ∷ 9 ∷ []) stored in
    (find_run 1 after
      ≡ after_bulk pending_test approve_run (λ run. refl) 1 (1 ∷ 3 ∷ 1 ∷ 9 ∷ []) stored)
    × (length ok + length skipped ≡ length (ordered_ids [] (1 ∷ 3 ∷ 1 ∷ 9 ∷ [])))
    × AreDistinct (ordered_ids [] (1 ∷ 3 ∷ 1 ∷ 9 ∷ []))
bulk_apply_lem_example =
    bulk_apply_lem pending_test approve_run (λ run. refl) 1 (1 ∷ 3 ∷ 1 ∷ 9 ∷ []) stored

operator_may_approve : in_group operator.role approval_roles ≡ true
unfolding in_group normalise_role member strip lower
operator_may_approve = refl

gate_refuses : can_approve_run operator.role (run_of 3 rejected none 3 900) ≡ false
unfolding can_approve_run in_group normalise_role member strip lower
gate_refuses = refl

approve_ignores_gate_example :
    ((approve operator 3 stored).0 ≡ done)
    × (find_run 3 (approve operator 3 stored).1 ≡ some (approve_run (run_of 3 rejected none 3 900)))
approve_ignores_gate_example =
    approve_ignores_gate operator 3 stored refl operator_may_approve found_3 gate_refuses

deletion_done : (delete_run no_records operator 1 stored).0 ≡ done
unfolding delete_run role_required find_run in_group normalise_role member strip lower
    can_delete_run payroll_run_delete_blockers payroll_run_record_blockers
deletion_done = refl

delete_run_lem_example :
    (is_deletable draft ≡ true)
    × ((no_records 1).vouchers ≡ 0)
    × ((no_records 1).remittances ≡ 0)
    × ((no_records 1).sent_deliveries ≡ 0)
    × ((no_records 1).linked_expenses ≡ 0)
    × (find_run 2 (delete_run no_records operator 1 stored).1 ≡ find_run 2 stored)
delete_run_lem_example = delete_run_lem no_records operator 1 2 stored found_1 deletion_done
