-- ===== src/Lifecycle/Single.antt =====
-- What a route on one run changes, and what it leaves alone.
use mathlib.Core.Option
use pmvp.Prelude.{
  ℕ, ◌≡◌, refl, ◌⊎◌, inl, inr, Bool, true, false, none, some, ◌==◌, List, [], ◌∷◌, arith,
  if◌then◌else◌, Bool-cases,
}
use pmvp.Text.{Text}
use pmvp.Status.{Run, is_risk_gated, is_deletable, is_held}
use pmvp.Access.{User, in_group, approval_roles, can_approve_run}
use pmvp.Lifecycle.{
  done, Route, find_run, update_run, role_required, platform_required, move_run,
  submit_for_approval, approve, approve_run, reject, mark_paid, Records, purge_run, delete_run,
  park_run, risk_check, release_run, release_hold,
}

-- A run keeps its id.
abbrev pub KeepsId : (Run → Run) → Type 0
KeepsId f = (run : Run) → (f run).id ≡ run.id

pub find_run-update_run :
    (id j : ℕ) (f : Run → Run) (runs : List Run)
    → KeepsId f
    → find_run j (update_run id f runs)
      ≡ (if j == id then Option.map f (find_run j runs) else find_run j runs)
unfolding find_run update_run
find_run-update_run id j f [] k = ground arith
find_run-update_run id j f (run ∷ runs) k = ground (arith, k run, find_run-update_run id j f runs k)

find_run-id : (id : ℕ) (runs : List Run) {run : Run} → find_run id runs ≡ some run → run.id ≡ id
unfolding find_run
find_run-id id [] h = cc
find_run-id id (r ∷ runs) {run} h = ground (arith, find_run-id id runs {run = run})

find_run-purge_run :
    (id j : ℕ) (runs : List Run)
    → find_run j (purge_run id runs) ≡ (if j == id then none else find_run j runs)
unfolding find_run purge_run
find_run-purge_run id j [] = ground arith
find_run-purge_run id j (run ∷ runs) = ground (arith, find_run-purge_run id j runs)

-- A route that does not reply `done` has stored nothing.
abbrev pub StoresOnlyWhenDone : Route → Type 0
StoresOnlyWhenDone route = (runs : List Run) → ((route runs).0 ≡ done) ⊎ ((route runs).1 ≡ runs)

move_run-stores : (id : ℕ) (f : Run → Run) → StoresOnlyWhenDone (move_run id f)
unfolding move_run
move_run-stores id f runs = ground arith

role_required-stores :
    (user : User) (roles : List Text) (view : Route)
    → StoresOnlyWhenDone view
    → StoresOnlyWhenDone (role_required user roles view)
unfolding role_required
role_required-stores user roles view h runs = ground (arith, h runs)

-- Each of the seven routes that move or delete a run either replies `done` or leaves every stored
-- run as it was: a user of the wrong plane or role, a missing run and a refusal change nothing.
routes_are_atomic :
    (records : ℕ → Records) (tripped : Run → Bool) (user : User) (id : ℕ)
    → StoresOnlyWhenDone (submit_for_approval user id)
      × StoresOnlyWhenDone (approve user id)
      × StoresOnlyWhenDone (reject user id)
      × StoresOnlyWhenDone (mark_paid user id)
      × StoresOnlyWhenDone (delete_run records user id)
      × StoresOnlyWhenDone (risk_check tripped user id)
      × StoresOnlyWhenDone (release_hold user id)
unfolding submit_for_approval approve reject mark_paid delete_run risk_check release_hold
routes_are_atomic records tripped user id = (
  λ runs. ground arith,
  λ runs. ground arith,
  λ runs. ground arith,
  λ runs. ground arith,
  λ runs. ground arith,
  λ runs. ground arith,
  λ runs. ground arith,
)

-- What `update_run` leaves to be found, where the run is there.
update_found :
    (id j : ℕ) (f : Run → Run) (runs : List Run) {run : Run}
    → KeepsId f
    → find_run id runs ≡ some run
    → find_run j (update_run id f runs) ≡ (if j == id then some (f run) else find_run j runs)
update_found id j f runs k h = rw (find_run-update_run id j f runs k) (elim (Bool-cases (j == id)) [
  | inl e ↦ let same : j ≡ id = ground arith in rw (e, same, h) refl
  | inr e ↦ rw e refl
])

-- An unchanged store, read in the form of the law above.
find_unchanged :
    (id j : ℕ) (runs : List Run) {run : Run}
    → find_run id runs ≡ some run
    → find_run j runs ≡ (if j == id then some run else find_run j runs)
find_unchanged id j runs h = elim (Bool-cases (j == id)) [
  | inl e ↦ let same : j ≡ id = ground arith in rw (e, same, h) refl
  | inr e ↦ rw e refl
]

-- For a user of the operator's plane, the risk check of a stored run parks it if its status is one
-- that the gate may score: held with the verdict held if a rule tripped, auto-accepted with the
-- verdict accepted otherwise. A run of any other status and every other run stay as they were.
risk_check_lem :
    (tripped : Run → Bool) (user : User) (id j : ℕ) (runs : List Run) {run : Run}
    → user.client_company_id ≡ none
    → find_run id runs ≡ some run
    → find_run j (risk_check tripped user id runs).1 ≡ (
        if j == id
        then some (if is_risk_gated run.status then park_run (tripped run) run else run)
        else find_run j runs)
unfolding risk_check platform_required
risk_check_lem tripped user id j runs {run} p h =
    rw (p, platform_required, h)
      (elim (Bool-cases (is_risk_gated run.status)) [
        | inl e ↦ rw e (update_found id j (park_run (tripped run)) runs (λ r. refl) h)
        | inr e ↦ rw e (find_unchanged id j runs h)
      ])

-- For a user of the operator's plane, the release of a stored run moves it to pending approval if
-- it is held, with the verdict held becoming released; a run that is not held and every other run
-- stay as they were.
release_hold_lem :
    (user : User) (id j : ℕ) (runs : List Run) {run : Run}
    → user.client_company_id ≡ none
    → find_run id runs ≡ some run
    → find_run j (release_hold user id runs).1 ≡ (
        if j == id
        then some (if is_held run.status then release_run run else run)
        else find_run j runs)
unfolding release_hold platform_required
release_hold_lem user id j runs {run} p h =
    rw (p, platform_required, h)
      (elim (Bool-cases (is_held run.status)) [
        | inl e ↦ rw e (update_found id j release_run runs (λ r. refl) h)
        | inr e ↦ rw e (find_unchanged id j runs h)
      ])

-- The approval route tests the role alone: a user of the operator's plane with an approval role
-- approves a stored run that `can_approve_run` refuses.
pub approve_ignores_gate :
    (user : User) (id : ℕ) (runs : List Run) {run : Run}
    → user.client_company_id ≡ none
    → in_group user.role approval_roles ≡ true
    → find_run id runs ≡ some run
    → can_approve_run user.role run ≡ false
    → ((approve user id runs).0 ≡ done)
      × (find_run id (approve user id runs).1 ≡ some (approve_run run))
unfolding approve role_required move_run
approve_ignores_gate user id runs {run} p r h gate =
    ground (arith, update_found id id approve_run runs {run = run} (λ run. refl) h)

-- When the deletion of a stored run replies done, its status allows it and no voucher, remittance,
-- sent payslip or linked expense hangs on it; the run is then gone, and every other run is as it
-- was.
pub delete_run_lem :
    (records : ℕ → Records) (user : User) (id j : ℕ) (runs : List Run) {run : Run}
    → find_run id runs ≡ some run
    → (delete_run records user id runs).0 ≡ done
    → (is_deletable run.status ≡ true)
      × ((records id).vouchers ≡ 0)
      × ((records id).remittances ≡ 0)
      × ((records id).sent_deliveries ≡ 0)
      × ((records id).linked_expenses ≡ 0)
      × (find_run j (delete_run records user id runs).1
          ≡ (if j == id then none else find_run j runs))
unfolding delete_run
delete_run_lem records user id j runs {run} h d = ground (arith, find_run-purge_run id j runs)
