-- ===== src/Status.antt =====
-- app/payroll_status.py: the statuses of a payroll run, their groups, the lifecycle stepper and the
-- recommended next step.
pub mod Steps
mod Tests
use pmvp.Prelude.{
  ℕ, suc, ◌+◌, Bool, true, false, not, ◌&&◌, ◌||◌, ◌==◌, ltb, leb, Option, none, some, List, [],
  ◌∷◌, if◌then◌else◌, length,
}
use pmvp.Prelude.Int.{ℤ, pos, ltb_ℤ}

pub data RunStatus : Type 0 where
  draft previewed pending_approval approved rejected processed : RunStatus
  submitted held auto_accepted : RunStatus

pub data RiskStatus : Type 0 where
  risk_held risk_accepted risk_released : RiskStatus

RunStatus-discrete : Discrete RunStatus
RunStatus-discrete = hlevel

-- RISK_GATED_STATUSES
abbrev pub is_risk_gated : RunStatus → Bool
is_risk_gated draft = true
is_risk_gated pending_approval = true
is_risk_gated submitted = true
is_risk_gated held = true
is_risk_gated auto_accepted = true
is_risk_gated _ = false

-- PENDING_STATUSES
abbrev pub is_pending : RunStatus → Bool
is_pending draft = true
is_pending pending_approval = true
is_pending _ = false

-- SENDABLE_STATUSES
abbrev pub is_sendable : RunStatus → Bool
is_sendable approved = true
is_sendable processed = true
is_sendable _ = false

-- CLOSED_STATUSES
abbrev pub is_closed : RunStatus → Bool
is_closed approved = true
is_closed processed = true
is_closed _ = false

-- DELETABLE_STATUSES
abbrev pub is_deletable : RunStatus → Bool
is_deletable draft = true
is_deletable previewed = true
is_deletable rejected = true
is_deletable _ = false

abbrev pub is_draft : RunStatus → Bool
is_draft draft = true
is_draft _ = false

abbrev pub is_approved : RunStatus → Bool
is_approved approved = true
is_approved _ = false

abbrev pub is_rejected : RunStatus → Bool
is_rejected rejected = true
is_rejected _ = false

abbrev pub is_held : RunStatus → Bool
is_held held = true
is_held _ = false

-- The keys of LIFECYCLE_STAGES; `stage_index` is `_STAGE_INDEX`.
pub data Stage : Type 0 where
  at_draft at_calculated at_submitted at_held at_approved at_processed at_distributed : Stage

abbrev pub stage_index : Stage → ℕ
stage_index at_draft = 0
stage_index at_calculated = 1
stage_index at_submitted = 2
stage_index at_held = 3
stage_index at_approved = 4
stage_index at_processed = 5
stage_index at_distributed = 6

abbrev pub lifecycle_stages : List Stage
lifecycle_stages =
    at_draft ∷ at_calculated ∷ at_submitted ∷ at_held ∷ at_approved ∷ at_processed ∷ at_distributed
    ∷ []

-- `_reached_stage_index` below its test of `distributed`
abbrev reached_by_status : RunStatus → Bool → Stage
reached_by_status processed calculated = at_processed
reached_by_status approved calculated = at_approved
reached_by_status held calculated = at_held
reached_by_status submitted calculated = at_submitted
reached_by_status auto_accepted calculated = at_submitted
reached_by_status pending_approval calculated = at_submitted
reached_by_status draft true = at_calculated
reached_by_status _ _ = at_draft

reached_stage : RunStatus → Bool → Bool → Stage
reached_stage status calculated distributed =
    if distributed then at_distributed else reached_by_status status calculated

pub data StepState : Type 0 where
  done current upcoming skipped : StepState

abbrev is_held_stage : Stage → Bool
is_held_stage at_held = true
is_held_stage _ = false

abbrev is_distributed_stage : Stage → Bool
is_distributed_stage at_distributed = true
is_distributed_stage _ = false

-- The body of the loop of `lifecycle_steps`.
unfoldable pub step_state : RunStatus → Bool → Bool → Bool → Stage → StepState
unfolding reached_stage
step_state status calculated distributed was_held stage =
    let idx = stage_index stage in
    let reached = stage_index (reached_stage status calculated distributed) in
    let rejected = is_rejected status in
    let cleared_hold = was_held && not (is_held status) in
    if is_held_stage stage && not was_held
    then skipped
    else (if is_held_stage stage && cleared_hold && not rejected
        then done
        else (if rejected
            then (if leb idx 2 then done else skipped)
            else (if ltb idx reached
                then done
                else (if idx == reached
                    then (if is_distributed_stage stage && distributed then done else current)
                    else upcoming))))

abbrev steps_of : (Stage → StepState) → List Stage → List (Stage × StepState)
steps_of f [] = []
steps_of f (stage ∷ stages) = (stage, f stage) ∷ steps_of f stages

unfoldable pub lifecycle_steps : RunStatus → Bool → Bool → Bool → List (Stage × StepState)
unfolding step_state
lifecycle_steps status calculated distributed was_held =
    steps_of (step_state status calculated distributed was_held) lifecycle_stages

pub record Progress : Type 0 where
  pub position : ℕ
  pub total : ℕ
  pub now : Option Stage
  pub next : Option Stage

abbrev has_state : StepState → StepState → Bool
has_state done done = true
has_state current current = true
has_state upcoming upcoming = true
has_state skipped skipped = true
has_state _ _ = false

abbrev count_state : StepState → List (Stage × StepState) → ℕ
count_state s [] = 0
count_state s ((_, t) ∷ steps) =
    if has_state s t then suc (count_state s steps) else count_state s steps

-- `len(applicable)`
abbrev count_applicable : List (Stage × StepState) → ℕ
count_applicable [] = 0
count_applicable ((_, t) ∷ steps) =
    if has_state skipped t then count_applicable steps else suc (count_applicable steps)

-- `next((s for s in steps if s["state"] == state), None)`
abbrev first_state : StepState → List (Stage × StepState) → Option Stage
first_state s [] = none
first_state s ((stage, t) ∷ steps) = if has_state s t then some stage else first_state s steps

abbrev is_some : Option Stage → Bool
is_some none = false
is_some (some _) = true

unfoldable pub status_progress : List (Stage × StepState) → Progress
status_progress steps =
    let now = first_state current steps in
    record {
      position = count_state done steps + (if is_some now then 1 else 0);
      total = count_applicable steps;
      now = now;
      next = first_state upcoming steps;
    }

-- The columns of a run that the status helpers read. Amounts are pesewas.
pub record Run : Type 0 where
  pub id : ℕ
  pub client_company_id : Option ℕ
  pub status : RunStatus
  pub risk_status : Option RiskStatus
  pub total_workers : ℕ
  pub total_net_pay : Option ℤ
  pub created_at : ℕ

pub data ActionKey : Type 0 where
  fix_import calculate submit await_risk review_hold approve : ActionKey
  mark_processed distribute resolve_rejection : ActionKey

-- `_is_calculated`; only a stub of a run has no total.
unfoldable pub is_calculated : Run → Bool
is_calculated run = elim run.total_net_pay [
  | none ↦ ltb 0 run.total_workers
  | some net ↦ ltb_ℤ (pos 0) net
]

unfoldable pub recommended_action_for : Run → Bool → Option ActionKey
unfolding is_calculated
recommended_action_for run distributed = elim run.status [
  | rejected ↦ some resolve_rejection
  | draft ↦
      if run.total_workers == 0
      then some fix_import
      else (if is_calculated run then some submit else some calculate)
  | submitted ↦ some await_risk
  | held ↦ some review_hold
  | auto_accepted ↦ some approve
  | pending_approval ↦ some approve
  | approved ↦ some mark_processed
  | processed ↦ if distributed then none else some distribute
  | previewed ↦ none
]

-- `status_tone`
pub data Tone : Type 0 where
  muted info warn ok brand danger : Tone

unfoldable pub status_tone : RunStatus → Tone
status_tone draft = muted
status_tone submitted = info
status_tone auto_accepted = info
status_tone held = warn
status_tone pending_approval = warn
status_tone approved = ok
status_tone processed = brand
status_tone rejected = danger
status_tone previewed = muted

abbrev ever_held_verdict : Option RiskStatus → Bool
ever_held_verdict (some risk_held) = true
ever_held_verdict (some risk_released) = true
ever_held_verdict _ = false

-- `was_ever_held` of app/risk.py, and the `held` of `run_progress`
abbrev pub was_ever_held : Run → Bool
was_ever_held run = ever_held_verdict run.risk_status || is_held run.status

unfoldable pub run_progress : Run → Bool → List (Stage × StepState)
unfolding lifecycle_steps
run_progress run distributed =
    lifecycle_steps run.status (ltb 0 run.total_workers) distributed (was_ever_held run)
