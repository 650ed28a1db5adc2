-- ===== src/Delivery/Tests.antt =====
-- The delivery theorems on one payslip.
use pmvp.Prelude.{ℕ, ◌==◌, ◌+◌, ◌<◌, ◌≡◌, ◌⊎◌, refl, Bool, true, false, Option, some, none, [], ◌∷◌}
use pmvp.Delivery.{
  Delivery, DeliveryStatus, sms, pending, sending, unknown, RetryConfig, for_send, for_retry,
  answered, accepted, not_accepted, can_claim, claim_values, finish_attempt, record_outcome,
  mark_failed, find_delivery, claim_delivery, attempt_send, update_where,
}
use pmvp.Delivery.Attempts.{MayClaim, IsAttempted, attempt_send-outcome}
use pmvp.Delivery.Claims.{claim_delivery-exclusive}
use pmvp.Delivery.Retries.{stay, step, claim, finish, Steps, count_claims, retry_claim-bounded}
use pmvp.Delivery.Workers.{
  System, set_busy, WorkerSteps, start, next, worker_claim, worker_finish,
  workers_exclude_each_other,
}

abbrev config : RetryConfig
config = record { max_attempts = 4; backoff_base = 60 }

abbrev row_of : DeliveryStatus → ℕ → Option ℕ → Delivery
row_of status attempts next_retry_at = record {
  id = 5;
  payroll_item_id = 8;
  payroll_run_id = 1;
  distribution_batch_id = some 2;
  channel = sms;
  status = status;
  provider_message_id = none;
  provider_status = none;
  delivered_at = none;
  error = none;
  attempts = attempts;
  sent_at = none;
  next_retry_at = next_retry_at;
  claimed_at = none;
  updated_at = none;
}

abbrev fresh : Delivery
fresh = row_of pending 0 none

fresh_found : find_delivery 5 (fresh ∷ []) ≡ some fresh
unfolding find_delivery
fresh_found = refl

fresh_claimed : (claim_delivery 5 for_send (some 2) false 100 (fresh ∷ [])).0 ≡ true
unfolding claim_delivery update_where can_claim
fresh_claimed = refl

claim_delivery-exclusive_example :
    let claimed = (claim_delivery 5 for_send (some 2) false 100 (fresh ∷ [])).1 in
    claim_delivery 5 for_retry none true 900 claimed ≡ (false, claimed)
claim_delivery-exclusive_example =
    claim_delivery-exclusive 5 for_send for_retry (some 2) none false true 100 900 (fresh ∷ [])
      fresh_found fresh_claimed

attempt_send-outcome_example :
    let attempt = answered (accepted (some 77)) in
    let (reply, after) = attempt_send config 5 for_send (some 2) false 100 attempt (fresh ∷ []) in
    (MayClaim for_send false fresh
      × ((f : Delivery) × (reply ≡ some f.status)
          × (find_delivery 5 after ≡ some f)
          × IsAttempted 100 attempt fresh f)
      × ((j : ℕ) → (j == 5) ≡ false → find_delivery j after ≡ find_delivery j (fresh ∷ [])))
    ⊎ ((MayClaim for_send false fresh → ⊥) × (reply ≡ none) × (after ≡ fresh ∷ []))
attempt_send-outcome_example =
    attempt_send-outcome config 5 for_send (some 2) false 100 (answered (accepted (some 77)))
      (fresh ∷ []) fresh_found

abbrev uncertain : Delivery
uncertain = row_of unknown 1 none

uncertain_found : find_delivery 5 (uncertain ∷ []) ≡ some uncertain
unfolding find_delivery
uncertain_found = refl

abbrev refused : Delivery
refused = finish_attempt config 100 (answered (not_accepted none)) (claim_values 100 none fresh)

fresh_claimable : can_claim for_send false fresh ≡ true
unfolding can_claim
fresh_claimable = refl

first_claimed_sending : (claim_values 100 none fresh).status ≡ sending
unfolding claim_values
first_claimed_sending = refl

refused_claimable : can_claim for_retry true refused ≡ true
unfolding can_claim finish_attempt record_outcome mark_failed claim_values
refused_claimable = refl

abbrev once_refused : Steps config fresh refused
once_refused =
    step (step stay (claim for_send none false 100 fresh_claimable))
      (finish 100 (answered (not_accepted none)))

retry_claim-bounded_example : fresh.attempts + count_claims once_refused < 4
retry_claim-bounded_example =
    retry_claim-bounded {config = config} once_refused refl refused_claimable

abbrev nobody : ℕ → Bool
nobody w = false

abbrev idle : System
idle = record { row = fresh; is_busy = nobody }

nobody_busy : (w : ℕ) → nobody w ≡ false
nobody_busy w = refl

-- Worker 1 claims and sends; worker 2 claims after its failure.
abbrev after_first : System
after_first = record {
  row = finish_attempt config 100 (answered (not_accepted none)) (claim_values 100 none fresh);
  is_busy = set_busy 1 false (set_busy 1 true nobody);
}

abbrev second_busy : System
second_busy = record {
  row = claim_values 200 none after_first.row;
  is_busy = set_busy 2 true after_first.is_busy;
}

abbrev second : ℕ
second = 2

two_workers : WorkerSteps config idle second_busy
two_workers =
    next
      (next (next start (worker_claim 1 for_send none false 100 fresh_claimable))
        (worker_finish 1 100 (answered (not_accepted none)) refl))
      (worker_claim 2 for_retry none true 200 refused_claimable)

workers_exclude_each_other_example :
    (second ≡ second) × ((second_busy.row.status ≡ sending) ⊎ (second_busy.row.status ≡ unknown))
workers_exclude_each_other_example =
    workers_exclude_each_other second second nobody_busy two_workers refl refl
