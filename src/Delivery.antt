-- ===== src/Delivery.antt =====
-- One payslip delivery: the claim, the attempt and its outcome in app/distribution/service.py. Times are
-- seconds; the table of deliveries is a list.
pub mod Claims
pub mod Attempts
pub mod Retries
pub mod Workers
mod Tests
use pmvp.Prelude.{
  ℕ, suc, ◌+◌, ◌-◌, ◌*◌, ◌^◌, Bool, true, false, not, ◌&&◌, ◌||◌, ◌==◌, ltb, Option, none, some,
  List, [], ◌∷◌, if◌then◌else◌, map,
}

pub data Channel : Type 0 where
  sms whatsapp email : Channel

pub data DeliveryStatus : Type 0 where
  pending sending sent failed unknown cancelled : DeliveryStatus

pub data ReceiptOutcome : Type 0 where
  delivered read receipt_failed : ReceiptOutcome

-- The texts that are stored in `error`.
pub data DeliveryError : Type 0 where
  no_contact not_prepared provider_error stale_claim not_sent provider_reported : DeliveryError

pub record Delivery : Type 0 where
  pub id : ℕ
  pub payroll_item_id : ℕ
  pub payroll_run_id : ℕ
  pub distribution_batch_id : Option ℕ
  pub channel : Channel
  pub status : DeliveryStatus
  pub provider_message_id : Option ℕ
  pub provider_status : Option ReceiptOutcome
  pub delivered_at : Option ℕ
  pub error : Option DeliveryError
  pub attempts : ℕ
  pub sent_at : Option ℕ
  pub next_retry_at : Option ℕ
  pub claimed_at : Option ℕ
  pub updated_at : Option ℕ

-- `_retry_config()`
pub record RetryConfig : Type 0 where
  pub max_attempts : ℕ
  pub backoff_base : ℕ

-- What a caller may claim: CLAIMABLE_FOR_SEND or CLAIMABLE_FOR_RETRY.
pub data Claimable : Type 0 where
  for_send for_retry : Claimable

abbrev pub is_claimable : Claimable → DeliveryStatus → Bool
is_claimable for_send pending = true
is_claimable for_send failed = true
is_claimable for_send cancelled = true
is_claimable for_retry failed = true
is_claimable _ _ = false

-- SKIPPED_BY_SEND
abbrev pub is_skipped_by_send : DeliveryStatus → Bool
is_skipped_by_send sent = true
is_skipped_by_send sending = true
is_skipped_by_send unknown = true
is_skipped_by_send _ = false

abbrev pub is_sending : DeliveryStatus → Bool
is_sending sending = true
is_sending _ = false

abbrev pub is_unknown : DeliveryStatus → Bool
is_unknown unknown = true
is_unknown _ = false

abbrev pub is_failed : DeliveryStatus → Bool
is_failed failed = true
is_failed _ = false

abbrev pub is_set : Option ℕ → Bool
is_set none = false
is_set (some t) = true

abbrev pub or_else : Option ℕ → Option ℕ → Option ℕ
or_else none other = other
or_else (some t) other = some t

-- The receipt state that `_mark_sent` resets when there is a new message id.
abbrev superseded : Option ℕ → Delivery → Delivery
superseded none d = d
superseded (some m) d = record d {
  provider_message_id = some m;
  provider_status = none;
  delivered_at = none;
}

unfoldable pub mark_sent : ℕ → Option ℕ → Delivery → Delivery
mark_sent now message_id d =
    superseded message_id
      (record d { status = sent; error = none; sent_at = some now; next_retry_at = none })

-- When the next automatic retry of a failure is due, if there is one.
abbrev pub retry_time : RetryConfig → ℕ → Bool → ℕ → Option ℕ
retry_time config now retry counted =
    let attempts = if counted == 0 then 1 else counted in
    if retry && ltb attempts config.max_attempts
    then some (now + config.backoff_base * 2 ^ (attempts - 1))
    else none

unfoldable pub mark_failed : RetryConfig → ℕ → DeliveryError → Bool → Delivery → Delivery
mark_failed config now error retry d = record d {
  status = failed;
  error = some error;
  next_retry_at = retry_time config now retry d.attempts;
}

unfoldable pub mark_unknown : DeliveryError → Delivery → Delivery
mark_unknown error d = record d { status = unknown; error = some error; next_retry_at = none }

-- A sender's result: accepted with the provider's message id, ambiguous, or refused; a sender that
-- does not classify its failures leaves `retryable` unset.
pub data SendResult : Type 0 where
  accepted : Option ℕ → SendResult
  ambiguous : SendResult
  not_accepted : Option Bool → SendResult

-- `result.retryable is not False`
abbrev pub is_not_false : Option Bool → Bool
is_not_false (some false) = false
is_not_false _ = true

unfoldable pub record_outcome : RetryConfig → ℕ → SendResult → Delivery → Delivery
unfolding mark_sent mark_failed mark_unknown
record_outcome config now (accepted message_id) d = mark_sent now message_id d
record_outcome config now ambiguous d = mark_unknown provider_error d
record_outcome config now (not_accepted retryable) d =
    mark_failed config now provider_error (is_not_false retryable) d

-- The condition of the UPDATE in `claim_delivery`, on the row as it is stored.
unfoldable pub can_claim : Claimable → Bool → Delivery → Bool
can_claim claimable require_scheduled_retry d =
    is_claimable claimable d.status && (not require_scheduled_retry || is_set d.next_retry_at)

-- The values that the UPDATE writes.
unfoldable pub claim_values : ℕ → Option ℕ → Delivery → Delivery
claim_values now batch_id d = record d {
  status = sending;
  claimed_at = some now;
  attempts = d.attempts + 1;
  distribution_batch_id = or_else batch_id d.distribution_batch_id;
}

-- `UPDATE ... WHERE id = .. AND condition`: (whether a row was changed, the table)
unfoldable pub update_where :
    ℕ → (Delivery → Bool) → (Delivery → Delivery) → List Delivery → Bool × List Delivery
update_where id condition values [] = (false, [])
update_where id condition values (d ∷ table) =
    let (changed, rest) = update_where id condition values table in
    if d.id == id
    then (if condition d then (true, values d ∷ table) else (false, d ∷ table))
    else (changed, d ∷ rest)

unfoldable pub find_delivery : ℕ → List Delivery → Option Delivery
find_delivery id [] = none
find_delivery id (d ∷ table) = if d.id == id then some d else find_delivery id table

unfoldable pub claim_delivery :
    ℕ → Claimable → Option ℕ → Bool → ℕ → List Delivery → Bool × List Delivery
unfolding update_where can_claim claim_values
claim_delivery id claimable batch_id require_scheduled_retry now table =
    update_where id (can_claim claimable require_scheduled_retry) (claim_values now batch_id) table

-- What happens after the claim: no usable contact, a message that could not be prepared, or the
-- provider's answer.
pub data Attempt : Type 0 where
  no_recipient not_preparable : Attempt
  answered : SendResult → Attempt

unfoldable pub finish_attempt : RetryConfig → ℕ → Attempt → Delivery → Delivery
unfolding mark_failed record_outcome
finish_attempt config now no_recipient d = mark_failed config now no_contact false d
finish_attempt config now not_preparable d = mark_failed config now not_prepared false d
finish_attempt config now (answered result) d = record_outcome config now result d

abbrev pub always : Delivery → Bool
always d = true

-- `_attempt_send`: `none` when the claim was lost, and nothing was sent.
unfoldable pub attempt_send :
    RetryConfig
    → ℕ
    → Claimable
    → Option ℕ
    → Bool
    → ℕ
    → Attempt
    → List Delivery
    → Option (DeliveryStatus) × List Delivery
unfolding claim_delivery finish_attempt update_where find_delivery
attempt_send config id claimable batch_id require_scheduled_retry now attempt table =
    let (won, claimed) = claim_delivery id claimable batch_id require_scheduled_retry now table in
    if won
    then (let (_, finished) = update_where id always (finish_attempt config now attempt) claimed in
        (elim (find_delivery id finished) [ none ↦ none | some d ↦ some d.status ], finished))
    else (none, claimed)
