-- ===== src/Settle.antt =====
-- What else changes a delivery: an operator's settlement (app/distribution/settle.py), the recovery of
-- stale claims (recovery.py), provider receipts (receipts.py), a cancelled distribution (queue.py), and
-- the retry state that the pages show (service.py).
use pmvp.Prelude.{
  ℕ, ◌+◌, ◌-◌, Bool, false, not, ◌&&◌, ◌==◌, ltb, Option, none, some, List, [], ◌∷◌, if◌then◌else◌,
  map,
}
use pmvp.Delivery.{
  ReceiptOutcome, Delivery, RetryConfig, is_sending, is_unknown, is_failed, is_set, or_else,
  mark_failed, update_where, sent, failed, unknown, cancelled, delivered, read, receipt_failed,
  stale_claim, not_sent, provider_reported,
}

pub data SettleOutcome : Type 0 where
  settle_sent settle_not_sent : SettleOutcome

-- The values of `settle_unknown`; `now` is the time when no claim was recorded.
unfoldable pub settle_values : SettleOutcome → ℕ → Delivery → Delivery
settle_values settle_sent now d = record d {
  status = sent;
  error = none;
  next_retry_at = none;
  sent_at = or_else d.claimed_at (some now);
}
settle_values settle_not_sent now d = record d {
  status = failed;
  error = some not_sent;
  next_retry_at = none;
}

abbrev pub row_is_unknown : Delivery → Bool
row_is_unknown d = is_unknown d.status

unfoldable pub settle_unknown : ℕ → SettleOutcome → ℕ → List Delivery → Bool × List Delivery
unfolding update_where settle_values
settle_unknown id outcome now table =
    update_where id row_is_unknown (settle_values outcome now) table

-- STALE_CLAIM_MINUTES, in seconds
abbrev pub stale_claim_seconds : ℕ
stale_claim_seconds = 600

-- `(claimed_at or updated_at or now) < cutoff`
unfoldable pub is_stale : ℕ → Delivery → Bool
is_stale now d = is_sending d.status && elim (or_else d.claimed_at d.updated_at) [
  | none ↦ false
  | some t ↦ ltb (t + stale_claim_seconds) now
]

-- One row of `recover_stale_claims`.
unfoldable pub recover_row : ℕ → Delivery → Delivery
unfolding is_stale
recover_row now d =
    if is_stale now d
    then record d { status = unknown; error = some stale_claim; next_retry_at = none }
    else d

unfoldable pub recover_stale_claims : ℕ → List Delivery → List Delivery
unfolding recover_row
recover_stale_claims now table = map (recover_row now) table

-- What a receipt does to its delivery; `none` is a status that the provider's table does not know.
unfoldable pub receipt_values : RetryConfig → ℕ → Option ReceiptOutcome → Delivery → Delivery
unfolding mark_failed
receipt_values config now none d = d
receipt_values config now (some receipt_failed) d =
    mark_failed config now provider_reported false
      (record d { provider_status = some receipt_failed })
receipt_values config now (some delivered) d = record d {
  provider_status = some delivered;
  delivered_at = some now;
}
receipt_values config now (some read) d = record d {
  provider_status = some read;
  delivered_at = some now;
}

abbrev has_message : Option ℕ → ℕ → Bool
has_message none message_id = false
has_message (some m) message_id = m == message_id

-- `apply_receipt`, on the first delivery with this message id
unfoldable pub apply_receipt :
    RetryConfig → ℕ → ℕ → Option ReceiptOutcome → List Delivery → List Delivery
unfolding receipt_values
apply_receipt config now message_id outcome [] = []
apply_receipt config now message_id outcome (d ∷ table) =
    if has_message d.provider_message_id message_id
    then receipt_values config now outcome d ∷ table
    else d ∷ apply_receipt config now message_id outcome table

-- The retries that `cancel_distribution` stops.
unfoldable pub cancel_retry : Delivery → Delivery
cancel_retry d =
    if is_failed d.status && is_set d.next_retry_at
    then record d { status = cancelled; next_retry_at = none }
    else d

-- The `retry_state` that the pages show.
pub record RetryState : Type 0 where
  pub remaining : ℕ
  pub final : Bool
  pub will_retry : Bool

unfoldable pub retry_state : RetryConfig → Delivery → RetryState
retry_state config d = record {
  remaining = if is_failed d.status then config.max_attempts - d.attempts else 0;
  final = is_failed d.status && not (is_set d.next_retry_at);
  will_retry = is_failed d.status && is_set d.next_retry_at;
}
