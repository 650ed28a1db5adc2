-- ===== src/Send.antt =====
-- A whole run's send: `distribute_run` and `retry_delivery` of app/distribution/service.py. The
-- channel of an item (`resolve_channel`, which reads the roster) and what happens once an item is
-- claimed (contact, message, the provider's answer) are parameters.
pub mod Safety
pub mod Rows
pub mod Attempted
mod Tests
use pmvp.Prelude.{
  ℕ, suc, ◌+◌, max, Bool, true, false, ◌&&◌, ◌==◌, Option, none, some, List, [], ◌∷◌, ◌++◌,
  if◌then◌else◌,
}
use pmvp.Delivery.{
  Delivery, DeliveryStatus, Channel, sms, whatsapp, email, pending, sent, unknown, Claimable,
  for_send, for_retry, is_failed, is_skipped_by_send, RetryConfig, Attempt, attempt_send,
}

abbrev pub same_channel : Channel → Channel → Bool
same_channel sms sms = true
same_channel whatsapp whatsapp = true
same_channel email email = true
same_channel _ _ = false

-- `_latest_delivery`: the row of an item and a channel, of which there is one at most.
unfoldable pub latest_delivery : ℕ → Channel → List Delivery → Option Delivery
latest_delivery item channel [] = none
latest_delivery item channel (d ∷ table) =
    if (d.payroll_item_id == item) && same_channel d.channel channel
    then some d
    else latest_delivery item channel table

-- An id that the table does not have, as the database's sequence gives it.
unfoldable pub next_id : List Delivery → ℕ
next_id [] = 1
next_id (d ∷ table) = max (suc d.id) (next_id table)

abbrev pub pending_row : ℕ → ℕ → Channel → ℕ → Delivery
pending_row run_id item channel id = record {
  id = id;
  payroll_item_id = item;
  payroll_run_id = run_id;
  distribution_batch_id = none;
  channel = channel;
  status = pending;
  provider_message_id = none;
  provider_status = none;
  delivered_at = none;
  error = none;
  attempts = 0;
  sent_at = none;
  next_retry_at = none;
  claimed_at = none;
  updated_at = none;
}

-- `_insert_pending`, where no other worker inserts the row first
unfoldable pub insert_pending : ℕ → ℕ → Channel → List Delivery → List Delivery
unfolding next_id
insert_pending run_id item channel table =
    table ++ (pending_row run_id item channel (next_id table) ∷ [])

-- The counts of `summary`.
pub record SendSummary : Type 0 where
  pub total : ℕ
  pub sent : ℕ
  pub failed : ℕ
  pub unknown : ℕ
  pub skipped : ℕ

abbrev pub empty_summary : SendSummary
empty_summary = record { total = 0; sent = 0; failed = 0; unknown = 0; skipped = 0 }

-- How one item is counted, by the status that its attempt reports.
abbrev pub count_item : Option DeliveryStatus → SendSummary → SendSummary
count_item none s = record s { total = suc s.total; skipped = suc s.skipped }
count_item (some sent) s = record s { total = suc s.total; sent = suc s.sent }
count_item (some unknown) s = record s { total = suc s.total; unknown = suc s.unknown }
count_item (some _) s = record s { total = suc s.total; failed = suc s.failed }

-- What a send is called with, and what it meets.
pub record Sending : Type 0 where
  pub config : RetryConfig
  pub run_id : ℕ
  pub only_failed : Bool
  pub batch_id : Option ℕ
  pub now : ℕ
  pub channel_of : ℕ → Channel
  pub attempt_of : ℕ → Attempt

abbrev pub try_send :
    Sending → ℕ → ℕ → Claimable → List Delivery → Option DeliveryStatus × List Delivery
try_send s item id claimable table =
    attempt_send s.config id claimable s.batch_id false s.now (s.attempt_of item) table

-- The body of the loop of `distribute_run`.
unfoldable pub send_item : Sending → ℕ → List Delivery → Option DeliveryStatus × List Delivery
unfolding latest_delivery insert_pending
send_item s item table = elim (latest_delivery item (s.channel_of item) table) [
  | none ↦
      if s.only_failed
      then (none, table)
      else try_send s item (next_id table) for_send
          (insert_pending s.run_id item (s.channel_of item) table)
  | some existing ↦
      if s.only_failed
      then (if is_failed existing.status
          then try_send s item existing.id for_retry table
          else (none, table))
      else (if is_skipped_by_send existing.status
          then (none, table)
          else try_send s item existing.id for_send table)
]

unfoldable pub distribute_items :
    Sending → List ℕ → SendSummary → List Delivery → SendSummary × List Delivery
unfolding send_item
distribute_items s [] summary table = (summary, table)
distribute_items s (item ∷ items) summary table =
    let (status, after) = send_item s item table in
    distribute_items s items (count_item status summary) after

-- `distribute_run` on the items of its run
unfoldable pub distribute_run : Sending → List ℕ → List Delivery → SendSummary × List Delivery
unfolding distribute_items
distribute_run s items table = distribute_items s items empty_summary table

abbrev is_sent_result : Option DeliveryStatus → Bool
is_sent_result (some sent) = true
is_sent_result _ = false

-- `retry_delivery`: whether it was sent, and the table
unfoldable pub retry_delivery : Sending → Delivery → List Delivery → Bool × List Delivery
unfolding attempt_send
retry_delivery s d table =
    if is_failed d.status
    then (let (status, after) =
          attempt_send s.config d.id for_retry none true s.now (s.attempt_of d.payroll_item_id)
            table in
        (is_sent_result status, after))
    else (false, table)
