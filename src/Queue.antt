-- ===== src/Queue.antt =====
-- The distribution queue of app/distribution/queue.py: batches, and the operations of the routes and
-- the schedule on them. The table of batches is a list in the order of creation (`created_at`); times
-- are seconds.
pub mod Unfinished
pub mod Rounds
pub mod Drain
pub mod Cancel
mod Tests
use pmvp.Prelude.{
  ℕ, zero, suc, ◌+◌, ◌-◌, Bool, true, false, not, ◌&&◌, ◌||◌, ◌==◌, ltb, leb, Option, none, some,
  List, [], ◌∷◌, ◌++◌, map, if◌then◌else◌, length,
}
use pmvp.Delivery.{Delivery, is_failed, is_set}
use pmvp.Settle.{cancel_retry}

-- The choice of channels of a batch: CHANNEL_AUTO or one of them.
pub data BatchChannel : Type 0 where
  auto_channel sms_only whatsapp_only email_only : BatchChannel

pub data BatchStatus : Type 0 where
  scheduled queued running completed batch_failed batch_cancelled : BatchStatus

pub data BatchError : Type 0 where
  internal_error abandoned : BatchError

pub record Batch : Type 0 where
  pub id : ℕ
  pub payroll_run_id : ℕ
  pub channel : BatchChannel
  pub only_failed : Bool
  pub status : BatchStatus
  pub total : ℕ
  pub sent_count : Option ℕ
  pub failed_count : Option ℕ
  pub unknown_count : Option ℕ
  pub skipped_count : Option ℕ
  pub error : Option BatchError
  pub scheduled_for : Option ℕ
  pub started_at : Option ℕ
  pub finished_at : Option ℕ
  pub claimed_by_worker : Option ℕ
  pub reclaim_count : ℕ

-- BATCH_PENDING_STATUSES
abbrev pub is_unfinished : BatchStatus → Bool
is_unfinished scheduled = true
is_unfinished queued = true
is_unfinished running = true
is_unfinished _ = false

abbrev pub is_scheduled : BatchStatus → Bool
is_scheduled scheduled = true
is_scheduled _ = false

abbrev pub is_queued : BatchStatus → Bool
is_queued queued = true
is_queued _ = false

abbrev pub is_running : BatchStatus → Bool
is_running running = true
is_running _ = false

-- The first batch of a condition, as `query.filter(condition).first()` gives it.
unfoldable pub first_batch : (Batch → Bool) → List Batch → Option Batch
first_batch condition [] = none
first_batch condition (b ∷ table) = if condition b then some b else first_batch condition table

-- The table once that batch has been changed.
unfoldable pub change_first : (Batch → Bool) → (Batch → Batch) → List Batch → List Batch
change_first condition f [] = []
change_first condition f (b ∷ table) =
    if condition b then f b ∷ table else b ∷ change_first condition f table

abbrev pub of_run : ℕ → (BatchStatus → Bool) → Batch → Bool
of_run run_id statuses b = (b.payroll_run_id == run_id) && statuses b.status

unfoldable pub in_flight_batch : ℕ → List Batch → Option Batch
unfolding first_batch
in_flight_batch run_id table = first_batch (of_run run_id is_unfinished) table

-- `scheduled_for is not None and scheduled_for > now`
abbrev pub is_future : ℕ → Option ℕ → Bool
is_future now none = false
is_future now (some t) = ltb now t

abbrev pub new_batch : ℕ → ℕ → ℕ → BatchChannel → Bool → ℕ → Option ℕ → Batch
new_batch id run_id total channel only_failed now scheduled_for = record {
  id = id;
  payroll_run_id = run_id;
  channel = channel;
  only_failed = only_failed;
  status = if is_future now scheduled_for then scheduled else queued;
  total = total;
  sent_count = none;
  failed_count = none;
  unknown_count = none;
  skipped_count = none;
  error = none;
  scheduled_for = if is_future now scheduled_for then scheduled_for else none;
  started_at = none;
  finished_at = none;
  claimed_by_worker = none;
  reclaim_count = 0;
}

-- The source reads for an unfinished batch and then inserts, with no lock and no unique constraint;
-- here both are one step. (the batch of the summary, `already_in_progress`, the table)
unfoldable pub enqueue_distribution :
    ℕ → ℕ → ℕ → BatchChannel → Bool → ℕ → Option ℕ → List Batch → Batch × Bool × List Batch
unfolding in_flight_batch
enqueue_distribution id run_id total channel only_failed now scheduled_for table =
    elim (in_flight_batch run_id table) [
      | some existing ↦ (existing, true, table)
      | none ↦
          let batch = new_batch id run_id total channel only_failed now scheduled_for in
          (batch, false, table ++ (batch ∷ []))
    ]

abbrev set_time : Option ℕ → Batch → Batch
set_time new_time b = record b { scheduled_for = new_time }

-- (`ok`, the table)
unfoldable pub reschedule_distribution : ℕ → Option ℕ → ℕ → List Batch → Bool × List Batch
unfolding first_batch change_first
reschedule_distribution run_id new_time now table =
    elim (first_batch (of_run run_id is_scheduled) table) [
      | none ↦ (false, table)
      | some _ ↦
          if is_future now new_time
          then (true, change_first (of_run run_id is_scheduled) (set_time new_time) table)
          else (false, table)
    ]

-- One row of `activate_due_scheduled`.
abbrev pub activate_row : ℕ → Batch → Batch
activate_row now b =
    if is_scheduled b.status && is_set b.scheduled_for && not (is_future now b.scheduled_for)
    then record b { status = queued }
    else b

-- One step here; the source reads the due rows and then writes them.
unfoldable pub activate_due_scheduled : ℕ → List Batch → List Batch
activate_due_scheduled now table = map (activate_row now) table

pub record CancelSummary : Type 0 where
  pub cancelled_batch : Bool
  pub cancelled_retries : ℕ
  pub blocked : Bool

abbrev pub has_pending_retry : ℕ → Delivery → Bool
has_pending_retry run_id d =
    (d.payroll_run_id == run_id) && (is_failed d.status && is_set d.next_retry_at)

unfoldable pub count_deliveries : (Delivery → Bool) → List Delivery → ℕ
count_deliveries condition [] = 0
count_deliveries condition (d ∷ deliveries) =
    if condition d
    then suc (count_deliveries condition deliveries)
    else count_deliveries condition deliveries

abbrev pub cancel_row : ℕ → Delivery → Delivery
cancel_row run_id d = if d.payroll_run_id == run_id then cancel_retry d else d

abbrev pub is_cancellable : BatchStatus → Bool
is_cancellable status = is_scheduled status || is_queued status

abbrev pub cancel_batch : ℕ → Batch → Batch
cancel_batch now b = record b { status = batch_cancelled; finished_at = some now }

abbrev pub is_found : Option Batch → Bool
is_found none = false
is_found (some b) = true

unfoldable pub cancel_distribution :
    ℕ → ℕ → List Batch → List Delivery → CancelSummary × List Batch × List Delivery
unfolding first_batch change_first count_deliveries
cancel_distribution run_id now table deliveries =
    if is_found (first_batch (of_run run_id is_running) table)
    then (
      record { cancelled_batch = false; cancelled_retries = 0; blocked = true },
      table,
      deliveries,
    )
    else (
      record {
        cancelled_batch = is_found (first_batch (of_run run_id is_cancellable) table);
        cancelled_retries = count_deliveries (has_pending_retry run_id) deliveries;
        blocked = false;
      },
      change_first (of_run run_id is_cancellable) (cancel_batch now) table,
      map (cancel_row run_id) deliveries,
    )
