-- ===== src/Queue/Tests.antt =====
-- The queue with two runs' batches.
use pmvp.Prelude.{ℕ, ◌≡◌, ◌≤◌, refl, true, false, Option, some, none, List, [], ◌∷◌, arith, length}
use pmvp.Queue.{Batch, BatchStatus, queued, completed, auto_channel, enqueue_distribution}
use pmvp.Passes.{Summary, QueueConfig, claim_next_batch, process_all_queued}
use pmvp.Queue.Unfinished.{unfinished, stay, step, enqueue, claim, one_unfinished_batch}
use pmvp.Delivery.{Delivery, sms, sent, find_delivery}
use pmvp.Queue.Drain.{AllStored, process_all_queued_lem}
use pmvp.Queue.Rounds.{count_queued, ids_distinct}

abbrev batch_of : ℕ → ℕ → BatchStatus → Batch
batch_of id run_id status = record {
  id = id;
  payroll_run_id = run_id;
  channel = auto_channel;
  only_failed = false;
  status = status;
  total = 3;
  sent_count = none;
  failed_count = none;
  unknown_count = none;
  skipped_count = none;
  error = none;
  scheduled_for = none;
  started_at = none;
  finished_at = none;
  claimed_by_worker = none;
  reclaim_count = 0;
}

abbrev table : List Batch
table = batch_of 1 10 completed ∷ batch_of 2 10 queued ∷ batch_of 3 11 queued ∷ []

abbrev all_sent : Batch → Option Summary
all_sent b = some (record { sent = b.total; failed = 0; unknown = 0; skipped = 0 })

abbrev config : QueueConfig
config = record { stale_seconds = 900; max_reclaims = 3 }

table_has_one : unfinished 10 table ≤ 1
unfolding unfinished
table_has_one = omega arith

abbrev enqueued : List Batch
enqueued = (enqueue_distribution 4 10 3 auto_channel false 500 none table).2

one_unfinished_batch_example : unfinished 10 (claim_next_batch 600 1 enqueued).1 ≤ 1
one_unfinished_batch_example =
    one_unfinished_batch {config = config} {distribute = all_sent} {table = table} 10 table_has_one
      (step (step stay (enqueue 4 10 3 auto_channel false 500 none)) (claim 600 1))

table_distinct : ids_distinct table ≡ true
unfolding ids_distinct
table_distinct = refl

two_queued : count_queued table ≤ 2
unfolding count_queued
two_queued = omega arith

process_all_queued_lem_example :
    let drained = process_all_queued 2 all_sent 600 1 table in
    (count_queued drained.1 ≡ 0)
    × (length drained.0 ≡ count_queued table)
    × AllStored drained.0 drained.1
process_all_queued_lem_example =
    process_all_queued_lem 2 all_sent 600 1 table table_distinct two_queued

abbrev posted : Delivery
posted = record {
  id = 5;
  payroll_item_id = 8;
  payroll_run_id = 10;
  distribution_batch_id = some 1;
  channel = sms;
  status = sent;
  provider_message_id = some 77;
  provider_status = none;
  delivered_at = none;
  error = none;
  attempts = 1;
  sent_at = some 400;
  next_retry_at = none;
  claimed_at = some 390;
  updated_at = some 400;
}

posted_found : find_delivery 5 (posted ∷ []) ≡ some posted
unfolding find_delivery
posted_found = refl
