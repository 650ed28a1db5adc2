-- ===== src/Passes.antt =====
-- What a worker does with the table of batches: claim, recovery of stale batches, and the outcome of a
-- batch (app/distribution/queue.py).
use pmvp.Prelude.{
  ℕ, zero, suc, ◌+◌, Bool, false, ◌&&◌, ◌==◌, leb, Option, none, some, List, [], ◌∷◌, map,
  if◌then◌else◌,
}
use pmvp.Queue.{
  Batch, is_queued, is_running, change_first, queued, running, completed, batch_failed,
  internal_error, abandoned,
}

abbrev pub batch_is_queued : Batch → Bool
batch_is_queued b = is_queued b.status

abbrev pub start_batch : ℕ → ℕ → Batch → Batch
start_batch now worker b = record b {
  status = running;
  started_at = some now;
  claimed_by_worker = some worker;
}

-- (the claimed batch, the table)
unfoldable pub claim_next_batch : ℕ → ℕ → List Batch → Option Batch × List Batch
claim_next_batch now worker [] = (none, [])
claim_next_batch now worker (b ∷ table) =
    let (claimed, rest) = claim_next_batch now worker table in
    if is_queued b.status
    then (some (start_batch now worker b), start_batch now worker b ∷ table)
    else (claimed, b ∷ rest)

-- DISTRIBUTION_BATCH_STALE_SECONDS and DISTRIBUTION_BATCH_MAX_RECLAIMS
pub record QueueConfig : Type 0 where
  pub stale_seconds : ℕ
  pub max_reclaims : ℕ

abbrev pub started_long_ago : QueueConfig → ℕ → Option ℕ → Bool
started_long_ago config now none = false
started_long_ago config now (some started) = leb (started + config.stale_seconds) now

-- One row of `reclaim_stale_batches`.
unfoldable pub reclaim_row : QueueConfig → ℕ → Batch → Batch
reclaim_row config now b =
    if is_running b.status && started_long_ago config now b.started_at
    then (if leb config.max_reclaims b.reclaim_count
        then record b { status = batch_failed; error = some abandoned; finished_at = some now }
        else record b { reclaim_count = b.reclaim_count + 1; status = queued; started_at = none })
    else b

unfoldable pub reclaim_stale_batches : QueueConfig → ℕ → List Batch → List Batch
unfolding reclaim_row
reclaim_stale_batches config now table = map (reclaim_row config now) table

-- What `distribute_run` returns; it raises with `none`.
pub record Summary : Type 0 where
  pub sent : ℕ
  pub failed : ℕ
  pub unknown : ℕ
  pub skipped : ℕ

-- What `process_batch` stores on a claimed batch.
unfoldable pub finish_batch : ℕ → Option Summary → Batch → Batch
finish_batch now none b = record b {
  status = batch_failed;
  error = some internal_error;
  finished_at = some now;
}
finish_batch now (some summary) b = record b {
  status = completed;
  sent_count = some summary.sent;
  failed_count = some summary.failed;
  unknown_count = some summary.unknown;
  skipped_count = some summary.skipped;
  finished_at = some now;
}

abbrev pub has_id : ℕ → Batch → Bool
has_id id b = b.id == id

-- (the row of the batch as it is stored, the table)
unfoldable pub process_batch :
    (Batch → Option Summary) → ℕ → Batch → List Batch → Batch × List Batch
unfolding finish_batch change_first
process_batch distribute now b table = (
  finish_batch now (distribute b) b,
  change_first (has_id b.id) (finish_batch now (distribute b)) table,
)

-- The loop of `process_all_queued`; the fuel bounds its rounds. (the processed batches, the table)
unfoldable pub process_all_queued :
    ℕ → (Batch → Option Summary) → ℕ → ℕ → List Batch → List Batch × List Batch
unfolding claim_next_batch process_batch
process_all_queued zero distribute now worker table = ([], table)
process_all_queued (suc fuel) distribute now worker table =
    let (claimed, rest) = claim_next_batch now worker table in
    elim claimed [
      | none ↦ ([], rest)
      | some b ↦
          let (finished, processed_table) = process_batch distribute now b rest in
          let (processed, final) = process_all_queued fuel distribute now worker processed_table in
          (finished ∷ processed, final)
    ]
