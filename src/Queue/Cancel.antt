-- ===== src/Queue/Cancel.antt =====
-- What `cancel_distribution` of app/distribution/queue.py leaves of a run's work.
use pmvp.Prelude.{
  ℕ, suc, ◌+◌, ◌≤◌, ◌≡◌, refl, ◌⊎◌, inl, inr, true, false, some, List, [], ◌∷◌, map, if◌then◌else◌,
  arith, Bool-cases,
}
use pmvp.Delivery.{Delivery, find_delivery}
use pmvp.Settle.{cancel_retry}
use pmvp.Queue.{
  Batch, is_running, is_cancellable, first_batch, change_first, of_run, cancel_batch, is_found,
  has_pending_retry, count_deliveries, cancel_row, cancel_distribution,
}
use pmvp.Queue.Unfinished.{unfinished}

cancelled-unfinished :
    (run_id now : ℕ) (table : List Batch)
    → is_found (first_batch (of_run run_id is_running) table) ≡ false
    → suc (unfinished run_id (change_first (of_run run_id is_cancellable) (cancel_batch now) table))
      ≡ unfinished run_id table
        + (if is_found (first_batch (of_run run_id is_cancellable) table) then 0 else 1)
unfolding unfinished change_first first_batch
cancelled-unfinished run_id now [] r = refl
cancelled-unfinished run_id now (b ∷ table) r =
    ground (arith, cancelled-unfinished run_id now table)

not_found-unfinished :
    (run_id : ℕ) (table : List Batch)
    → is_found (first_batch (of_run run_id is_running) table) ≡ false
    → is_found (first_batch (of_run run_id is_cancellable) table) ≡ false
    → unfinished run_id table ≡ 0
unfolding unfinished first_batch
not_found-unfinished run_id [] r c = refl
not_found-unfinished run_id (b ∷ table) r c = ground (arith, not_found-unfinished run_id table)

cancelled-retries :
    (run_id : ℕ) (deliveries : List Delivery)
    → count_deliveries (has_pending_retry run_id) (map (cancel_row run_id) deliveries) ≡ 0
unfolding count_deliveries cancel_retry
cancelled-retries run_id [] = refl
cancelled-retries run_id (d ∷ deliveries) = ground (arith, cancelled-retries run_id deliveries)

cancelled-others :
    (run_id id : ℕ) (deliveries : List Delivery) {d : Delivery}
    → find_delivery id deliveries ≡ some d
    → has_pending_retry run_id d ≡ false
    → find_delivery id (map (cancel_row run_id) deliveries) ≡ some d
unfolding find_delivery cancel_retry
cancelled-others run_id id [] h p = cc
cancelled-others run_id id (row ∷ deliveries) {d} h p =
    ground (arith, cancelled-others run_id id deliveries {d = d})

-- Cancelling the work of a run with at most one unfinished batch: either a batch of it runs, and
-- nothing changes, or no batch of the run is unfinished afterwards and none of its deliveries awaits
-- a retry. Either way a delivery that awaits no retry of that run (a sent one, say, or one of another
-- run) is as it was.
cancel_distribution_lem :
    (run_id now id : ℕ) (table : List Batch) (deliveries : List Delivery) {d : Delivery}
    → unfinished run_id table ≤ 1
    → find_delivery id deliveries ≡ some d
    → has_pending_retry run_id d ≡ false
    → let (summary, after, left) = cancel_distribution run_id now table deliveries in
      (((summary.blocked ≡ true) × (after ≡ table) × (left ≡ deliveries))
        ⊎ ((summary.blocked ≡ false)
            × (unfinished run_id after ≡ 0)
            × (count_deliveries (has_pending_retry run_id) left ≡ 0)))
      × (find_delivery id left ≡ some d)
unfolding cancel_distribution
cancel_distribution_lem run_id now id table deliveries {d} u h p =
    elim (Bool-cases (is_found (first_batch (of_run run_id is_running) table))) [
      | inl e ↦ rw e (inl (refl, refl, refl), h)
      | inr e ↦ rw e (
        inr (
          refl,
          ground
              (arith, cancelled-unfinished run_id now table e, not_found-unfinished run_id table e),
          cancelled-retries run_id deliveries,
        ),
        cancelled-others run_id id deliveries h p,
      )
    ]
