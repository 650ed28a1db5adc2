-- ===== src/Queue/Unfinished.antt =====
-- How many unfinished batches a run has, through every operation of the queue.
use mathlib.Core.Path.{subst}
use pmvp.Prelude.{
  ℕ, suc, ◌+◌, ◌≤◌, ◌≡◌, refl, inl, inr, Bool, true, ◌==◌, Option, none, List, [], ◌∷◌, ◌++◌, map,
  if◌then◌else◌, arith, Bool-cases, Option-cases,
}
use pmvp.Delivery.{Delivery}
use pmvp.Queue.{
  Batch, BatchChannel, is_unfinished, is_scheduled, is_cancellable, first_batch, change_first,
  of_run, in_flight_batch, new_batch, enqueue_distribution, set_time, reschedule_distribution,
  activate_row, activate_due_scheduled, cancel_batch, cancel_distribution,
}
use pmvp.Passes.{
  claim_next_batch, QueueConfig, reclaim_row, reclaim_stale_batches, Summary, finish_batch, has_id,
  process_batch,
}

-- How many unfinished batches of a run the table has.
unfoldable pub unfinished : ℕ → List Batch → ℕ
unfinished run_id [] = 0
unfinished run_id (b ∷ table) =
    if of_run run_id is_unfinished b then suc (unfinished run_id table) else unfinished run_id table

-- A change of a batch that keeps its run and revives no finished batch.
abbrev pub Settles : (Batch → Batch) → Type 0
Settles f =
    (b : Batch)
    → ((f b).payroll_run_id ≡ b.payroll_run_id)
      × (is_unfinished (f b).status ≡ true → is_unfinished b.status ≡ true)

of_run-Settles :
    (run_id : ℕ) (f : Batch → Batch) (b : Batch)
    → Settles f
    → of_run run_id is_unfinished (f b) ≡ true
    → of_run run_id is_unfinished b ≡ true
of_run-Settles run_id f b s h = ground (arith, s b)

unfinished-map :
    (run_id : ℕ) (f : Batch → Batch) (table : List Batch)
    → Settles f
    → unfinished run_id (map f table) ≤ unfinished run_id table
unfolding unfinished
unfinished-map run_id f [] s = ground arith
unfinished-map run_id f (b ∷ table) s =
    ground (arith, of_run-Settles run_id f b s, unfinished-map run_id f table s)

unfinished-change_first :
    (run_id : ℕ) (condition : Batch → Bool) (f : Batch → Batch) (table : List Batch)
    → Settles f
    → unfinished run_id (change_first condition f table) ≤ unfinished run_id table
unfolding unfinished change_first
unfinished-change_first run_id condition f [] s = ground arith
unfinished-change_first run_id condition f (b ∷ table) s =
    ground (arith, of_run-Settles run_id f b s, unfinished-change_first run_id condition f table s)

set_time-Settles : (t : Option ℕ) → Settles (set_time t)
set_time-Settles t b = (refl, λ u. u)

activate-Settles : (now : ℕ) → Settles (activate_row now)
activate-Settles now b = ground arith

cancel_batch-Settles : (now : ℕ) → Settles (cancel_batch now)
cancel_batch-Settles now b = ground arith

reclaim-Settles : (config : QueueConfig) (now : ℕ) → Settles (reclaim_row config now)
unfolding reclaim_row
reclaim-Settles config now b = ground arith

finish-Settles :
    (distribute : Batch → Option Summary) (now : ℕ) (c : Batch)
    → Settles (finish_batch now (distribute c))
unfolding finish_batch
finish-Settles distribute now c b = ground arith

unfinished-claim_next_batch :
    (run_id now worker : ℕ) (table : List Batch)
    → unfinished run_id (claim_next_batch now worker table).1 ≤ unfinished run_id table
unfolding unfinished claim_next_batch
unfinished-claim_next_batch run_id now worker [] = ground arith
unfinished-claim_next_batch run_id now worker (b ∷ table) =
    ground (arith, unfinished-claim_next_batch run_id now worker table)

unfinished-append :
    (run_id : ℕ) (table : List Batch) (b : Batch)
    → unfinished run_id (table ++ (b ∷ []))
      ≡ unfinished run_id table + (if of_run run_id is_unfinished b then 1 else 0)
unfolding unfinished
unfinished-append run_id [] b = ground arith
unfinished-append run_id (c ∷ table) b = ground (arith, unfinished-append run_id table b)

-- No batch in flight is no unfinished batch.
in_flight-none :
    (run_id : ℕ) (table : List Batch)
    → first_batch (of_run run_id is_unfinished) table ≡ none
    → unfinished run_id table ≡ 0
unfolding first_batch unfinished
in_flight-none run_id [] h = refl
in_flight-none run_id (b ∷ table) h = ground (arith, in_flight-none run_id table)

enqueue-unfinished :
    (id run_id total now j : ℕ) (channel : BatchChannel) (only_failed : Bool) (t : Option ℕ)
    (table : List Batch)
    → unfinished j table ≤ 1
    → unfinished j (enqueue_distribution id run_id total channel only_failed now t table).2 ≤ 1
unfolding enqueue_distribution in_flight_batch
enqueue-unfinished id run_id total now j channel only_failed t table h =
    elim (Option-cases (first_batch (of_run run_id is_unfinished) table)) [
      | inr (b, e) ↦ rw (e, enqueue_distribution, in_flight_batch) h
      | inl e ↦
          let batch = new_batch id run_id total channel only_failed now t in
          rw (e, enqueue_distribution, in_flight_batch)
            (rw (unfinished-append j table batch) (elim (Bool-cases (run_id == j)) [
              | inl same ↦
                  let i : run_id ≡ j = ground arith in
                  rw same (
                    ground (
                      arith,
                      subst (λ r. unfinished r table ≡ 0) i (in_flight-none run_id table e),
                    ))
              | inr other ↦ rw other (ground arith)
            ]))
    ]

reschedule-unfinished :
    (run_id now j : ℕ) (t : Option ℕ) (table : List Batch)
    → unfinished j table ≤ 1
    → unfinished j (reschedule_distribution run_id t now table).1 ≤ 1
unfolding reschedule_distribution
reschedule-unfinished run_id now j t table h =
    elim (Option-cases (first_batch (of_run run_id is_scheduled) table)) [
      | inl e ↦ rw (e, reschedule_distribution) h
      | inr (b, e) ↦
          rw (e, reschedule_distribution)
            (ground (
              arith,
              unfinished-change_first j (of_run run_id is_scheduled) (set_time t) table
                  (set_time-Settles t),
            ))
    ]

-- One operation of the queue on the table of batches, run without another one in between: the routes that enqueue, reschedule and cancel,
-- and the worker's activation, recovery, claim and outcome.
pub data QueueStep (config : QueueConfig) (distribute : Batch → Option Summary)
    : List Batch → List Batch → Type 0 where
  enqueue :
      {table : List Batch} (id run_id total : ℕ) (channel : BatchChannel) (only_failed : Bool)
      (now : ℕ) (t : Option ℕ)
      → QueueStep config distribute table
          (enqueue_distribution id run_id total channel only_failed now t table).2
  reschedule :
      {table : List Batch} (run_id now : ℕ) (t : Option ℕ)
      → QueueStep config distribute table (reschedule_distribution run_id t now table).1
  activate :
      {table : List Batch} (now : ℕ)
      → QueueStep config distribute table (activate_due_scheduled now table)
  cancel :
      {table : List Batch} (run_id now : ℕ) (deliveries : List Delivery)
      → QueueStep config distribute table (cancel_distribution run_id now table deliveries).1
  reclaim :
      {table : List Batch} (now : ℕ)
      → QueueStep config distribute table (reclaim_stale_batches config now table)
  claim :
      {table : List Batch} (now worker : ℕ)
      → QueueStep config distribute table (claim_next_batch now worker table).1
  process :
      {table : List Batch} (now : ℕ) (b : Batch)
      → QueueStep config distribute table (process_batch distribute now b table).1

pub data QueueSteps (config : QueueConfig) (distribute : Batch → Option Summary)
    : List Batch → List Batch → Type 0 where
  stay : {table : List Batch} → QueueSteps config distribute table table
  step :
      {table next last : List Batch}
      → QueueSteps config distribute table next
      → QueueStep config distribute next last
      → QueueSteps config distribute table last

cancel-unfinished :
    (run_id now j : ℕ) (table : List Batch) (deliveries : List Delivery)
    → unfinished j table ≤ 1
    → unfinished j (cancel_distribution run_id now table deliveries).1 ≤ 1
unfolding cancel_distribution
cancel-unfinished run_id now j table deliveries h = ground (
  arith,
  unfinished-change_first j (of_run run_id is_cancellable) (cancel_batch now) table
      (cancel_batch-Settles now),
)

step-unfinished :
    {config : QueueConfig} {distribute : Batch → Option Summary} {table next : List Batch} (j : ℕ)
    → QueueStep config distribute table next
    → unfinished j table ≤ 1
    → unfinished j next ≤ 1
unfolding activate_due_scheduled reclaim_stale_batches process_batch
step-unfinished j (enqueue {table} id r total c o now t) h =
    enqueue-unfinished id r total now j c o t table h
step-unfinished j (reschedule {table} r now t) h = reschedule-unfinished r now j t table h
step-unfinished j (activate {table} now) h =
    ground (arith, unfinished-map j (activate_row now) table (activate-Settles now))
step-unfinished j (cancel {table} r now deliveries) h = cancel-unfinished r now j table deliveries h
step-unfinished {config} j (reclaim {table} now) h =
    ground (arith, unfinished-map j (reclaim_row config now) table (reclaim-Settles config now))
step-unfinished j (claim {table} now worker) h =
    ground (arith, unfinished-claim_next_batch j now worker table)
step-unfinished {config} {distribute} j (process {table} now b) h = ground (
  arith,
  unfinished-change_first j (has_id b.id) (finish_batch now (distribute b)) table
      (finish-Settles distribute now b),
)

-- Where every operation of the queue runs whole, its reads and its writes together, before the next
-- one begins, a run with at most one unfinished (scheduled, queued or running) batch never has more,
-- whatever requests and worker passes follow and in whatever order. Requests that overlap are not
-- covered: two that both look for a batch before either inserts one leave two.
pub one_unfinished_batch :
    {config : QueueConfig} {distribute : Batch → Option Summary} {table last : List Batch} (j : ℕ)
    → unfinished j table ≤ 1
    → QueueSteps config distribute table last
    → unfinished j last ≤ 1
one_unfinished_batch j h stay = h
one_unfinished_batch j h (step s t) = step-unfinished j t (one_unfinished_batch j h s)
