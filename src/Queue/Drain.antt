-- ===== src/Queue/Drain.antt =====
-- The worker's pass over the queue: `claim_next_batch` and `process_all_queued` of
-- app/distribution/queue.py.
use pmvp.Prelude.{
  ℕ, zero, suc, ◌≤◌, ◌≡◌, inl, inr, true, false, ◌==◌, ==_iff, sym, Option, some, List, [], ◌∷◌,
  arith, Bool-cases, Option-cases, length,
}
use pmvp.Queue.{Batch, running, is_unfinished, is_queued, first_batch, change_first}
use pmvp.Passes.{claim_next_batch, Summary, finish_batch, has_id, process_batch, process_all_queued}
use pmvp.Queue.Rounds.{
  count_queued, ids_distinct, claim-count, claim-none, claim-distinct, claim-first, change-count,
  change-distinct, finish_batch-queued,
}

-- A batch of the table that is not queued is found again after a claim.
claim-keeps :
    (now worker id : ℕ) (table : List Batch) {c : Batch}
    → first_batch (has_id id) table ≡ some c
    → is_queued c.status ≡ false
    → first_batch (has_id id) (claim_next_batch now worker table).1 ≡ some c
unfolding claim_next_batch first_batch
claim-keeps now worker id [] h q = ground arith
claim-keeps now worker id (b ∷ table) {c} h q =
    ground (arith, claim-keeps now worker id table {c = c})

-- The outcome of a batch is found in the table, and the other batches are as they were.
change-found :
    (id : ℕ) (f : Batch → Batch) (table : List Batch) {b : Batch}
    → ((c : Batch) → (f c).id ≡ c.id)
    → first_batch (has_id id) table ≡ some b
    → first_batch (has_id id) (change_first (has_id id) f table) ≡ some (f b)
unfolding change_first first_batch
change-found id f [] k h = ground arith
change-found id f (c ∷ table) {b} k h = ground (arith, k c, change-found id f table {b = b} k)

change-keeps :
    (id j : ℕ) (f : Batch → Batch) (table : List Batch) {c : Batch}
    → ((b : Batch) → (f b).id ≡ b.id)
    → (id == j) ≡ false
    → first_batch (has_id id) table ≡ some c
    → first_batch (has_id id) (change_first (has_id j) f table) ≡ some c
unfolding change_first first_batch
change-keeps id j f [] k n h = ground arith
change-keeps id j f (b ∷ table) {c} k n h =
    ground (arith, k b, change-keeps id j f table {c = c} k n)

found-clash :
    (id j : ℕ) (table : List Batch) {b c : Batch}
    → (id == j) ≡ true
    → first_batch (has_id id) table ≡ some c
    → first_batch (has_id j) table ≡ some b
    → b.status ≡ running
    → is_unfinished c.status ≡ false
    → ⊥
found-clash id j table {b} {c} e h g r u = ground (arith, (==_iff id j).0 e)

finished-queued : (b : Batch) → is_unfinished b.status ≡ false → is_queued b.status ≡ false
finished-queued b u = ground arith

-- A finished batch of the table stays as it is while the queue is drained.
drain-keeps :
    (fuel : ℕ) (distribute : Batch → Option Summary) (now worker id : ℕ) (table : List Batch)
    {c : Batch}
    → ids_distinct table ≡ true
    → first_batch (has_id id) table ≡ some c
    → is_unfinished c.status ≡ false
    → first_batch (has_id id) (process_all_queued fuel distribute now worker table).1 ≡ some c
unfolding process_all_queued process_batch
drain-keeps zero distribute now worker id table d h u = h
drain-keeps (suc fuel) distribute now worker id table {c} d h u =
    let rest = (claim_next_batch now worker table).1 in
    let kept = claim-keeps now worker id table h (finished-queued c u) in
    elim (Option-cases (claim_next_batch now worker table).0) [
      | inl e ↦ rw (e, process_all_queued) kept
      | inr (b, e) ↦
          let finish = finish_batch now (distribute b) in
          let same_id = λ (x : Batch). (finish_batch-queued now (distribute b) x).1 in
          let distinct =
            change-distinct b.id finish rest same_id (claim-distinct now worker table d) in
          rw (e, process_all_queued)
            (elim (Bool-cases (id == b.id)) [
              | inl same ↦
                  elim (found-clash id b.id rest same kept (claim-first now worker table d e)
                    (claim-count now worker table e).1 u) [ ]
              | inr apart ↦
                  drain-keeps fuel distribute now worker id (change_first (has_id b.id) finish rest)
                    distinct (change-keeps id b.id finish rest same_id apart kept) u
            ])
    ]

-- Every batch of a list is completed or failed, and stands so in the table.
abbrev pub AllStored : List Batch → List Batch → Type 0
AllStored [] table = Unit
AllStored (b ∷ processed) table =
    (is_unfinished b.status ≡ false)
    × (first_batch (has_id b.id) table ≡ some b)
    × AllStored processed table

-- As many rounds as there are queued batches, or more, are enough for the drain of the queue: it
-- ends with no batch queued in the table, it processed as many batches as were queued, and the table
-- that it leaves has each of them, completed or failed, as it was returned.
pub process_all_queued_lem :
    (fuel : ℕ) (distribute : Batch → Option Summary) (now worker : ℕ) (table : List Batch)
    → ids_distinct table ≡ true
    → count_queued table ≤ fuel
    → let drained = process_all_queued fuel distribute now worker table in
      (count_queued drained.1 ≡ 0)
      × (length drained.0 ≡ count_queued table)
      × AllStored drained.0 drained.1
unfolding process_all_queued process_batch
process_all_queued_lem zero distribute now worker table d f = (ground arith, ground arith, tt)
process_all_queued_lem (suc fuel) distribute now worker table d f =
    let rest = (claim_next_batch now worker table).1 in
    elim (Option-cases (claim_next_batch now worker table).0) [
      | inl e ↦
          let (none_left, none_first) = claim-none now worker table e in
          rw (e, process_all_queued) (none_left, sym none_first, tt)
      | inr (b, e) ↦
          let finish = finish_batch now (distribute b) in
          let counted = claim-count now worker table e in
          let found = claim-first now worker table d e in
          let next = change_first (has_id b.id) finish rest in
          let facts = finish_batch-queued now (distribute b) in
          let same = change-count b.id finish rest (λ c. (facts c).0) found counted.1 in
          let distinct =
            change-distinct b.id finish rest (λ c. (facts c).1)
              (claim-distinct now worker table d) in
          let stored = change-found b.id finish rest (λ c. (facts c).1) found in
          let rec =
            process_all_queued_lem fuel distribute now worker next distinct (ground arith) in
          rw (e, process_all_queued)
            (
              rec.0,
              omega (arith, rec.1, same, counted.0),
              (
                (facts b).2,
                rw ((facts b).1)
                    (drain-keeps fuel distribute now worker b.id next distinct stored (facts b).2),
                rec.2,
              ),
            )
    ]
