-- ===== src/Queue/Rounds.antt =====
-- One round of the worker's loop over the table of batches: a claim and an outcome
-- (app/distribution/queue.py).
use pmvp.Prelude.{
  ℕ, suc, ◌≡◌, refl, ◌⊎◌, inl, inr, Bool, true, false, not, ◌&&◌, ◌||◌, ◌==◌, ==-refl, Option, none,
  some, List, [], ◌∷◌, ◌++◌, if◌then◌else◌, arith, Bool-cases,
}
use pmvp.Queue.{Batch, running, is_unfinished, is_queued, first_batch, change_first}
use pmvp.Passes.{start_batch, claim_next_batch, Summary, finish_batch, has_id}

-- The batches that are ahead of the claimed one.
unfoldable pub count_queued : List Batch → ℕ
count_queued [] = 0
count_queued (b ∷ table) =
    if is_queued b.status then suc (count_queued table) else count_queued table

unfoldable pub has_any : ℕ → List Batch → Bool
has_any id [] = false
has_any id (b ∷ table) = (b.id == id) || has_any id table

-- No two batches have the same id.
unfoldable pub ids_distinct : List Batch → Bool
unfolding has_any
ids_distinct [] = true
ids_distinct (b ∷ table) = not (has_any b.id table) && ids_distinct table

unfoldable pub none_queued : List Batch → Bool
none_queued [] = true
none_queued (b ∷ table) = not (is_queued b.status) && none_queued table

-- A claim takes the oldest queued batch: it is the first of the table, every batch created before it
-- is not queued, and it is the only one that changes (it runs, for that worker, from now). With no
-- claim no batch is queued, and the table is as it was.
claim_next_batch_lem :
    (now worker : ℕ) (table : List Batch)
    → (((claim_next_batch now worker table).0 ≡ none)
        × (none_queued table ≡ true)
        × ((claim_next_batch now worker table).1 ≡ table))
      ⊎ ((before : List Batch) × (b : Batch) × (after : List Batch) × (table
            ≡ before ++ (b ∷ after))
          × (none_queued before ≡ true)
          × (is_queued b.status ≡ true)
          × ((claim_next_batch now worker table).0 ≡ some (start_batch now worker b))
          × ((claim_next_batch now worker table).1 ≡ before ++ (start_batch now worker b ∷ after)))
unfolding claim_next_batch none_queued
claim_next_batch_lem now worker [] = inl (refl, refl, refl)
claim_next_batch_lem now worker (b ∷ table) = elim (Bool-cases (is_queued b.status)) [
  | inl e ↦ inr ([], b, table, refl, refl, e, ground arith, ground arith)
  | inr e ↦ elim (claim_next_batch_lem now worker table) [
    | inl (n, q, t) ↦ inl (ground arith, ground arith, ground arith)
    | inr (before, c, after, s, q, k, w, t) ↦
        inr (b ∷ before, c, after, ground arith, ground arith, k, ground arith, ground arith)
  ]
]

pub claim-count :
    (now worker : ℕ) (table : List Batch) {b : Batch}
    → (claim_next_batch now worker table).0 ≡ some b
    → (suc (count_queued (claim_next_batch now worker table).1) ≡ count_queued table)
      × (b.status ≡ running)
      × (has_any b.id table ≡ true)
unfolding claim_next_batch count_queued has_any
claim-count now worker [] h = ground arith
claim-count now worker (c ∷ table) {b} h =
    ground (arith, claim-count now worker table {b = b}, ==-refl c.id)

pub claim-none :
    (now worker : ℕ) (table : List Batch)
    → (claim_next_batch now worker table).0 ≡ none
    → (count_queued (claim_next_batch now worker table).1 ≡ 0) × (count_queued table ≡ 0)
unfolding claim_next_batch count_queued
claim-none now worker [] h = (refl, refl)
claim-none now worker (c ∷ table) h = ground (arith, claim-none now worker table)

claim-has_any :
    (now worker id : ℕ) (table : List Batch)
    → has_any id (claim_next_batch now worker table).1 ≡ has_any id table
unfolding claim_next_batch has_any
claim-has_any now worker id [] = refl
claim-has_any now worker id (c ∷ table) = ground (arith, claim-has_any now worker id table)

pub claim-distinct :
    (now worker : ℕ) (table : List Batch)
    → ids_distinct table ≡ true
    → ids_distinct (claim_next_batch now worker table).1 ≡ true
unfolding claim_next_batch ids_distinct
claim-distinct now worker [] h = refl
claim-distinct now worker (c ∷ table) h =
    ground (arith, claim-distinct now worker table, claim-has_any now worker c.id table)

pub claim-first :
    (now worker : ℕ) (table : List Batch) {b : Batch}
    → ids_distinct table ≡ true
    → (claim_next_batch now worker table).0 ≡ some b
    → first_batch (has_id b.id) (claim_next_batch now worker table).1 ≡ some b
unfolding claim_next_batch first_batch ids_distinct
claim-first now worker [] d h = ground arith
claim-first now worker (c ∷ table) {b} d h = ground (
  arith,
  claim-first now worker table {b = b},
  claim-count now worker table {b = b},
  ==-refl c.id,
)

-- The outcome of a batch: its id stays, and it is not queued.
pub change-count :
    (id : ℕ) (f : Batch → Batch) (table : List Batch) {b : Batch}
    → ((c : Batch) → is_queued (f c).status ≡ false)
    → first_batch (has_id id) table ≡ some b
    → b.status ≡ running
    → count_queued (change_first (has_id id) f table) ≡ count_queued table
unfolding change_first count_queued first_batch
change-count id f [] q h r = ground arith
change-count id f (c ∷ table) {b} q h r = ground (arith, q c, change-count id f table {b = b})

change-has_any :
    (id j : ℕ) (f : Batch → Batch) (table : List Batch)
    → ((c : Batch) → (f c).id ≡ c.id)
    → has_any j (change_first (has_id id) f table) ≡ has_any j table
unfolding change_first has_any
change-has_any id j f [] k = refl
change-has_any id j f (c ∷ table) k = ground (arith, k c, change-has_any id j f table k)

pub change-distinct :
    (id : ℕ) (f : Batch → Batch) (table : List Batch)
    → ((c : Batch) → (f c).id ≡ c.id)
    → ids_distinct table ≡ true
    → ids_distinct (change_first (has_id id) f table) ≡ true
unfolding change_first ids_distinct
change-distinct id f [] k h = refl
change-distinct id f (c ∷ table) k h =
    ground (arith, k c, change-distinct id f table k, change-has_any id c.id f table k)

pub finish_batch-queued :
    (now : ℕ) (summary : Option Summary) (b : Batch)
    → (is_queued (finish_batch now summary b).status ≡ false)
      × ((finish_batch now summary b).id ≡ b.id)
      × (is_unfinished (finish_batch now summary b).status ≡ false)
unfolding finish_batch
finish_batch-queued now none b = (refl, refl, refl)
finish_batch-queued now (some s) b = (refl, refl, refl)
