-- ===== src/Send/Rows.antt =====
-- The row of an item and a channel in a table of deliveries with distinct ids, through an UPDATE and an
-- INSERT.
use pmvp.Prelude.{
  ℕ, ◌≤◌, ◌≡◌, refl, Bool, true, false, not, ◌&&◌, ◌||◌, ◌==◌, ==-refl, Option, none, some, List,
  [], ◌∷◌, ◌++◌, if◌then◌else◌, arith,
}
use pmvp.Delivery.{
  Delivery, DeliveryStatus, Channel, find_delivery, finish_attempt, claim_values, update_where,
  record_outcome, mark_sent, mark_failed, mark_unknown, RetryConfig, Attempt, no_recipient,
  not_preparable, answered, accepted, ambiguous, not_accepted, pending, cancelled,
}
use pmvp.Send.{latest_delivery, next_id, pending_row, same_channel}

-- The row went out, failed, or is going out: its message was not left untried.
abbrev pub is_attempted : DeliveryStatus → Bool
is_attempted pending = false
is_attempted cancelled = false
is_attempted _ = true

unfoldable pub has_delivery : ℕ → List Delivery → Bool
has_delivery id [] = false
has_delivery id (d ∷ table) = (d.id == id) || has_delivery id table

-- No two rows have the same id.
unfoldable pub rows_distinct : List Delivery → Bool
unfolding has_delivery
rows_distinct [] = true
rows_distinct (d ∷ table) = not (has_delivery d.id table) && rows_distinct table

-- The values of an UPDATE keep the row's item and channel too.
abbrev pub KeepsPlace : (Delivery → Delivery) → Type 0
KeepsPlace f =
    (d : Delivery)
    → ((f d).id ≡ d.id) × ((f d).payroll_item_id ≡ d.payroll_item_id) × ((f d).channel ≡ d.channel)

pub claim-KeepsPlace : (now : ℕ) (batch_id : Option ℕ) → KeepsPlace (claim_values now batch_id)
unfolding claim_values
claim-KeepsPlace now batch_id d = (refl, refl, refl)

pub finish-KeepsPlace :
    (config : RetryConfig) (now : ℕ) (attempt : Attempt)
    → KeepsPlace (finish_attempt config now attempt)
unfolding finish_attempt record_outcome mark_sent mark_failed mark_unknown
finish-KeepsPlace config now no_recipient d = (refl, refl, refl)
finish-KeepsPlace config now not_preparable d = (refl, refl, refl)
finish-KeepsPlace config now (answered (accepted none)) d = (refl, refl, refl)
finish-KeepsPlace config now (answered (accepted (some m))) d = (refl, refl, refl)
finish-KeepsPlace config now (answered ambiguous) d = (refl, refl, refl)
finish-KeepsPlace config now (answered (not_accepted r)) d = (refl, refl, refl)

pub finish-attempted :
    (config : RetryConfig) (now : ℕ) (attempt : Attempt) (d : Delivery)
    → is_attempted (finish_attempt config now attempt d).status ≡ true
unfolding finish_attempt record_outcome mark_sent mark_failed mark_unknown
finish-attempted config now no_recipient d = refl
finish-attempted config now not_preparable d = refl
finish-attempted config now (answered (accepted none)) d = refl
finish-attempted config now (answered (accepted (some m))) d = refl
finish-attempted config now (answered ambiguous) d = refl
finish-attempted config now (answered (not_accepted r)) d = refl

latest-has :
    (item : ℕ) (channel : Channel) (table : List Delivery) {d : Delivery}
    → latest_delivery item channel table ≡ some d
    → has_delivery d.id table ≡ true
unfolding latest_delivery has_delivery
latest-has item channel [] h = ground arith
latest-has item channel (row ∷ table) {d} h =
    ground (arith, ==-refl row.id, latest-has item channel table {d = d})

update-has :
    (id j : ℕ) (condition : Delivery → Bool) (values : Delivery → Delivery) (table : List Delivery)
    → KeepsPlace values
    → has_delivery j (update_where id condition values table).1 ≡ has_delivery j table
unfolding update_where has_delivery
update-has id j condition values [] k = refl
update-has id j condition values (row ∷ table) k =
    ground (arith, k row, update-has id j condition values table k)

pub update-distinct :
    (id : ℕ) (condition : Delivery → Bool) (values : Delivery → Delivery) (table : List Delivery)
    → KeepsPlace values
    → rows_distinct table ≡ true
    → rows_distinct (update_where id condition values table).1 ≡ true
unfolding update_where rows_distinct
update-distinct id condition values [] k h = refl
update-distinct id condition values (row ∷ table) k h = ground (
  arith,
  k row,
  update-distinct id condition values table k,
  update-has id row.id condition values table k,
)

-- The row of an item and a channel after an UPDATE.
pub latest-update :
    (id item : ℕ) (channel : Channel) (condition : Delivery → Bool) (values : Delivery → Delivery)
    (table : List Delivery) {d : Delivery}
    → KeepsPlace values
    → rows_distinct table ≡ true
    → latest_delivery item channel table ≡ some d
    → latest_delivery item channel (update_where id condition values table).1
      ≡ some (if (d.id == id) && condition d then values d else d)
unfolding update_where latest_delivery rows_distinct
latest-update id item channel condition values [] k r h = ground arith
latest-update id item channel condition values (row ∷ table) {d} k r h = ground (
  arith,
  k row,
  latest-has item channel table {d = d},
  latest-update id item channel condition values table {d = d} k,
)

pub find-distinct :
    (item : ℕ) (channel : Channel) (table : List Delivery) {d : Delivery}
    → rows_distinct table ≡ true
    → latest_delivery item channel table ≡ some d
    → find_delivery d.id table ≡ some d
unfolding latest_delivery find_delivery rows_distinct
find-distinct item channel [] r h = ground arith
find-distinct item channel (row ∷ table) {d} r h = ground (
  arith,
  ==-refl row.id,
  latest-has item channel table {d = d},
  find-distinct item channel table {d = d},
)

pub latest-append :
    (item : ℕ) (channel : Channel) (table new : List Delivery) {d : Delivery}
    → latest_delivery item channel table ≡ some d
    → latest_delivery item channel (table ++ new) ≡ some d
unfolding latest_delivery
latest-append item channel [] new h = ground arith
latest-append item channel (row ∷ table) new {d} h =
    ground (arith, latest-append item channel table new {d = d})

same_channel_refl : (channel : Channel) → same_channel channel channel ≡ true
same_channel_refl channel = ground arith

pub latest-inserted :
    (run_id item : ℕ) (channel : Channel) (id : ℕ) (table : List Delivery)
    → latest_delivery item channel table ≡ none
    → latest_delivery item channel (table ++ (pending_row run_id item channel id ∷ []))
      ≡ some (pending_row run_id item channel id)
unfolding latest_delivery
latest-inserted run_id item channel id [] h = rw (==-refl item, same_channel_refl channel) refl
latest-inserted run_id item channel id (row ∷ table) h =
    ground (arith, latest-inserted run_id item channel id table)

has-append :
    (j : ℕ) (table : List Delivery) (row : Delivery)
    → has_delivery j (table ++ (row ∷ [])) ≡ (has_delivery j table || (row.id == j))
unfolding has_delivery
has-append j [] row = ground arith
has-append j (d ∷ table) row = ground (arith, has-append j table row)

pub distinct-append :
    (table : List Delivery) (row : Delivery)
    → rows_distinct table ≡ true
    → next_id table ≤ row.id
    → rows_distinct (table ++ (row ∷ [])) ≡ true
unfolding rows_distinct next_id has_delivery
distinct-append [] row r h = refl
distinct-append (d ∷ table) row r h =
    ground (arith, distinct-append table row, has-append d.id table row)
