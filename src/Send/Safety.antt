-- ===== src/Send/Safety.antt =====
-- What the send of a run leaves alone, and how it counts.
use mathlib.Core.Path.{subst}
use pmvp.Prelude.{
  ℕ, suc, ◌+◌, ◌≤◌, ◌≡◌, refl, ◌∙◌, ◌⊎◌, inl, inr, true, false, ◌==◌, ==-refl, Option, some, List,
  [], ◌∷◌, ◌++◌, length, arith, Bool-cases, Option-cases,
}
use pmvp.Delivery.{
  Delivery, DeliveryStatus, Channel, Claimable, for_send, for_retry, is_failed, is_skipped_by_send,
  can_claim, find_delivery,
}
use pmvp.Delivery.Claims.{attempt_send_lem}
use pmvp.Send.{
  latest_delivery, next_id, pending_row, insert_pending, SendSummary, empty_summary, count_item,
  Sending, try_send, send_item, distribute_items, distribute_run,
}

find-latest :
    (item : ℕ) (channel : Channel) (table : List Delivery) {d : Delivery}
    → latest_delivery item channel table ≡ some d
    → (e : Delivery) × (find_delivery d.id table ≡ some e)
unfolding latest_delivery find_delivery
find-latest item channel [] h = ground arith
find-latest item channel (row ∷ table) {d} h = elim (Bool-cases (row.id == d.id)) [
  | inl e ↦ (row, ground arith)
  | inr e ↦
      let (found, f) = find-latest item channel table {d = d} (ground (arith, ==-refl row.id)) in
      (found, ground arith)
]

find-append :
    (id : ℕ) (table new : List Delivery) {d : Delivery}
    → find_delivery id table ≡ some d
    → find_delivery id (table ++ new) ≡ some d
unfolding find_delivery
find-append id [] new h = ground arith
find-append id (row ∷ table) new {d} h = ground (arith, find-append id table new {d = d})

pub find-fresh :
    (id : ℕ) (table : List Delivery) (row : Delivery)
    → next_id table ≤ id
    → row.id ≡ id
    → find_delivery id (table ++ (row ∷ [])) ≡ some row
unfolding find_delivery next_id
find-fresh id [] row h r = ground (arith, ==-refl id)
find-fresh id (d ∷ table) row h r = ground (arith, find-fresh id table row)

-- A row that may not be claimed is as it was after an attempt on any stored row.
try_send-kept :
    (s : Sending) (item id j : ℕ) (claimable : Claimable) (table : List Delivery) {d e : Delivery}
    → find_delivery id table ≡ some e
    → find_delivery j table ≡ some d
    → can_claim claimable false d ≡ false
    → find_delivery j (try_send s item id claimable table).1 ≡ some d
try_send-kept s item id j claimable table {d} {e} h f c =
    let law = λ (x : Delivery) (g : find_delivery id table ≡ some x).
      (attempt_send_lem s.config id j claimable s.batch_id false s.now (s.attempt_of item) table
        {d = x} g).1 in
    elim (Bool-cases (j == id)) [
      | inr n ↦ law e h ∙ rw n f
      | inl y ↦
          let same : j ≡ id = ground arith in
          law d (subst (λ k. find_delivery k table ≡ some d) same f) ∙ rw (y, c) refl
    ]

-- The sent, sending and unknown rows; and when only failures are resent, every row but those.
abbrev pub IsLeftAlone : Sending → Delivery → Type 0
IsLeftAlone s d =
    (is_skipped_by_send d.status ≡ true) ⊎ ((s.only_failed ≡ true) × (is_failed d.status ≡ false))

left_alone-for_send :
    (s : Sending) (d : Delivery)
    → IsLeftAlone s d
    → s.only_failed ≡ false
    → can_claim for_send false d ≡ false
unfolding can_claim
left_alone-for_send s d k o = ground arith

left_alone-for_retry :
    (s : Sending) (d : Delivery)
    → IsLeftAlone s d
    → s.only_failed ≡ true
    → can_claim for_retry false d ≡ false
unfolding can_claim
left_alone-for_retry s d k o = ground arith

inserted-kept :
    (s : Sending) (item id : ℕ) (table : List Delivery) {d : Delivery}
    → find_delivery id table ≡ some d
    → can_claim for_send false d ≡ false
    → find_delivery id
        (try_send s item
          (next_id table)
          for_send
          (insert_pending s.run_id item (s.channel_of item) table)).1
      ≡ some d
unfolding insert_pending
inserted-kept s item id table {d} f c =
    let row = pending_row s.run_id item (s.channel_of item) (next_id table) in
    try_send-kept s item (next_id table) id for_send (table ++ (row ∷ [])) {d = d} {e = row}
      (find-fresh (next_id table) table row (omega arith) refl) (find-append id table (row ∷ []) f)
      c

send_item-kept :
    (s : Sending) (item id : ℕ) (table : List Delivery) {d : Delivery}
    → find_delivery id table ≡ some d
    → IsLeftAlone s d
    → find_delivery id (send_item s item table).1 ≡ some d
unfolding send_item
send_item-kept s item id table {d} f k =
    elim (Option-cases (latest_delivery item (s.channel_of item) table)) [
      | inl n ↦ elim (Bool-cases s.only_failed) [
        | inl o ↦ rw (n, send_item, o) f
        | inr o ↦
            rw (n, send_item, o) (inserted-kept s item id table f (left_alone-for_send s d k o))
      ]
      | inr (x, n) ↦
          let (e, h) = find-latest item (s.channel_of item) table n in
          elim (Bool-cases s.only_failed) [
            | inl o ↦ elim (Bool-cases (is_failed x.status)) [
              | inl y ↦
                  rw (n, send_item, o, y)
                    (try_send-kept s item x.id id for_retry table h f
                      (left_alone-for_retry s d k o))
              | inr y ↦ rw (n, send_item, o, y) f
            ]
            | inr o ↦ elim (Bool-cases (is_skipped_by_send x.status)) [
              | inl y ↦ rw (n, send_item, o, y) f
              | inr y ↦
                  rw (n, send_item, o, y)
                    (try_send-kept s item x.id id for_send table h f (left_alone-for_send s d k o))
            ]
          ]
    ]

distribute_items-kept :
    (s : Sending) (items : List ℕ) (summary : SendSummary) (id : ℕ) (table : List Delivery)
    {d : Delivery}
    → find_delivery id table ≡ some d
    → IsLeftAlone s d
    → find_delivery id (distribute_items s items summary table).1 ≡ some d
unfolding distribute_items
distribute_items-kept s [] summary id table f k = f
distribute_items-kept s (item ∷ items) summary id table f k =
    distribute_items-kept s items (count_item (send_item s item table).0 summary) id
      (send_item s item table).1 (send_item-kept s item id table f k) k

-- The send of a whole run leaves every delivery that is sent, being sent or of unknown outcome as it
-- was, whatever the items, the channels and the providers' answers; and when only failures are resent,
-- every delivery that has not failed.
pub distribute_run-keeps :
    (s : Sending) (items : List ℕ) (id : ℕ) (table : List Delivery) {d : Delivery}
    → find_delivery id table ≡ some d
    → IsLeftAlone s d
    → find_delivery id (distribute_run s items table).1 ≡ some d
unfolding distribute_run
distribute_run-keeps s items id table f k = distribute_items-kept s items empty_summary id table f k

count_item-adds :
    (status : Option DeliveryStatus) (s : SendSummary)
    → let t = count_item status s in
      (t.total ≡ suc s.total)
      × (t.sent + t.failed + t.unknown + t.skipped
          ≡ suc (s.sent + s.failed + s.unknown + s.skipped))
count_item-adds status s = ground arith

distribute_items-counts :
    (s : Sending) (items : List ℕ) (summary : SendSummary) (table : List Delivery)
    → let t = (distribute_items s items summary table).0 in
      (t.total ≡ summary.total + length items)
      × (t.sent + t.failed + t.unknown + t.skipped
          ≡ summary.sent + summary.failed + summary.unknown + summary.skipped + length items)
unfolding distribute_items
distribute_items-counts s [] summary table = (omega arith, omega arith)
distribute_items-counts s (item ∷ items) summary table =
    let status = (send_item s item table).0 in
    let added = count_item-adds status summary in
    let rest =
      distribute_items-counts s items (count_item status summary) (send_item s item table).1 in
    (omega (arith, added.0, rest.0), omega (arith, added.1, rest.1))

-- Every item of the run is counted in the total and in exactly one of sent, failed, unknown and
-- skipped.
distribute_run-counts :
    (s : Sending) (items : List ℕ) (table : List Delivery)
    → let t = (distribute_run s items table).0 in
      (t.total ≡ length items) × (t.sent + t.failed + t.unknown + t.skipped ≡ t.total)
unfolding distribute_run
distribute_run-counts s items table =
    let counts = distribute_items-counts s items empty_summary table in
    (omega (arith, counts.0), omega (arith, counts.0, counts.1))
