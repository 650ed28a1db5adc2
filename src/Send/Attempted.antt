-- ===== src/Send/Attempted.antt =====
-- Which items a send attempts: `distribute_run` of app/distribution/service.py on a table with distinct
-- ids.
use pmvp.Prelude.{
  ℕ, ◌≡◌, refl, ◌⊎◌, inl, inr, Bool, true, false, ◌&&◌, ◌==◌, ==-refl, Option, some, List, [], ◌∷◌,
  ◌++◌, if◌then◌else◌, arith, Bool-cases, Option-cases,
}
use pmvp.Delivery.{
  Delivery, Channel, Claimable, for_send, is_skipped_by_send, can_claim, find_delivery,
  attempt_send, finish_attempt, claim_values, update_where, always, claim_delivery, RetryConfig,
  Attempt,
}
use pmvp.Delivery.Claims.{update_where-0, update_where-refused}
use pmvp.Send.Safety.{find-fresh}
use pmvp.Send.{
  latest_delivery, next_id, pending_row, insert_pending, SendSummary, empty_summary, count_item,
  Sending, send_item, distribute_items, distribute_run,
}
use pmvp.Send.Rows.{
  is_attempted, rows_distinct, claim-KeepsPlace, finish-KeepsPlace, finish-attempted,
  update-distinct, latest-update, find-distinct, latest-append, latest-inserted, distinct-append,
}

attempted-after :
    (config : RetryConfig) (id now : ℕ) (attempt : Attempt) (d middle : Delivery)
    → (is_attempted d.status ≡ true) ⊎ (d.id ≡ id)
    → (middle.id ≡ d.id) × ((d.id ≡ id) ⊎ (middle.status ≡ d.status))
    → is_attempted
        (if (middle.id == id) && true
          then finish_attempt config now attempt middle
          else middle).status
      ≡ true
attempted-after config id now attempt d middle k m = elim (Bool-cases (middle.id == id)) [
  | inl e ↦ rw e (finish-attempted config now attempt middle)
  | inr e ↦ rw e (ground (arith, ==-refl id))
]

-- The row of an item and a channel after an attempt on a row of the table: it is there, and it has been
-- attempted if it was, or if it is that row and could be claimed.
attempt-latest :
    (config : RetryConfig) (id item : ℕ) (channel : Channel) (claimable : Claimable)
    (batch_id : Option ℕ) (require : Bool) (now : ℕ) (attempt : Attempt) (table : List Delivery)
    {d e : Delivery}
    → rows_distinct table ≡ true
    → find_delivery id table ≡ some e
    → latest_delivery item channel table ≡ some d
    → let after = (attempt_send config id claimable batch_id require now attempt table).1 in
      (rows_distinct after ≡ true)
      × ((f : Delivery) × (latest_delivery item channel after ≡ some f)
          × (((is_attempted d.status ≡ true)
                ⊎ ((d.id ≡ id) × (can_claim claimable require e ≡ true)))
              → is_attempted f.status ≡ true))
unfolding attempt_send claim_delivery
attempt-latest config id item channel claimable batch_id require now attempt table {d} {e} r g h =
    let condition = can_claim claimable require in
    let values = claim_values now batch_id in
    let finish = finish_attempt config now attempt in
    let keeps = claim-KeepsPlace now batch_id in
    let ends = finish-KeepsPlace config now attempt in
    let claimed = (update_where id condition values table).1 in
    let r1 = update-distinct id condition values table keeps r in
    let middle = if (d.id == id) && condition d then values d else d in
    let h1 = latest-update id item channel condition values table keeps r h in
    elim (Bool-cases (condition e)) [
      | inr lost ↦
          rw (update_where-refused id condition values table g lost) (r, (d, h, λ k. ground arith))
      | inl wins ↦
          rw (update_where-0 id condition values table g, wins)
            (
              update-distinct id always finish claimed ends r1,
              (
                (if (middle.id == id) && true then finish middle else middle),
                latest-update id item channel always finish claimed {d = middle} ends r1 h1,
                λ k.
                    attempted-after config id now attempt d middle (ground arith)
                      (ground (arith, keeps d)),
              ),
            )
    ]

-- An item of a full send is attempted, and the other items that were stay so.
abbrev pub IsAttempted : ℕ → Channel → List Delivery → Type 0
IsAttempted item channel table =
    (f : Delivery) × (latest_delivery item channel table ≡ some f) × (is_attempted f.status ≡ true)

send_item-attempts :
    (s : Sending) (item : ℕ) (table : List Delivery)
    → s.only_failed ≡ false
    → rows_distinct table ≡ true
    → (rows_distinct (send_item s item table).1 ≡ true)
      × IsAttempted item (s.channel_of item) (send_item s item table).1
unfolding send_item insert_pending can_claim
send_item-attempts s item table o r =
    let channel = s.channel_of item in
    elim (Option-cases (latest_delivery item channel table)) [
      | inl n ↦
          let row = pending_row s.run_id item channel (next_id table) in
          let (r1, (f, l, a)) =
            attempt-latest s.config row.id item channel for_send s.batch_id false s.now
              (s.attempt_of item) (table ++ (row ∷ [])) {d = row} {e = row}
              (distinct-append table row r (omega arith))
              (find-fresh row.id table row (omega arith) refl)
              (latest-inserted s.run_id item channel row.id table n) in
          rw (n, send_item, o) (r1, (f, l, a (inr (refl, refl))))
      | inr (x, n) ↦
          let found = find-distinct item channel table r n in
          let (r1, (f, l, a)) =
            attempt-latest s.config x.id item channel for_send s.batch_id false s.now
              (s.attempt_of item) table {d = x} {e = x} r found n in
          elim (Bool-cases (is_skipped_by_send x.status)) [
            | inl k ↦ rw (n, send_item, o, k) (r, (x, n, ground arith))
            | inr k ↦ rw (n, send_item, o, k) (r1, (f, l, a (inr (refl, ground arith))))
          ]
    ]

send_item-IsAttempted :
    (s : Sending) (item other : ℕ) (channel : Channel) (table : List Delivery)
    → s.only_failed ≡ false
    → rows_distinct table ≡ true
    → IsAttempted other channel table
    → IsAttempted other channel (send_item s item table).1
unfolding send_item insert_pending
send_item-IsAttempted s item other channel table o r (d, h, k) =
    elim (Option-cases (latest_delivery item (s.channel_of item) table)) [
      | inl n ↦
          let row = pending_row s.run_id item (s.channel_of item) (next_id table) in
          let (r1, (f, l, a)) =
            attempt-latest s.config row.id other channel for_send s.batch_id false s.now
              (s.attempt_of item) (table ++ (row ∷ [])) {d = d} {e = row}
              (distinct-append table row r (omega arith))
              (find-fresh row.id table row (omega arith) refl)
              (latest-append other channel table (row ∷ []) h) in
          rw (n, send_item, o) (f, l, a (inl k))
      | inr (x, n) ↦
          let (r1, (f, l, a)) =
            attempt-latest s.config x.id other channel for_send s.batch_id false s.now
              (s.attempt_of item) table {d = d} {e = x} r
              (find-distinct item (s.channel_of item) table r n) h in
          elim (Bool-cases (is_skipped_by_send x.status)) [
            | inl e ↦ rw (n, send_item, o, e) (d, h, k)
            | inr e ↦ rw (n, send_item, o, e) (f, l, a (inl k))
          ]
    ]

distribute_items-IsAttempted :
    (s : Sending) (items : List ℕ) (summary : SendSummary) (other : ℕ) (channel : Channel)
    (table : List Delivery)
    → s.only_failed ≡ false
    → rows_distinct table ≡ true
    → IsAttempted other channel table
    → IsAttempted other channel (distribute_items s items summary table).1
unfolding distribute_items
distribute_items-IsAttempted s [] summary other channel table o r a = a
distribute_items-IsAttempted s (item ∷ items) summary other channel table o r a =
    distribute_items-IsAttempted s items (count_item (send_item s item table).0 summary) other
      channel (send_item s item table).1 o (send_item-attempts s item table o r).0
      (send_item-IsAttempted s item other channel table o r a)

-- Every item of a list has its row attempted.
abbrev pub AllAttempted : (ℕ → Channel) → List ℕ → List Delivery → Type 0
AllAttempted channel_of [] table = Unit
AllAttempted channel_of (item ∷ items) table =
    IsAttempted item (channel_of item) table × AllAttempted channel_of items table

distribute_items-AllAttempted :
    (s : Sending) (items : List ℕ) (summary : SendSummary) (table : List Delivery)
    → s.only_failed ≡ false
    → rows_distinct table ≡ true
    → AllAttempted s.channel_of items (distribute_items s items summary table).1
unfolding distribute_items
distribute_items-AllAttempted s [] summary table o r = tt
distribute_items-AllAttempted s (item ∷ items) summary table o r =
    let (r1, a) = send_item-attempts s item table o r in
    let next = count_item (send_item s item table).0 summary in
    (
      distribute_items-IsAttempted s items next item (s.channel_of item) (send_item s item table).1
          o r1 a,
      distribute_items-AllAttempted s items next (send_item s item table).1 o r1,
    )

-- After a full send (not only of failures) on a table with distinct ids, every item of the run has a
-- row on its channel that was attempted: no item is left without a row, pending or cancelled, whatever
-- the providers answer.
pub distribute_run-AllAttempted :
    (s : Sending) (items : List ℕ) (table : List Delivery)
    → s.only_failed ≡ false
    → rows_distinct table ≡ true
    → AllAttempted s.channel_of items (distribute_run s items table).1
unfolding distribute_run
distribute_run-AllAttempted s items table o r =
    distribute_items-AllAttempted s items empty_summary table o r
