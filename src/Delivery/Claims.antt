-- ===== src/Delivery/Claims.antt =====
-- Who may send one delivery: `claim_delivery` and `_attempt_send` of app/distribution/service.py.
use pmvp.Prelude.{
  ℕ, ◌≡◌, refl, inl, inr, Bool, true, false, Option, none, some, ◌==◌, List, [], ◌∷◌, arith,
  if◌then◌else◌, Bool-cases, ==-refl,
}
use pmvp.Delivery.{
  Delivery, RetryConfig, Claimable, is_skipped_by_send, can_claim, claim_values, update_where,
  find_delivery, claim_delivery, Attempt, no_recipient, not_preparable, answered, accepted,
  ambiguous, not_accepted, SendResult, mark_sent, mark_failed, mark_unknown, record_outcome,
  finish_attempt, always, attempt_send,
}

-- The values of an UPDATE keep the row's id.
abbrev pub KeepsId : (Delivery → Delivery) → Type 0
KeepsId values = (d : Delivery) → (values d).id ≡ d.id

claim_values-KeepsId : (now : ℕ) (batch_id : Option ℕ) → KeepsId (claim_values now batch_id)
unfolding claim_values
claim_values-KeepsId now batch_id d = refl

pub record_outcome-KeepsId :
    (config : RetryConfig) (now : ℕ) (result : SendResult)
    → KeepsId (record_outcome config now result)
unfolding record_outcome mark_sent mark_failed mark_unknown
record_outcome-KeepsId config now (accepted none) d = refl
record_outcome-KeepsId config now (accepted (some m)) d = refl
record_outcome-KeepsId config now ambiguous d = refl
record_outcome-KeepsId config now (not_accepted r) d = refl

finish_attempt-KeepsId :
    (config : RetryConfig) (now : ℕ) (attempt : Attempt)
    → KeepsId (finish_attempt config now attempt)
unfolding finish_attempt mark_failed
finish_attempt-KeepsId config now no_recipient d = refl
finish_attempt-KeepsId config now not_preparable d = refl
finish_attempt-KeepsId config now (answered r) d = record_outcome-KeepsId config now r d

-- Whether an UPDATE changed a row, and what is found afterwards.
pub update_where-0 :
    (id : ℕ) (condition : Delivery → Bool) (values : Delivery → Delivery) (table : List Delivery)
    {d : Delivery}
    → find_delivery id table ≡ some d
    → (update_where id condition values table).0 ≡ condition d
unfolding update_where find_delivery
update_where-0 id condition values [] h = cc
update_where-0 id condition values (row ∷ table) {d} h =
    ground (arith, update_where-0 id condition values table {d = d})

find_delivery-update_where :
    (id j : ℕ) (condition : Delivery → Bool) (values : Delivery → Delivery) (table : List Delivery)
    {d : Delivery}
    → KeepsId values
    → find_delivery id table ≡ some d
    → find_delivery j (update_where id condition values table).1
      ≡ (if j == id then some (if condition d then values d else d) else find_delivery j table)
unfolding update_where find_delivery
find_delivery-update_where id j condition values [] k h = cc
find_delivery-update_where id j condition values (row ∷ table) {d} k h =
    ground (arith, k row, find_delivery-update_where id j condition values table {d = d} k)

-- An UPDATE whose condition fails on the row changes nothing.
pub update_where-refused :
    (id : ℕ) (condition : Delivery → Bool) (values : Delivery → Delivery) (table : List Delivery)
    {d : Delivery}
    → find_delivery id table ≡ some d
    → condition d ≡ false
    → update_where id condition values table ≡ (false, table)
unfolding update_where find_delivery
update_where-refused id condition values [] h f = cc
update_where-refused id condition values (row ∷ table) {d} h f =
    ground (arith, update_where-refused id condition values table {d = d})

-- An unchanged table, read in the form of the law above.
find_unchanged :
    (id j : ℕ) (table : List Delivery) {d : Delivery}
    → find_delivery id table ≡ some d
    → find_delivery j table ≡ (if j == id then some d else find_delivery j table)
find_unchanged id j table h = elim (Bool-cases (j == id)) [
  | inl e ↦ let same : j ≡ id = ground arith in rw (e, same, h) refl
  | inr e ↦ rw e refl
]

-- The row of an UPDATE whose condition holds, and of a second one that always applies.
update_found :
    (id : ℕ) (condition : Delivery → Bool) (values : Delivery → Delivery) (table : List Delivery)
    {d : Delivery}
    → KeepsId values
    → find_delivery id table ≡ some d
    → condition d ≡ true
    → find_delivery id (update_where id condition values table).1 ≡ some (values d)
update_found id condition values table {d} k h e =
    rw (find_delivery-update_where id id condition values table {d = d} k h, ==-refl id, e) refl

update_twice :
    (id j : ℕ) (condition : Delivery → Bool) (values finish : Delivery → Delivery)
    (table : List Delivery) {d : Delivery}
    → KeepsId values
    → KeepsId finish
    → find_delivery id table ≡ some d
    → condition d ≡ true
    → find_delivery j (update_where id always finish (update_where id condition values table).1).1
      ≡ (if j == id then some (finish (values d)) else find_delivery j table)
update_twice id j condition values finish table {d} k l h e =
    let claimed = (update_where id condition values table).1 in
    rw
      (find_delivery-update_where id j always finish claimed {d = values d} l
        (update_found id condition values table k h e))
      (rw (find_delivery-update_where id j condition values table {d = d} k h)
        (elim (Bool-cases (j == id)) [ inl s ↦ rw s refl | inr s ↦ rw s refl ]))

skipped-can_claim :
    (claimable : Claimable) (require : Bool) (d : Delivery)
    → is_skipped_by_send d.status ≡ true
    → can_claim claimable require d ≡ false
unfolding can_claim
skipped-can_claim claimable require d s = ground arith

claimed-can_claim :
    (claimable : Claimable) (require : Bool) (now : ℕ) (batch_id : Option ℕ) (d : Delivery)
    → can_claim claimable require (claim_values now batch_id d) ≡ false
unfolding can_claim claim_values
claimed-can_claim claimable require now batch_id d = ground arith

-- One attempt to send a stored delivery. Where the claim's condition holds of the row, the attempt
-- reports the status it leaves, and the row is the claimed row with the attempt's outcome recorded;
-- otherwise it reports `none` and the row is as it was. No other row changes.
pub attempt_send_lem :
    (config : RetryConfig) (id j : ℕ) (claimable : Claimable) (batch_id : Option ℕ)
    (require_scheduled_retry : Bool) (now : ℕ) (attempt : Attempt) (table : List Delivery)
    {d : Delivery}
    → find_delivery id table ≡ some d
    → let outcome =
        attempt_send config id claimable batch_id require_scheduled_retry now attempt table in
      let finished = finish_attempt config now attempt (claim_values now batch_id d) in
      (outcome.0
        ≡ (if can_claim claimable require_scheduled_retry d then some finished.status else none))
      × (find_delivery j outcome.1 ≡ (
          if j == id
          then some (if can_claim claimable require_scheduled_retry d then finished else d)
          else find_delivery j table))
unfolding attempt_send claim_delivery
attempt_send_lem config id j claimable batch_id require now attempt table {d} h =
    let finish = finish_attempt config now attempt in
    let condition = can_claim claimable require in
    let values = claim_values now batch_id in
    elim (Bool-cases (condition d)) [
      | inr e ↦
          rw (update_where-refused id condition values table h e, e)
            (refl, find_unchanged id j table h)
      | inl e ↦
          let claimed =
            update_found id condition values table (claim_values-KeepsId now batch_id) h e in
          let twice = λ (i : ℕ).
            update_twice id i condition values finish table (claim_values-KeepsId now batch_id)
              (finish_attempt-KeepsId config now attempt) h e in
          rw (update_where-0 id condition values table h, e)
            (rw (twice id, ==-refl id) refl, twice j)
    ]

-- A delivery that is sent, being sent or of unknown outcome is claimed by nobody: the attempt reports
-- `none`, and the table is as it was.
attempt_send-skipped :
    (config : RetryConfig) (id : ℕ) (claimable : Claimable) (batch_id : Option ℕ)
    (require_scheduled_retry : Bool) (now : ℕ) (attempt : Attempt) (table : List Delivery)
    {d : Delivery}
    → find_delivery id table ≡ some d
    → is_skipped_by_send d.status ≡ true
    → attempt_send config id claimable batch_id require_scheduled_retry now attempt table
      ≡ (none, table)
unfolding attempt_send claim_delivery
attempt_send-skipped config id claimable batch_id require now attempt table {d} h s =
    rw
      (update_where-refused id (can_claim claimable require) (claim_values now batch_id) table h
        (skipped-can_claim claimable require d s))
      refl

-- At most one of two claims of the same delivery wins: after a claim has won, another (from any
-- queue, for a first send or a retry, at any time) is lost and changes nothing.
pub claim_delivery-exclusive :
    (id : ℕ) (claimable other : Claimable) (batch_id other_batch : Option ℕ)
    (require scheduled : Bool) (now later : ℕ) (table : List Delivery) {d : Delivery}
    → find_delivery id table ≡ some d
    → (claim_delivery id claimable batch_id require now table).0 ≡ true
    → let claimed = (claim_delivery id claimable batch_id require now table).1 in
      claim_delivery id other other_batch scheduled later claimed ≡ (false, claimed)
unfolding claim_delivery
claim_delivery-exclusive id claimable other batch_id other_batch require scheduled now later table
      {d} h won =
    let claimed =
      (update_where id (can_claim claimable require) (claim_values now batch_id) table).1 in
    let cond =
      update_where-0 id (can_claim claimable require) (claim_values now batch_id) table h in
    update_where-refused id (can_claim other scheduled) (claim_values later other_batch) claimed
      {d = claim_values now batch_id d}
      (update_found id (can_claim claimable require) (claim_values now batch_id) table
        (claim_values-KeepsId now batch_id) h (ground arith))
      (claimed-can_claim other scheduled now batch_id d)
