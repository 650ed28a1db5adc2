-- ===== src/Delivery/Attempts.antt =====
-- What one attempt does to a stored delivery: `_attempt_send` of app/distribution/service.py.
use pmvp.Prelude.{
  ℕ, ◌+◌, ◌≡◌, ◌⊎◌, refl, ap, ◌∙◌, inl, inr, Bool, true, false, not, ◌&&◌, ◌||◌, ◌==◌, ==-refl,
  Option, none, some, List, arith, if◌then◌else◌, Bool-cases,
}
use pmvp.Delivery.{
  Delivery, DeliveryStatus, pending, sending, sent, failed, unknown, cancelled, RetryConfig,
  Claimable, for_send, for_retry, is_claimable, is_set, can_claim, claim_values, claim_delivery,
  find_delivery, Attempt, no_recipient, not_preparable, answered, accepted, ambiguous, not_accepted,
  mark_sent, mark_failed, mark_unknown, record_outcome, finish_attempt, attempt_send,
}
use pmvp.Delivery.Claims.{attempt_send_lem, update_where-refused}

-- The statuses that a first send and a retry may claim.
abbrev pub HasClaimableStatus : Claimable → DeliveryStatus → Type 0
HasClaimableStatus for_send status = (status ≡ pending) ⊎ (status ≡ failed) ⊎ (status ≡ cancelled)
HasClaimableStatus for_retry status = status ≡ failed

-- A claim may be made; one by the schedule needs a scheduled retry.
abbrev pub MayClaim : Claimable → Bool → Delivery → Type 0
MayClaim claimable scheduled d =
    HasClaimableStatus claimable d.status × (scheduled ≡ true → is_set d.next_retry_at ≡ true)

-- The status that an attempt ends in.
abbrev pub status_after : Attempt → DeliveryStatus
status_after no_recipient = failed
status_after not_preparable = failed
status_after (answered (accepted message_id)) = sent
status_after (answered ambiguous) = unknown
status_after (answered (not_accepted retryable)) = failed

-- The message id that the provider gave, if it gave one.
abbrev pub message_of : Attempt → Option ℕ
message_of (answered (accepted message_id)) = message_id
message_of _ = none

claimable-status :
    (claimable : Claimable) (status : DeliveryStatus)
    → is_claimable claimable status ≡ true
    → HasClaimableStatus claimable status
claimable-status for_send pending h = inl refl
claimable-status for_send failed h = inr (inl refl)
claimable-status for_send cancelled h = inr (inr refl)
claimable-status for_send sending h = cc
claimable-status for_send sent h = cc
claimable-status for_send unknown h = cc
claimable-status for_retry pending h = cc
claimable-status for_retry failed h = refl
claimable-status for_retry cancelled h = cc
claimable-status for_retry sending h = cc
claimable-status for_retry sent h = cc
claimable-status for_retry unknown h = cc

status-claimable :
    (claimable : Claimable) (status : DeliveryStatus)
    → HasClaimableStatus claimable status
    → is_claimable claimable status ≡ true
status-claimable for_send status (inl e) = rw e refl
status-claimable for_send status (inr (inl e)) = rw e refl
status-claimable for_send status (inr (inr e)) = rw e refl
status-claimable for_retry status e = rw e refl

claim-parts :
    (status scheduled due : Bool)
    → (status && (not scheduled || due)) ≡ true
    → (status ≡ true) × (scheduled ≡ true → due ≡ true)
claim-parts status scheduled due h = (ground arith, λ e. ground arith)

claim-whole :
    (status scheduled due : Bool)
    → status ≡ true
    → (scheduled ≡ true → due ≡ true)
    → (status && (not scheduled || due)) ≡ true
claim-whole status true due h k = rw (h, k refl) refl
claim-whole status false due h k = rw h refl

can_claim-MayClaim :
    (claimable : Claimable) (scheduled : Bool) (d : Delivery)
    → can_claim claimable scheduled d ≡ true
    → MayClaim claimable scheduled d
unfolding can_claim
can_claim-MayClaim claimable scheduled d h =
    let (status, due) =
      claim-parts (is_claimable claimable d.status) scheduled (is_set d.next_retry_at) h in
    (claimable-status claimable d.status status, due)

MayClaim-can_claim :
    (claimable : Claimable) (scheduled : Bool) (d : Delivery)
    → MayClaim claimable scheduled d
    → can_claim claimable scheduled d ≡ true
unfolding can_claim
MayClaim-can_claim claimable scheduled d (status, due) =
    claim-whole _ scheduled _ (status-claimable claimable d.status status) due

if-then : {A : Type 0} {b : Bool} (x y : A) → b ≡ true → (if b then x else y) ≡ x
if-then x y h = rw h refl

if-else : {A : Type 0} {b : Bool} (x y : A) → b ≡ false → (if b then x else y) ≡ y
if-else x y h = rw h refl

refused-table :
    (config : RetryConfig) (id : ℕ) (claimable : Claimable) (batch_id : Option ℕ) (scheduled : Bool)
    (now : ℕ) (attempt : Attempt) (table : List Delivery) {d : Delivery}
    → find_delivery id table ≡ some d
    → can_claim claimable scheduled d ≡ false
    → (attempt_send config id claimable batch_id scheduled now attempt table).1 ≡ table
unfolding attempt_send claim_delivery
refused-table config id claimable batch_id scheduled now attempt table h c =
    rw
      (update_where-refused id (can_claim claimable scheduled) (claim_values now batch_id) table h
        c)
      refl

clash : {b : Bool} → b ≡ true → b ≡ false → ⊥
clash h g = ground arith

-- The row that a claimed attempt leaves.
abbrev pub IsAttempted : ℕ → Attempt → Delivery → Delivery → Type 0
IsAttempted now attempt d f =
    (f.status ≡ status_after attempt)
    × (f.attempts ≡ d.attempts + 1)
    × (f.claimed_at ≡ some now)
    × (f.payroll_item_id ≡ d.payroll_item_id)
    × (f.channel ≡ d.channel)
    × (is_set (message_of attempt) ≡ true → f.provider_message_id ≡ message_of attempt)

finished-IsAttempted :
    (config : RetryConfig) (now : ℕ) (batch_id : Option ℕ) (attempt : Attempt) (d : Delivery)
    → IsAttempted now attempt d (finish_attempt config now attempt (claim_values now batch_id d))
unfolding finish_attempt record_outcome mark_sent mark_failed mark_unknown claim_values
finished-IsAttempted config now b no_recipient d = (refl, refl, refl, refl, refl, λ m. cc)
finished-IsAttempted config now b not_preparable d = (refl, refl, refl, refl, refl, λ m. cc)
finished-IsAttempted config now b (answered (accepted none)) d =
    (refl, refl, refl, refl, refl, λ m. cc)
finished-IsAttempted config now b (answered (accepted (some i))) d =
    (refl, refl, refl, refl, refl, λ m. refl)
finished-IsAttempted config now b (answered ambiguous) d = (refl, refl, refl, refl, refl, λ m. cc)
finished-IsAttempted config now b (answered (not_accepted r)) d =
    (refl, refl, refl, refl, refl, λ m. cc)

-- One attempt to send a stored delivery. Either the row may be claimed: a first send claims a
-- pending, failed or cancelled one and a retry a failed one, by the schedule only with a retry
-- scheduled. Then the attempt reports the status that it stores: sent where the provider accepted,
-- unknown where its answer was ambiguous, and failed otherwise; the row counts one attempt more, has
-- the time of the claim and the provider's new message id, and no other row changes. Or the row may
-- not be claimed: the attempt reports `none`, and the table is as it was.
pub attempt_send-outcome :
    (config : RetryConfig) (id : ℕ) (claimable : Claimable) (batch_id : Option ℕ)
    (require_scheduled_retry : Bool) (now : ℕ) (attempt : Attempt) (table : List Delivery)
    {d : Delivery}
    → find_delivery id table ≡ some d
    → let (report, after) =
        attempt_send config id claimable batch_id require_scheduled_retry now attempt table in
      (MayClaim claimable require_scheduled_retry d
        × ((f : Delivery) × (report ≡ some f.status)
            × (find_delivery id after ≡ some f)
            × IsAttempted now attempt d f)
        × ((j : ℕ) → (j == id) ≡ false → find_delivery j after ≡ find_delivery j table))
      ⊎ ((MayClaim claimable require_scheduled_retry d → ⊥) × (report ≡ none) × (after ≡ table))
attempt_send-outcome config id claimable batch_id require now attempt table {d} h =
    let sent_at =
      λ (j : ℕ). attempt_send_lem config id j claimable batch_id require now attempt table h in
    elim (Bool-cases (can_claim claimable require d)) [
      | inl c ↦ inl (
        can_claim-MayClaim claimable require d c,
        (
          finish_attempt config now attempt (claim_values now batch_id d),
          (sent_at id).0 ∙ if-then _ _ c,
          (sent_at id).1 ∙ if-then _ _ (==-refl id) ∙ ap some (if-then _ _ c),
          finished-IsAttempted config now batch_id attempt d,
        ),
        λ j apart. (sent_at j).1 ∙ if-else _ _ apart,
      )
      | inr c ↦ inr (
        λ may. clash (MayClaim-can_claim claimable require d may) c,
        (sent_at id).0 ∙ if-else _ _ c,
        refused-table config id claimable batch_id require now attempt table h c,
      )
    ]
