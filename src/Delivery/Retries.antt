-- ===== src/Delivery/Retries.antt =====
-- Automatic retries: `_mark_failed` and its backoff, and every operation of app/distribution that
-- changes a delivery's status, as steps on one row.
use pmvp.Prelude.{
  ◌≡◌, refl, ◌⊎◌, inl, inr, Bool, true, false, Option, none, some, ◌&&◌, ℕ, ◌+◌, ◌≤◌, ◌<◌, arith,
  Bool-cases,
}
use pmvp.Delivery.{
  Delivery, sending, failed, RetryConfig, Claimable, for_retry, is_set, is_failed, is_sending,
  is_unknown, can_claim, claim_values, Attempt, no_recipient, not_preparable, answered, accepted,
  ambiguous, not_accepted, mark_sent, mark_failed, mark_unknown, record_outcome, finish_attempt,
  retry_time, is_not_false, ReceiptOutcome, delivered, read, receipt_failed,
}
use pmvp.Settle.{
  SettleOutcome, settle_sent, settle_not_sent, settle_values, is_stale, recover_row, receipt_values,
  cancel_retry,
}

-- What may happen to a stored delivery: a claim, the outcome of a claimed attempt, an operator's
-- settlement, the recovery of stale claims, a provider's receipt, and a cancelled distribution. An
-- outcome is recorded whatever has become of the row since its claim.
pub data Step (config : RetryConfig) : Delivery → Delivery → Type 0 where
  claim :
      {d : Delivery} (claimable : Claimable) (batch_id : Option ℕ) (require : Bool) (now : ℕ)
      → can_claim claimable require d ≡ true
      → Step config d (claim_values now batch_id d)
  finish :
      {d : Delivery} (now : ℕ) (attempt : Attempt)
      → Step config d (finish_attempt config now attempt d)
  settle :
      {d : Delivery} (outcome : SettleOutcome) (now : ℕ)
      → is_unknown d.status ≡ true
      → Step config d (settle_values outcome now d)
  recover : {d : Delivery} (now : ℕ) → Step config d (recover_row now d)
  receipt :
      {d : Delivery} (now : ℕ) (outcome : Option ReceiptOutcome)
      → Step config d (receipt_values config now outcome d)
  cancel : {d : Delivery} → Step config d (cancel_retry d)

pub data Steps (config : RetryConfig) : Delivery → Delivery → Type 0 where
  stay : {d : Delivery} → Steps config d d
  step : {d e f : Delivery} → Steps config d e → Step config e f → Steps config d f

-- A retry is scheduled only on a failed row with attempts left, or on one that was claimed from there.
abbrev pub HasRetryLeft : RetryConfig → Delivery → Type 0
HasRetryLeft config d =
    is_set d.next_retry_at ≡ true
    → ((d.status ≡ failed) × (d.attempts < config.max_attempts))
      ⊎ ((d.status ≡ sending) × (d.attempts ≤ config.max_attempts))

claim-HasRetryLeft :
    (config : RetryConfig) (claimable : Claimable) (batch_id : Option ℕ) (require : Bool) (now : ℕ)
    (d : Delivery)
    → can_claim claimable require d ≡ true
    → HasRetryLeft config d
    → HasRetryLeft config (claim_values now batch_id d)
unfolding can_claim claim_values
claim-HasRetryLeft config claimable batch_id require now d c inv set = ground (arith, inv set)

mark_failed-HasRetryLeft :
    (config : RetryConfig) (now : ℕ) (retry : Bool) (d : Delivery)
    → is_set (retry_time config now retry d.attempts) ≡ true
    → d.attempts < config.max_attempts
mark_failed-HasRetryLeft config now retry d set = ground arith

finish-HasRetryLeft :
    (config : RetryConfig) (now : ℕ) (attempt : Attempt) (d : Delivery)
    → HasRetryLeft config (finish_attempt config now attempt d)
unfolding finish_attempt record_outcome mark_sent mark_failed mark_unknown
finish-HasRetryLeft config now no_recipient d set = ground arith
finish-HasRetryLeft config now not_preparable d set = ground arith
finish-HasRetryLeft config now (answered (accepted none)) d set = ground arith
finish-HasRetryLeft config now (answered (accepted (some m))) d set = ground arith
finish-HasRetryLeft config now (answered ambiguous) d set = ground arith
finish-HasRetryLeft config now (answered (not_accepted r)) d set =
    inl (refl, mark_failed-HasRetryLeft config now (is_not_false r) d set)

settle-HasRetryLeft :
    (config : RetryConfig) (outcome : SettleOutcome) (now : ℕ) (d : Delivery)
    → HasRetryLeft config (settle_values outcome now d)
unfolding settle_values
settle-HasRetryLeft config settle_sent now d set = ground arith
settle-HasRetryLeft config settle_not_sent now d set = ground arith

recover-HasRetryLeft :
    (config : RetryConfig) (now : ℕ) (d : Delivery)
    → HasRetryLeft config d
    → HasRetryLeft config (recover_row now d)
unfolding recover_row
recover-HasRetryLeft config now d inv = elim (Bool-cases (is_stale now d)) [
  | inl e ↦ rw e (λ set. ground arith)
  | inr e ↦ rw e inv
]

receipt-HasRetryLeft :
    (config : RetryConfig) (now : ℕ) (outcome : Option ReceiptOutcome) (d : Delivery)
    → HasRetryLeft config d
    → HasRetryLeft config (receipt_values config now outcome d)
unfolding receipt_values mark_failed
receipt-HasRetryLeft config now none d inv = inv
receipt-HasRetryLeft config now (some delivered) d inv = inv
receipt-HasRetryLeft config now (some read) d inv = inv
receipt-HasRetryLeft config now (some receipt_failed) d inv = λ set. ground arith

cancel-HasRetryLeft :
    (config : RetryConfig) (d : Delivery)
    → HasRetryLeft config d
    → HasRetryLeft config (cancel_retry d)
unfolding cancel_retry
cancel-HasRetryLeft config d inv =
    elim (Bool-cases (is_failed d.status && is_set d.next_retry_at)) [
      | inl e ↦ rw e (λ set. ground arith)
      | inr e ↦ rw e inv
    ]

Step-HasRetryLeft :
    {config : RetryConfig} {d e : Delivery}
    → Step config d e
    → HasRetryLeft config d
    → HasRetryLeft config e
Step-HasRetryLeft {config} (claim {d} c b r now w) inv = claim-HasRetryLeft config c b r now d w inv
Step-HasRetryLeft {config} (finish {d} now a) inv = finish-HasRetryLeft config now a d
Step-HasRetryLeft {config} (settle {d} o now u) inv = settle-HasRetryLeft config o now d
Step-HasRetryLeft {config} (recover {d} now) inv = recover-HasRetryLeft config now d inv
Step-HasRetryLeft {config} (receipt {d} now o) inv = receipt-HasRetryLeft config now o d inv
Step-HasRetryLeft {config} (cancel {d}) inv = cancel-HasRetryLeft config d inv

-- The condition holds after any steps of a delivery that began with no retry scheduled.
Steps-HasRetryLeft :
    {config : RetryConfig} {d e : Delivery}
    → d.next_retry_at ≡ none
    → Steps config d e
    → HasRetryLeft config e
Steps-HasRetryLeft n stay = λ set. ground arith
Steps-HasRetryLeft n (step s t) = Step-HasRetryLeft t (Steps-HasRetryLeft n s)

-- How many of the steps are claims, each of which may send the payslip once.
abbrev pub one_claim : {config : RetryConfig} {d e : Delivery} → Step config d e → ℕ
one_claim (claim claimable batch_id require now w) = 1
one_claim (finish now attempt) = 0
one_claim (settle outcome now u) = 0
one_claim (recover now) = 0
one_claim (receipt now outcome) = 0
one_claim cancel = 0

abbrev pub count_claims : {config : RetryConfig} {d e : Delivery} → Steps config d e → ℕ
count_claims stay = 0
count_claims (step s t) = count_claims s + one_claim t

finish-attempts :
    (config : RetryConfig) (now : ℕ) (attempt : Attempt) (d : Delivery)
    → (finish_attempt config now attempt d).attempts ≡ d.attempts
unfolding finish_attempt record_outcome mark_sent mark_failed mark_unknown
finish-attempts config now no_recipient d = refl
finish-attempts config now not_preparable d = refl
finish-attempts config now (answered (accepted none)) d = refl
finish-attempts config now (answered (accepted (some m))) d = refl
finish-attempts config now (answered ambiguous) d = refl
finish-attempts config now (answered (not_accepted r)) d = refl

Step-attempts :
    {config : RetryConfig} {d e : Delivery} (t : Step config d e)
    → e.attempts ≡ d.attempts + one_claim t
unfolding claim_values settle_values recover_row receipt_values mark_failed cancel_retry
Step-attempts (claim c b r now w) = refl
Step-attempts {config} (finish {d} now a) = ground (arith, finish-attempts config now a d)
Step-attempts (settle settle_sent now u) = ground arith
Step-attempts (settle settle_not_sent now u) = ground arith
Step-attempts (recover now) = ground arith
Step-attempts (receipt now none) = ground arith
Step-attempts (receipt now (some delivered)) = ground arith
Step-attempts (receipt now (some read)) = ground arith
Step-attempts (receipt now (some receipt_failed)) = ground arith
Step-attempts cancel = ground arith

Steps-attempts :
    {config : RetryConfig} {d e : Delivery} (s : Steps config d e)
    → e.attempts ≡ d.attempts + count_claims s
Steps-attempts stay = omega arith
Steps-attempts (step s t) = omega (arith, Steps-attempts s, Step-attempts t)

-- Whatever happens to a delivery that began with no retry scheduled (claims, outcomes, settlements,
-- recoveries, receipts and cancellations, in any order), the retry worker claims it by its schedule
-- only while fewer claims than the allowed number of attempts have been made, by whomever, counting
-- the attempts that it began with.
pub retry_claim-bounded :
    {config : RetryConfig} {d e : Delivery} (s : Steps config d e)
    → d.next_retry_at ≡ none
    → can_claim for_retry true e ≡ true
    → d.attempts + count_claims s < config.max_attempts
unfolding can_claim
retry_claim-bounded s n c = ground (arith, Steps-HasRetryLeft n s, Steps-attempts s)

-- What goes on with no person in it: the retry worker's claims, their outcomes, the recovery of stale
-- claims and the receipts. An outcome is one of a row that is still being sent.
pub data Unattended (config : RetryConfig) : Delivery → Delivery → Type 0 where
  rest : {d : Delivery} → Unattended config d d
  retry :
      {d e : Delivery} (batch_id : Option ℕ) (now : ℕ)
      → Unattended config d e
      → can_claim for_retry true e ≡ true
      → Unattended config d (claim_values now batch_id e)
  outcome :
      {d e : Delivery} (now : ℕ) (attempt : Attempt)
      → Unattended config d e
      → is_sending e.status ≡ true
      → Unattended config d (finish_attempt config now attempt e)
  recovery :
      {d e : Delivery} (now : ℕ) → Unattended config d e → Unattended config d (recover_row now e)
  report :
      {d e : Delivery} (now : ℕ) (outcome : Option ReceiptOutcome)
      → Unattended config d e
      → Unattended config d (receipt_values config now outcome e)

-- A row that nobody is sending, with no retry scheduled.
abbrev pub IsAtRest : Delivery → Type 0
IsAtRest d = (is_sending d.status ≡ false) × (is_set d.next_retry_at ≡ false)
