-- ===== src/Delivery/Workers.antt =====
-- Several workers on one delivery: each claims the row, sends, and records its outcome, in any
-- interleaving, while stale claims are recovered and successful receipts arrive.
use pmvp.Prelude.{
  ℕ, ◌≡◌, refl, ◌⊎◌, inl, inr, Bool, true, false, Option, some, ◌==◌, arith, if◌then◌else◌,
  Bool-cases,
}
use pmvp.Delivery.{
  Delivery, sending, unknown, RetryConfig, Claimable, can_claim, claim_values, Attempt,
  finish_attempt, ReceiptOutcome, delivered, read, receipt_failed,
}
use pmvp.Settle.{recover_row, receipt_values}

-- The row, and which workers are between their claim and its outcome.
pub record System : Type 0 where
  pub row : Delivery
  pub is_busy : ℕ → Bool

abbrev pub set_busy : ℕ → Bool → (ℕ → Bool) → ℕ → Bool
set_busy w b is_busy v = if v == w then b else is_busy v

pub data WorkerStep (config : RetryConfig) : System → System → Type 0 where
  worker_claim :
      {s : System} (w : ℕ) (claimable : Claimable) (batch_id : Option ℕ) (require : Bool) (now : ℕ)
      → can_claim claimable require s.row ≡ true
      → WorkerStep config s
          (record { row = claim_values now batch_id s.row; is_busy = set_busy w true s.is_busy })
  worker_finish :
      {s : System} (w : ℕ) (now : ℕ) (attempt : Attempt)
      → s.is_busy w ≡ true
      → WorkerStep config s (record {
        row = finish_attempt config now attempt s.row;
        is_busy = set_busy w false s.is_busy;
      })
  recover :
      {s : System} (now : ℕ)
      → WorkerStep config s (record { row = recover_row now s.row; is_busy = s.is_busy })
  receive :
      {s : System} (now : ℕ) (outcome : ReceiptOutcome)
      → (outcome ≡ delivered) ⊎ (outcome ≡ read)
      → WorkerStep config s
          (record { row = receipt_values config now (some outcome) s.row; is_busy = s.is_busy })

pub data WorkerSteps (config : RetryConfig) : System → System → Type 0 where
  start : {s : System} → WorkerSteps config s s
  next : {s t u : System} → WorkerSteps config s t → WorkerStep config t u → WorkerSteps config s u

-- While a worker is busy the row is being sent, or its claim was taken for stale; and no other is busy.
abbrev pub IsExclusive : System → Type 0
IsExclusive s =
    (w : ℕ)
    → s.is_busy w ≡ true
    → ((s.row.status ≡ sending) ⊎ (s.row.status ≡ unknown)) × ((v : ℕ) → s.is_busy v ≡ true → v ≡ w)

claim-IsExclusive :
    (w now : ℕ) (claimable : Claimable) (batch_id : Option ℕ) (require : Bool) (s : System)
    → can_claim claimable require s.row ≡ true
    → IsExclusive s
    → IsExclusive
        (record { row = claim_values now batch_id s.row; is_busy = set_busy w true s.is_busy })
unfolding can_claim claim_values
claim-IsExclusive w now claimable batch_id require s c inv v b =
    let free : (u : ℕ) → s.is_busy u ≡ false = λ u. elim (Bool-cases (s.is_busy u)) [
      | inl e ↦ let x = (inv u e).0 in ground arith
      | inr e ↦ e
    ] in
    (inl refl, λ u k. ground (arith, free u, free v))

finish-IsExclusive :
    (w now : ℕ) (config : RetryConfig) (attempt : Attempt) (s : System)
    → s.is_busy w ≡ true
    → IsExclusive s
    → IsExclusive (record {
      row = finish_attempt config now attempt s.row;
      is_busy = set_busy w false s.is_busy;
    })
finish-IsExclusive w now config attempt s b inv v k = ground (arith, (inv w b).1 v)

recover-IsExclusive :
    (now : ℕ) (s : System)
    → IsExclusive s
    → IsExclusive (record { row = recover_row now s.row; is_busy = s.is_busy })
unfolding recover_row
recover-IsExclusive now s inv v k = (ground (arith, (inv v k).0), (inv v k).1)

receive-IsExclusive :
    (now : ℕ) (config : RetryConfig) (outcome : ReceiptOutcome) (s : System)
    → (outcome ≡ delivered) ⊎ (outcome ≡ read)
    → IsExclusive s
    → IsExclusive
        (record { row = receipt_values config now (some outcome) s.row; is_busy = s.is_busy })
unfolding receipt_values
receive-IsExclusive now config delivered s o inv = inv
receive-IsExclusive now config read s o inv = inv
receive-IsExclusive now config receipt_failed s o inv = ground arith

workers-IsExclusive :
    {config : RetryConfig} {s t : System}
    → ((w : ℕ) → s.is_busy w ≡ false)
    → WorkerSteps config s t
    → IsExclusive t
workers-IsExclusive f start = λ w b. ground (arith, f w)
workers-IsExclusive f (next {t} r (worker_claim w c b q now h)) =
    claim-IsExclusive w now c b q t h (workers-IsExclusive f r)
workers-IsExclusive {config} f (next {t} r (worker_finish w now a h)) =
    finish-IsExclusive w now config a t h (workers-IsExclusive f r)
workers-IsExclusive f (next {t} r (recover now)) =
    recover-IsExclusive now t (workers-IsExclusive f r)
workers-IsExclusive {config} f (next {t} r (receive now o h)) =
    receive-IsExclusive now config o t h (workers-IsExclusive f r)

-- However the workers' claims and outcomes, the recovery of stale claims and the successful receipts
-- interleave, two workers that are both between a claim of the delivery and its outcome are the same
-- worker, and the row is then being sent or, its claim having been taken for stale, unknown; when no
-- worker was busy at the start.
pub workers_exclude_each_other :
    {config : RetryConfig} {s t : System} (v w : ℕ)
    → ((u : ℕ) → s.is_busy u ≡ false)
    → WorkerSteps config s t
    → t.is_busy v ≡ true
    → t.is_busy w ≡ true
    → (v ≡ w) × ((t.row.status ≡ sending) ⊎ (t.row.status ≡ unknown))
workers_exclude_each_other v w f r bv bw =
    let facts = workers-IsExclusive f r w bw in (facts.1 v bv, facts.0)
