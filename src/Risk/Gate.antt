-- ===== src/Risk/Gate.antt =====
-- The verdict of the gate, against what the rules say of it.
use pmvp.Prelude.{
  ℕ, ◌*◌, ◌≤◌, ◌≡◌, ◌≢◌, ◌⊎◌, ◌↔◌, inl, inr, sym, Bool, true, false, Option, none, some, List, [],
  ◌∷◌, arith, Bool-cases, Option-cases, ltb, ◌||◌,
}
use mathlib.Core.Path.{subst}
use pmvp.Prelude.Int.{ℤ, pos, ◌-ℤ◌}
use pmvp.Status.{Run}
use pmvp.Risk.{
  is_baseline, comes_first, previous_closed_run, prior_run_count, net_of, abs, exceeds, run_is_held,
}

-- `current` is within `percent` of `previous`; of a previous 0, only 0 is.
abbrev pub IsWithin : ℕ → ℤ → ℤ → Type 0
IsWithin percent current previous =
    ((abs previous ≡ 0) × (abs current ≡ 0))
    ⊎ ((abs previous ≢ 0) × (100 * abs (current -ℤ previous) ≤ percent * abs previous))

exceeds-IsWithin :
    (percent : ℕ) (current previous : ℤ)
    → exceeds percent current previous ≡ false
    → IsWithin percent current previous
unfolding exceeds
exceeds-IsWithin percent current previous h = ground arith

IsWithin-exceeds :
    (percent : ℕ) (current previous : ℤ)
    → IsWithin percent current previous
    → exceeds percent current previous ≡ false
unfolding exceeds
IsWithin-exceeds percent current previous h = ground arith

no_rule_tripped : (a b c : Bool) → (a || (b || c)) ≡ false → (a ≡ false) × (b ≡ false) × (c ≡ false)
no_rule_tripped a b c h = ground arith

-- Every run that could be compared with comes no earlier in the order than `prev`.
abbrev pub AllBefore : Run → Run → List Run → Type 0
AllBefore run prev [] = Unit
AllBefore run prev (r ∷ runs) =
    ((is_baseline run r ≡ false) ⊎ (comes_first prev r ≡ true)) × AllBefore run prev runs

comes_first_refl : (a : Run) → comes_first a a ≡ true
comes_first_refl a = ground arith

comes_first_trans :
    (a b c : Run) → comes_first a b ≡ true → comes_first b c ≡ true → comes_first a c ≡ true
comes_first_trans a b c h k = ground arith

comes_first-total : (a b : Run) → comes_first a b ≡ false → comes_first b a ≡ true
comes_first-total a b h = ground arith

AllBefore-trans :
    (run a b : Run) (runs : List Run)
    → comes_first a b ≡ true
    → AllBefore run b runs
    → AllBefore run a runs
AllBefore-trans run a b [] h k = tt
AllBefore-trans run a b (r ∷ runs) h (k, ks) = (
  elim k [ inl e ↦ inl e | inr e ↦ inr (comes_first_trans a b r h e) ],
  AllBefore-trans run a b runs h ks,
)

-- No run can be compared with.
AllBefore-none :
    (run prev : Run) (runs : List Run)
    → previous_closed_run run runs ≡ none
    → AllBefore run prev runs
unfolding previous_closed_run
AllBefore-none run prev [] h = tt
AllBefore-none run prev (r ∷ runs) h = elim (Bool-cases (is_baseline run r)) [
  | inl e ↦ absurd (ground arith)
  | inr e ↦ (inl e, AllBefore-none run prev runs (ground arith))
]

-- A run that can be compared with, and comes first of those in the list.
abbrev pub IsLatest : Run → List Run → Run → Type 0
IsLatest run runs prev = (is_baseline run prev ≡ true) × AllBefore run prev runs

latest :
    (run : Run) (runs : List Run) {prev : Run}
    → previous_closed_run run runs ≡ some prev
    → IsLatest run runs prev
unfolding previous_closed_run
latest run [] h = cc
latest run (r ∷ runs) {prev} h = elim (Bool-cases (is_baseline run r)) [
  | inr e ↦
      let (base, before) = latest run runs {prev = prev} (ground arith) in (base, (inl e, before))
  | inl e ↦ elim (Option-cases (previous_closed_run run runs)) [
    | inl f ↦
        let same : prev ≡ r = ground arith in
        subst (IsLatest run (r ∷ runs)) (sym same)
          (e, (inr (comes_first_refl r), AllBefore-none run r runs f))
    | inr (b, f) ↦
        let (base, before) = latest run runs {prev = b} f in
        elim (Bool-cases (comes_first r b)) [
          | inl c ↦
              let same : prev ≡ r = ground arith in
              subst (IsLatest run (r ∷ runs)) (sym same)
                (e, (inr (comes_first_refl r), AllBefore-trans run r b runs c before))
          | inr c ↦
              let same : prev ≡ b = ground arith in
              subst (IsLatest run (r ∷ runs)) (sym same)
                (base, (inr (comes_first-total r b c), before))
        ]
  ]
]

-- Is the run like the one it is compared with?
abbrev pub IsUsual : Run → Option Run → Type 0
IsUsual run none = Unit
IsUsual run (some prev) =
    IsWithin 15 (net_of run) (net_of prev)
    × IsWithin 20 (pos run.total_workers) (pos prev.total_workers)

-- A run is auto-accepted exactly when its client has at least two other runs, and its net pay and
-- headcount are within 15 and 20 percent of the previous closed run's, where there is one.
pub run_is_held_iff :
    (runs : List Run) (run : Run)
    → (run_is_held runs run ≡ false)
      ↔ ((2 ≤ prior_run_count run runs) × IsUsual run (previous_closed_run run runs))
unfolding run_is_held
run_is_held_iff runs run = elim (Option-cases (previous_closed_run run runs)) [
  | inl e ↦ rw e ((λ h. ground arith), (λ h. ground arith))
  | inr (prev, e) ↦ rw e (
    (λ h.
        let (few, net, heads) =
          no_rule_tripped (ltb (prior_run_count run runs) 2) (exceeds 15 (net_of run) (net_of prev))
            (exceeds 20 (pos run.total_workers) (pos prev.total_workers)) h in
        (
          ground arith,
          (
            exceeds-IsWithin 15 (net_of run) (net_of prev) net,
            exceeds-IsWithin 20 (pos run.total_workers) (pos prev.total_workers) heads,
          ),
        )),
    (λ h.
        rw
          (
            IsWithin-exceeds 15 (net_of run) (net_of prev) h.1.0,
            IsWithin-exceeds 20 (pos run.total_workers) (pos prev.total_workers) h.1.1,
          )
          (ground arith)),
  )
]

-- The run that the gate compares with is a closed run of the same client, other than the run
-- itself, and none such was created later (or, created then, has a larger id).
previous_closed_run-IsLatest :
    (run : Run) (runs : List Run) {prev : Run}
    → previous_closed_run run runs ≡ some prev
    → IsLatest run runs prev
previous_closed_run-IsLatest run runs h = latest run runs h
