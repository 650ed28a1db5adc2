-- ===== src/Risk.antt =====
-- app/risk.py: the risk gate. A percentage is compared exactly, |change| * 100 against the
-- percentage of the previous value. The stored runs are a list.
pub mod Gate
mod Tests
use pmvp.Prelude.{
  ℕ, suc, ◌+◌, ◌*◌, Bool, true, false, not, ◌&&◌, ◌||◌, ◌==◌, ltb, leb, Option, none, some, List,
  [], ◌∷◌, if◌then◌else◌,
}
use pmvp.Prelude.Int.{ℤ, pos, pos_part, neg_part, ◌-ℤ◌}
use pmvp.Status.{Run, RunStatus, is_closed, is_rejected}

abbrev pub first_n_runs_held : ℕ
first_n_runs_held = 2

-- NET_PAY_VARIANCE_PCT and HEADCOUNT_SWING_PCT, in percent
abbrev pub net_pay_variance_pct : ℕ
net_pay_variance_pct = 15

abbrev pub headcount_swing_pct : ℕ
headcount_swing_pct = 20

-- `other.client_company_id == run.client_company_id`, for a run that has a client
abbrev pub same_client : Option ℕ → Option ℕ → Bool
same_client none other = false
same_client (some c) none = false
same_client (some c) (some d) = c == d

-- Another run of the same client.
abbrev pub is_other_of_client : Run → Run → Bool
is_other_of_client run other =
    same_client run.client_company_id other.client_company_id && not (other.id == run.id)

abbrev pub is_baseline : Run → Run → Bool
is_baseline run other = is_other_of_client run other && is_closed other.status

-- The order `created_at desc, id desc`: does `a` come no later than `b`?
abbrev pub comes_first : Run → Run → Bool
comes_first a b = ltb b.created_at a.created_at || (a.created_at == b.created_at && leb b.id a.id)

-- `first()` of a list that is ordered so, next to a run that stands before it
abbrev first_of_two : Run → Option Run → Run
first_of_two a none = a
first_of_two a (some b) = if comes_first a b then a else b

unfoldable pub previous_closed_run : Run → List Run → Option Run
previous_closed_run run [] = none
previous_closed_run run (r ∷ runs) =
    let best = previous_closed_run run runs in
    if is_baseline run r then some (first_of_two r best) else best

unfoldable pub prior_run_count : Run → List Run → ℕ
prior_run_count run [] = 0
prior_run_count run (r ∷ runs) =
    let rest = prior_run_count run runs in if is_other_of_client run r then suc rest else rest

-- `run.total_net_pay or 0`
abbrev pub net_of : Run → ℤ
net_of run = elim run.total_net_pay [ none ↦ pos 0 | some net ↦ net ]

abbrev pub abs : ℤ → ℕ
abs a = pos_part a + neg_part a

-- `_pct(current, previous) > threshold`, or `bool(current)` where there is no percentage
unfoldable pub exceeds : ℕ → ℤ → ℤ → Bool
exceeds percent current previous =
    if abs previous == 0
    then not (abs current == 0)
    else ltb (percent * abs previous) (100 * abs (current -ℤ previous))

pub record RiskVerdict : Type 0 where
  pub new_client : Bool
  pub net_pay_variance : Bool
  pub headcount_swing : Bool

-- `any(c.tripped for c in checks)`
abbrev pub is_tripped : RiskVerdict → Bool
is_tripped v = v.new_client || (v.net_pay_variance || v.headcount_swing)

abbrev rules_against : Run → Option Run → Bool → RiskVerdict
rules_against run none new_client = record {
  new_client = new_client;
  net_pay_variance = false;
  headcount_swing = false;
}
rules_against run (some prev) new_client = record {
  new_client = new_client;
  net_pay_variance = exceeds net_pay_variance_pct (net_of run) (net_of prev);
  headcount_swing = exceeds headcount_swing_pct (pos run.total_workers) (pos prev.total_workers);
}

unfoldable pub evaluate_run : List Run → Run → RiskVerdict
unfolding exceeds previous_closed_run prior_run_count
evaluate_run runs run =
    rules_against run (previous_closed_run run runs)
      (ltb (prior_run_count run runs) first_n_runs_held)

-- `held` of the verdict
unfoldable pub run_is_held : List Run → Run → Bool
unfolding evaluate_run
run_is_held runs run = is_tripped (evaluate_run runs run)

-- The filter of `find_possible_duplicates`, before its order and limit.
unfoldable pub is_possible_duplicate : Run → Run → Bool
is_possible_duplicate run other =
    not (abs (net_of run) == 0)
    && not (run.total_workers == 0)
    && is_other_of_client run other
    && not (is_rejected other.status)
    && abs (net_of other -ℤ net_of run) == 0
    && other.total_workers == run.total_workers
