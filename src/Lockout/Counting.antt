-- ===== src/Lockout/Counting.antt =====
-- The failures of one key (app/login_throttle.py), up to the one that locks it.
use pmvp.Prelude.{
  ℕ, ◌+◌, ◌-◌, max, ◌≡◌, ◌<◌, ◌∙◌, ap, refl, true, leb, none, some, List, [], ◌∷◌, length, le→leb,
  arith,
}
use pmvp.Text.{Text}
use pmvp.Lockout.{
  LoginConfig, Attempts, LoginState, get_entry, current_attempts, count_failure, register_failure,
  retry_after, remaining_lock,
}
use pmvp.Lockout.Entries.{get_entry-prune, get_entry-prune_none, times_named, register_one}

-- An unlocked entry with some failures since a time.
abbrev pub counted_from : ℕ → ℕ → Attempts
counted_from n first = record { failures = n; first_at = first; locked_until = none }

current_young :
    (config : LoginConfig) (now n first : ℕ)
    → now < first + config.window_seconds
    → current_attempts config now (some (counted_from n first)) ≡ counted_from n first
current_young config now n first young = ground arith

-- A failure inside the window.
register_young :
    (config : LoginConfig) (now n first : ℕ) (key : Text) (keys : List Text) (state : LoginState)
    → times_named key keys ≡ 1
    → now < first + config.window_seconds
    → get_entry key state ≡ some (counted_from n first)
    → let done = register_failure config now keys state in
      (leb config.max_attempts (n + 1) ≡ true → done.0 ≡ true)
      × (get_entry key done.1 ≡ some (count_failure config now (counted_from n first)))
register_young config now n first key keys state once young found =
    let e = current_young config now n first young in
    let (answer, entry) =
      register_one config now key keys state (some (counted_from n first)) once
        (get_entry-prune config now key state found young) found in
    (
      λ full. answer (ap (λ x. leb config.max_attempts (x.failures + 1)) e ∙ full),
      entry ∙ ap (λ x. some (count_failure config now x)) e,
    )

-- Failed logins: when, and the keys of each.
abbrev pub fail_calls : LoginConfig → List (ℕ × List Text) → LoginState → LoginState
fail_calls config [] state = state
fail_calls config ((t, keys) ∷ calls) state =
    fail_calls config calls (register_failure config t keys state).1

-- Calls before a time that name the key once each.
abbrev pub AllNameBefore : Text → ℕ → List (ℕ × List Text) → Type 0
AllNameBefore key end [] = Unit
AllNameBefore key end ((t, keys) ∷ calls) =
    (t < end) × (times_named key keys ≡ 1) × AllNameBefore key end calls

below_limit :
    (config : LoginConfig) (now n first : ℕ)
    → n + 1 < config.max_attempts
    → count_failure config now (counted_from n first) ≡ counted_from (n + 1) first
below_limit config now n first h = ground arith

fail_calls-counts :
    (config : LoginConfig) (n first : ℕ) (key : Text) (calls : List (ℕ × List Text))
    (state : LoginState)
    → AllNameBefore key (first + config.window_seconds) calls
    → n + length calls < config.max_attempts
    → get_entry key state ≡ some (counted_from n first)
    → get_entry key (fail_calls config calls state) ≡ some (counted_from (n + length calls) first)
fail_calls-counts config n first key [] state before under found =
    rw found (ap (λ m. some (counted_from m first)) (omega arith))
fail_calls-counts config n first key ((t, keys) ∷ calls) state (young, once, before) under found =
    let (answer, entry) = register_young config t n first key keys state once young found in
    let counted = entry ∙ ap some (below_limit config t n first (omega arith)) in
    fail_calls-counts config (n + 1) first key calls _ before (omega arith) counted
    ∙ ap (λ m. some (counted_from m first)) (omega arith)

max_zero : (n : ℕ) → max n 0 ≡ n
max_zero n = omega arith

retry_after-found :
    (now : ℕ) (key : Text) (state : LoginState) (e : Attempts)
    → get_entry key state ≡ some e
    → retry_after now (key ∷ []) state ≡ elim e.locked_until [ none ↦ 0 | some until ↦ until - now ]
unfolding retry_after
retry_after-found now key state e found = rw found (max_zero (remaining_lock now (some e)))

-- A key without an entry is locked by the failed login that reaches the limit, where all of them fall
-- into the window of the first and each names the key once, whatever other keys it names: up to the
-- one before it the key is not locked, that one answers that something is locked, and the lock of
-- the key then lasts the lockout time from it, pruning included.
pub register_failure-locks :
    (config : LoginConfig) (first last : ℕ) (first_keys last_keys : List Text)
    (calls : List (ℕ × List Text)) (key : Text) (state : LoginState)
    → get_entry key state ≡ none
    → times_named key first_keys ≡ 1
    → times_named key last_keys ≡ 1
    → AllNameBefore key (first + config.window_seconds) calls
    → last < first + config.window_seconds
    → length calls + 2 ≡ config.max_attempts
    → let before = fail_calls config ((first, first_keys) ∷ calls) state in
      let done = register_failure config last last_keys before in
      (retry_after last (key ∷ []) before ≡ 0)
      × (done.0 ≡ true)
      × ((now : ℕ) → retry_after now (key ∷ []) done.1 ≡ last + config.lockout_seconds - now)
register_failure-locks config first last first_keys last_keys calls key state absent once_first
      once_last before young limit =
    let (answer, entry) =
      register_one config first key first_keys state none once_first
        (get_entry-prune_none config first key state absent) absent in
    let started = entry ∙ ap some (below_limit config first 0 first (omega arith)) in
    let counted = fail_calls-counts config 1 first key calls _ before (omega arith) started in
    let (locks, locked) =
      register_young config last (1 + length calls) first key last_keys _ once_last young counted in
    let reached = le→leb config.max_attempts (1 + length calls + 1) (omega arith) in
    (
      retry_after-found last key _ _ counted,
      locks reached,
      λ now. retry_after-found now key _ _ locked ∙ rw reached refl,
    )
