-- ===== src/Lockout.antt =====
-- app/login_throttle.py: failed logins are counted for each key (an address or an account), and a
-- key that fails too often is locked. Times are seconds of the monotonic clock.
pub mod Entries
pub mod Counting
mod Tests
use pmvp.Prelude.{
  ℕ, ◌+◌, ◌-◌, max, Bool, true, false, ◌||◌, leb, ltb, Option, none, some, List, [], ◌∷◌, length,
  if◌then◌else◌,
}
use pmvp.Text.{Text, text_eq}

-- window_seconds(), max_attempts(), lockout_seconds()
pub record LoginConfig : Type 0 where
  pub window_seconds : ℕ
  pub max_attempts : ℕ
  pub lockout_seconds : ℕ

pub record Attempts : Type 0 where
  pub failures : ℕ
  pub first_at : ℕ
  pub locked_until : Option ℕ

-- `_state`
abbrev pub LoginState : Type 0
LoginState = List (Text × Attempts)

-- `_state.get(key)`, `_state[key] = entry` and `_state.pop(key, None)`
unfoldable pub get_entry : Text → LoginState → Option Attempts
get_entry key [] = none
get_entry key ((k, e) ∷ state) = if text_eq k key then some e else get_entry key state

unfoldable pub put_entry : Text → Attempts → LoginState → LoginState
put_entry key entry [] = (key, entry) ∷ []
put_entry key entry ((k, e) ∷ state) =
    if text_eq k key then (k, entry) ∷ state else (k, e) ∷ put_entry key entry state

unfoldable pub pop_entry : Text → LoginState → LoginState
pop_entry key [] = []
pop_entry key ((k, e) ∷ state) =
    if text_eq k key then pop_entry key state else (k, e) ∷ pop_entry key state

abbrev pub is_locked : ℕ → Option ℕ → Bool
is_locked now none = false
is_locked now (some until) = ltb now until

-- `_prune`: drop the entries that are neither locked nor inside their window.
unfoldable pub prune_entries : LoginConfig → ℕ → LoginState → LoginState
prune_entries config now [] = []
prune_entries config now ((k, e) ∷ state) =
    if is_locked now e.locked_until || ltb now (e.first_at + config.window_seconds)
    then (k, e) ∷ prune_entries config now state
    else prune_entries config now state

abbrev pub new_attempts : ℕ → Attempts
new_attempts now = record { failures = 0; first_at = now; locked_until = none }

-- The entry that a failure counts on: a new one where there is none, where the window of an
-- unlocked one is over, and where the lock is over.
abbrev pub current_attempts : LoginConfig → ℕ → Option Attempts → Attempts
current_attempts config now none = new_attempts now
current_attempts config now (some e) = elim e.locked_until [
  | none ↦ if leb (e.first_at + config.window_seconds) now then new_attempts now else e
  | some until ↦ if leb until now then new_attempts now else e
]

-- `entry["failures"] += 1`, and the lock
abbrev pub count_failure : LoginConfig → ℕ → Attempts → Attempts
count_failure config now e =
    let failures = e.failures + 1 in
    if leb config.max_attempts failures
    then record e { failures = failures; locked_until = some (now + config.lockout_seconds) }
    else record e { failures = failures }

-- One round of the loop of `register_failure`, with its part of the answer.
unfoldable pub fail_key : LoginConfig → ℕ → Text → LoginState → Bool × LoginState
unfolding get_entry put_entry
fail_key config now key state =
    let e = current_attempts config now (get_entry key state) in
    (leb config.max_attempts (e.failures + 1), put_entry key (count_failure config now e) state)

unfoldable pub fail_keys : LoginConfig → ℕ → List Text → LoginState → Bool × LoginState
unfolding fail_key
fail_keys config now [] state = (false, state)
fail_keys config now (key ∷ keys) state =
    let (here, after) = fail_key config now key state in
    let (rest, last) = fail_keys config now keys after in (here || rest, last)

-- _MAX_TRACKED_KEYS
abbrev pub max_login_keys : ℕ
max_login_keys = 10000

unfoldable pub register_failure : LoginConfig → ℕ → List Text → LoginState → Bool × LoginState
unfolding prune_entries fail_keys
register_failure config now keys state =
    fail_keys config now keys
      (if leb max_login_keys (length state) then prune_entries config now state else state)

abbrev pub remaining_lock : ℕ → Option Attempts → ℕ
remaining_lock now none = 0
remaining_lock now (some e) = elim e.locked_until [ none ↦ 0 | some until ↦ until - now ]

unfoldable pub retry_after : ℕ → List Text → LoginState → ℕ
unfolding get_entry
retry_after now [] state = 0
retry_after now (key ∷ keys) state =
    max (remaining_lock now (get_entry key state)) (retry_after now keys state)

unfoldable pub clear : List Text → LoginState → LoginState
unfolding pop_entry
clear [] state = state
clear (key ∷ keys) state = clear keys (pop_entry key state)
