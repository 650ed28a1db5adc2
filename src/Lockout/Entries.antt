-- ===== src/Lockout/Entries.antt =====
-- The entries of the table of failed logins (app/login_throttle.py), and what one call does to a key's.
use pmvp.Prelude.{
  ℕ, ◌+◌, ◌≡◌, ◌<◌, ◌⊎◌, ◌∙◌, ap, refl, Bool, true, false, ◌||◌, leb, ltb, Option, none, some, List,
  [], ◌∷◌, length, Bool-cases, inl, inr, arith, if◌then◌else◌,
}
use pmvp.Text.{Text, text_eq, text_eq_refl, eq_of_text_eq}
use pmvp.Lockout.{
  LoginConfig, Attempts, LoginState, get_entry, put_entry, prune_entries, is_locked,
  current_attempts, count_failure, fail_key, fail_keys, register_failure, max_login_keys,
}

get_entry-put_entry :
    (key : Text) (e : Attempts) (state : LoginState)
    → get_entry key (put_entry key e state) ≡ some e
unfolding get_entry put_entry
get_entry-put_entry key e [] = rw (text_eq_refl key) refl
get_entry-put_entry key e ((k, f) ∷ state) = ground (arith, get_entry-put_entry key e state)

-- Another key's entry is found again.
get_entry-put_other :
    (key other : Text) (e : Attempts) (state : LoginState)
    → text_eq other key ≡ false
    → get_entry key (put_entry other e state) ≡ get_entry key state
unfolding get_entry put_entry
get_entry-put_other key other e [] apart = rw apart refl
get_entry-put_other key other e ((k, f) ∷ state) apart = elim (Bool-cases (text_eq k other)) [
  | inl same ↦
      let k_apart : text_eq k key ≡ false = rw (eq_of_text_eq k other same) apart in
      rw (put_entry, same, get_entry, k_apart) refl
  | inr differ ↦ rw (put_entry, differ, get_entry, get_entry-put_other key other e state apart) refl
]

or_true : (a b : Bool) → b ≡ true → (a || b) ≡ true
or_true a b h = ground arith

-- How often a call names a key; a login names its address and its account once each.
abbrev pub times_named : Text → List Text → ℕ
times_named key [] = 0
times_named key (k ∷ keys) =
    if text_eq k key then times_named key keys + 1 else times_named key keys

-- A call that does not name the key leaves its entry.
fail_keys-unnamed :
    (config : LoginConfig) (now : ℕ) (key : Text) (keys : List Text) (state : LoginState)
    → times_named key keys ≡ 0
    → get_entry key (fail_keys config now keys state).1 ≡ get_entry key state
unfolding fail_keys fail_key
fail_keys-unnamed config now key [] state h = refl
fail_keys-unnamed config now key (k ∷ keys) state h = elim (Bool-cases (text_eq k key)) [
  | inl same ↦ ground arith
  | inr apart ↦
      fail_keys-unnamed config now key keys _ (ground arith)
      ∙ get_entry-put_other key k _ state apart
]

-- A call that names the key once counts one failure of it, and answers that something is locked if
-- that locks it.
fail_keys-named :
    (config : LoginConfig) (now : ℕ) (key : Text) (keys : List Text) (state : LoginState)
    → times_named key keys ≡ 1
    → let done = fail_keys config now keys state in
      let e = current_attempts config now (get_entry key state) in
      (leb config.max_attempts (e.failures + 1) ≡ true → done.0 ≡ true)
      × (get_entry key done.1 ≡ some (count_failure config now e))
unfolding fail_keys fail_key
fail_keys-named config now key [] state h = ground arith
fail_keys-named config now key (k ∷ keys) state h = elim (Bool-cases (text_eq k key)) [
  | inl same ↦
      let once : times_named key keys ≡ 0 = ground arith in
      rw (eq_of_text_eq k key same) (
        λ full. rw full refl,
        fail_keys-unnamed config now key keys _ once ∙ get_entry-put_entry key _ state,
      )
  | inr apart ↦
      let once : times_named key keys ≡ 1 = ground arith in
      let kept = get_entry-put_other key k _ state apart in
      let (answer, entry) = fail_keys-named config now key keys _ once in
      (
        λ full. or_true _ _ (answer (rw kept full)),
        entry ∙ ap (λ o. some (count_failure config now (current_attempts config now o))) kept,
      )
]

-- The entry that is found is the first, or one after it.
found_cases :
    (key k : Text) (f : Attempts) (state : LoginState) {e : Attempts}
    → get_entry key ((k, f) ∷ state) ≡ some e
    → ((text_eq k key ≡ true) × (f ≡ e))
      ⊎ ((text_eq k key ≡ false) × (get_entry key state ≡ some e))
unfolding get_entry
found_cases key k f state h = by_test (text_eq k key) refl h
  where
    by_test :
        (test : Bool) {e : Attempts}
        → text_eq k key ≡ test
        → (if test then some f else get_entry key state) ≡ some e
        → ((text_eq k key ≡ true) × (f ≡ e))
          ⊎ ((text_eq k key ≡ false) × (get_entry key state ≡ some e))
    by_test true same h = inl (same, cc)
    by_test false apart h = inr (apart, h)

kept_first :
    (config : LoginConfig) (now : ℕ) (f : Attempts)
    → now < f.first_at + config.window_seconds
    → (is_locked now f.locked_until || ltb now (f.first_at + config.window_seconds)) ≡ true
kept_first config now f young = ground arith

-- Pruning keeps an entry whose window is not over.
pub get_entry-prune :
    (config : LoginConfig) (now : ℕ) (key : Text) (state : LoginState) {e : Attempts}
    → get_entry key state ≡ some e
    → now < e.first_at + config.window_seconds
    → get_entry key (prune_entries config now state) ≡ some e
unfolding get_entry prune_entries
get_entry-prune config now key [] h young = cc
get_entry-prune config now key ((k, f) ∷ state) h young = elim (found_cases key k f state h) [
  | inl (same, here) ↦
      rw (prune_entries, kept_first config now f (rw here young), get_entry, same) (ap some here)
  | inr (apart, there) ↦ let rest = get_entry-prune config now key state there young in ground arith
]

-- Pruning brings no entry.
pub get_entry-prune_none :
    (config : LoginConfig) (now : ℕ) (key : Text) (state : LoginState)
    → get_entry key state ≡ none
    → get_entry key (prune_entries config now state) ≡ none
unfolding get_entry prune_entries
get_entry-prune_none config now key [] h = refl
get_entry-prune_none config now key ((k, f) ∷ state) h =
    ground (arith, get_entry-prune_none config now key state)

-- One failure more of a key whose entry after the pruning is known.
pub register_one :
    (config : LoginConfig) (now : ℕ) (key : Text) (keys : List Text) (state : LoginState)
    (o : Option Attempts)
    → times_named key keys ≡ 1
    → get_entry key (prune_entries config now state) ≡ o
    → get_entry key state ≡ o
    → let done = register_failure config now keys state in
      let e = current_attempts config now o in
      (leb config.max_attempts (e.failures + 1) ≡ true → done.0 ≡ true)
      × (get_entry key done.1 ≡ some (count_failure config now e))
unfolding register_failure
register_one config now key keys state o once pruned found =
    elim (Bool-cases (leb max_login_keys (length state))) [
      | inl full ↦
          rw (full, ← pruned)
            (fail_keys-named config now key keys (prune_entries config now state) once)
      | inr room ↦ rw (room, ← found) (fail_keys-named config now key keys state once)
    ]
