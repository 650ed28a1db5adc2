-- ===== src/Once/Replay.antt =====
-- Calls of app/distribution/idempotency.py with one key, one after the other.
use pmvp.Prelude.{◌≡◌, refl, ap, Bool, true, false, none, some, List, [], ◌∷◌, map}
use pmvp.Prelude.Result.{Result, ok, raised}
use pmvp.Text.{Text, text_eq_refl, is_empty}
use pmvp.Once.{KeyRow, Reply, summary, find_key, replay_or_run, replay_all}

-- What the callers should get: the errors until a run succeeds, its summary, and that summary again
-- for each later call.
abbrev pub run_once : List (Result Text Text) → List (Result Text (Reply × Bool))
run_once [] = []
run_once (raised e ∷ outcomes) = raised e ∷ run_once outcomes
run_once (ok s ∷ outcomes) = ok (summary s, false) ∷ map (λ o. ok (summary s, true)) outcomes

replay_all-finished :
    (key s : Text) (outcomes : List (Result Text Text)) (rows : List KeyRow) {row : KeyRow}
    → is_empty key ≡ false
    → find_key key rows ≡ some row
    → row.response ≡ some s
    → replay_all key outcomes rows ≡ map (λ o. ok (summary s, true)) outcomes
unfolding replay_all replay_or_run
replay_all-finished key s [] rows given found stored = refl
replay_all-finished key s (o ∷ outcomes) rows given found stored =
    rw (given, found, stored)
      (ap (λ rest. ok (summary s, true) ∷ rest)
        (replay_all-finished key s outcomes rows given found stored))

first_found :
    (key s : Text) (rows : List KeyRow)
    → find_key key (record { key = key; response = some s } ∷ rows)
      ≡ some (record { key = key; response = some s })
unfolding find_key
first_found key s rows = rw (text_eq_refl key) refl

-- Calls with one key that no row holds give the errors of the runs up to the first that succeeds,
-- then its summary, and after that its summary again, marked as a replay, whatever a run would do.
pub replay_all-run_once :
    (key : Text) (outcomes : List (Result Text Text)) (rows : List KeyRow)
    → is_empty key ≡ false
    → find_key key rows ≡ none
    → replay_all key outcomes rows ≡ run_once outcomes
unfolding replay_all replay_or_run
replay_all-run_once key [] rows given absent = refl
replay_all-run_once key (raised e ∷ outcomes) rows given absent =
    rw (given, absent)
      (ap (λ rest. raised e ∷ rest) (replay_all-run_once key outcomes rows given absent))
replay_all-run_once key (ok s ∷ outcomes) rows given absent =
    rw (given, absent)
      (ap (λ rest. ok (summary s, false) ∷ rest)
        (replay_all-finished key s outcomes (record { key = key; response = some s } ∷ rows) given
          (first_found key s rows) refl))
