-- ===== src/Once.antt =====
-- app/distribution/idempotency.py: what a call with a key does. A summary is its JSON text, an
-- exception its name.
pub mod Replay
mod Tests
use pmvp.Prelude.{ℕ, Bool, true, false, ◌==◌, Option, none, some, List, [], ◌∷◌, if◌then◌else◌}
use pmvp.Prelude.Result.{Result, ok, raised}
use pmvp.Text.{Text, text_eq, is_empty}

-- A row of IdempotencyKey.
pub record KeyRow : Type 0 where
  pub key : Text
  pub response : Option Text

-- The summary of a run, or that of a claim that is not finished.
pub data Reply : Type 0 where
  summary : Text → Reply
  in_progress : Reply

-- What one call returns or raises, the table it leaves, and whether `run_fn` was called.
pub record Call : Type 0 where
  pub answer : Result Text (Reply × Bool)
  pub rows : List KeyRow
  pub ran : Bool

unfoldable pub find_key : Text → List KeyRow → Option KeyRow
find_key key [] = none
find_key key (row ∷ rows) = if text_eq row.key key then some row else find_key key rows

abbrev pub replay : Option Text → Reply
replay none = in_progress
replay (some s) = summary s

abbrev pub finish_claim : Text → Result Text Text → List KeyRow → Call
finish_claim key (raised e) rows = record { answer = raised e; rows = rows; ran = true }
finish_claim key (ok s) rows = record {
  answer = ok (summary s, false);
  rows = record { key = key; response = some s } ∷ rows;
  ran = true;
}

abbrev pub without_key : Result Text Text → List KeyRow → Call
without_key (raised e) rows = record { answer = raised e; rows = rows; ran = true }
without_key (ok s) rows = record { answer = ok (summary s, false); rows = rows; ran = true }

-- `replay_or_run`, where the call of `run_fn` has the given outcome
unfoldable pub replay_or_run : Text → Result Text Text → List KeyRow → Call
unfolding find_key
replay_or_run key outcome rows =
    if is_empty key then without_key outcome rows else elim (find_key key rows) [
      | some row ↦ record { answer = ok (replay row.response, true); rows = rows; ran = false }
      | none ↦ finish_claim key outcome rows
    ]

-- Calls with one key, one after the other.
unfoldable pub replay_all :
    Text → List (Result Text Text) → List KeyRow → List (Result Text (Reply × Bool))
unfolding replay_or_run
replay_all key [] rows = []
replay_all key (outcome ∷ outcomes) rows =
    let call = replay_or_run key outcome rows in call.answer ∷ replay_all key outcomes call.rows
