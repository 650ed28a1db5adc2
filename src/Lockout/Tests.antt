-- ===== src/Lockout/Tests.antt =====
-- Three attempts in fifteen minutes.
use pmvp.Prelude.{ℕ, ◌+◌, ◌-◌, ◌≡◌, refl, true, none, List, [], ◌∷◌, arith}
use pmvp.Text.{Text, codes}
use pmvp.Lockout.{LoginConfig, get_entry, register_failure, retry_after}
use pmvp.Lockout.Counting.{fail_calls, register_failure-locks}

abbrev three_attempts : LoginConfig
three_attempts = record { window_seconds = 900; max_attempts = 3; lockout_seconds = 600 }

abbrev account : Text
account = codes "account:a@b.c"

unseen : get_entry account [] ≡ none
unfolding get_entry
unseen = refl

-- Each login names its address and its account.
abbrev from_address : Text → List Text
from_address address = address ∷ account ∷ []

abbrev second_call : List (ℕ × List Text)
second_call = (20, from_address (codes "ip:5.6.7.8")) ∷ []

register_failure-locks_example :
    let keys = from_address (codes "ip:1.2.3.4") in
    let before = fail_calls three_attempts ((10, keys) ∷ second_call) [] in
    let done = register_failure three_attempts 30 keys before in
    (retry_after 30 (account ∷ []) before ≡ 0)
    × (done.0 ≡ true)
    × ((now : ℕ) → retry_after now (account ∷ []) done.1 ≡ 30 + 600 - now)
register_failure-locks_example =
    register_failure-locks three_attempts 10 30 (from_address (codes "ip:1.2.3.4"))
      (from_address (codes "ip:1.2.3.4")) second_call account [] unseen refl refl
      (omega arith, refl, tt) (omega arith) (omega arith)
