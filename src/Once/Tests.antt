-- ===== src/Once/Tests.antt =====
-- Three calls with one key, of which the first fails.
use pmvp.Prelude.{◌≡◌, refl, none, List, [], ◌∷◌}
use pmvp.Prelude.Result.{Result, ok, raised}
use pmvp.Text.{Text, codes}
use pmvp.Once.{find_key, replay_all}
use pmvp.Once.Replay.{run_once, replay_all-run_once}

abbrev outcomes : List (Result Text Text)
outcomes = raised (codes "Timeout") ∷ ok (codes "{}") ∷ ok (codes "{1}") ∷ []

unclaimed : find_key (codes "nonce") [] ≡ none
unfolding find_key
unclaimed = refl

replay_all-run_once_example : replay_all (codes "nonce") outcomes [] ≡ run_once outcomes
replay_all-run_once_example = replay_all-run_once (codes "nonce") outcomes [] refl unclaimed
