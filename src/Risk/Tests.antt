-- ===== src/Risk/Tests.antt =====
-- The risk gate on a client's fourth run.
use pmvp.Prelude.{◌≡◌, ◌≤◌, ◌↔◌, refl, false, some, none, List, [], ◌∷◌}
use pmvp.Prelude.Int.{◌-ℤ◌}
use pmvp.Status.{Run, processed, draft}
use pmvp.Risk.{previous_closed_run, prior_run_count, run_is_held}
use pmvp.Risk.Gate.{IsUsual, run_is_held_iff}
use pmvp.Fixtures.{run_of}

abbrev history : List Run
history =
    run_of 1 processed none 10 90000
    ∷ run_of 2 processed none 10 91000
    ∷ run_of 3 draft none 9 1
    ∷ []

abbrev fourth : Run
fourth = run_of 4 draft none 11 95000

fourth_is_usual : run_is_held history fourth ≡ false
unfolding run_is_held ◌-ℤ◌
fourth_is_usual = refl

run_is_held_iff_example :
    (run_is_held history fourth ≡ false)
    ↔ ((2 ≤ prior_run_count fourth history) × IsUsual fourth (previous_closed_run fourth history))
run_is_held_iff_example = run_is_held_iff history fourth

baseline : previous_closed_run fourth history ≡ some (run_of 2 processed none 10 91000)
unfolding previous_closed_run
baseline = refl
