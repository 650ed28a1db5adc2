-- ===== src/Limits/Tests.antt =====
-- Four requests with the same code, held to two a minute.
use pmvp.Prelude.{ℕ, ◌≡◌, List, [], ◌∷◌, arith}
use pmvp.Text.{codes}
use pmvp.Limits.{Request, allow_all, promised_all}
use pmvp.Limits.Refines.{allow_all-refines}

abbrev request_at : ℕ → Request
request_at t = record { name = (codes "s", codes "ip"); per_minute = 2; current = t }

abbrev requests : List Request
requests = request_at 0 ∷ request_at 100 ∷ request_at 200 ∷ request_at 60100 ∷ []

allow_all-refines_example : allow_all requests [] ≡ promised_all requests []
allow_all-refines_example =
    allow_all-refines requests (omega arith, (omega arith, (omega arith, (omega arith, tt))))
