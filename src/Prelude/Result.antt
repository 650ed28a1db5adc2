-- ===== src/Prelude/Result.antt =====
-- What a function that may raise returns: the error that it raised, or its value.
use mathlib.Core.Path.{◌≡◌, refl}
use mathlib.Core.Bool.{Bool, true, false}

pub data Result {ℓ κ} (E : Type ℓ) (A : Type κ) : Type (ℓ ⊔ κ) where
  raised : E → Result E A
  ok : A → Result E A

-- The rest of a function's body, which an error skips.
infixl 5 ◌>>=◌ ◌>>◌
abbrev pub ◌>>=◌ {ℓ κ μ} :
    {E : Type ℓ} {A : Type κ} {B : Type μ} → Result E A → (A → Result E B) → Result E B
raised problem >>= body = raised problem
ok value >>= body = body value

abbrev pub ◌>>◌ {ℓ κ} : {E : Type ℓ} {B : Type κ} → Result E (Unit {0}) → Result E B → Result E B
check >> body = check >>= λ done. body

-- `if test: raise e`
abbrev pub raise_if {ℓ} : {E : Type ℓ} → Bool → E → Result E (Unit {0})
raise_if false problem = ok tt
raise_if true problem = raised problem

-- A body that returns has the value of its first step.
pub >>=-returns {ℓ κ μ} :
    {E : Type ℓ} {A : Type κ} {B : Type μ} (step : Result E A) (body : A → Result E B) {b : B}
    → (step >>= body) ≡ ok b
    → (a : A) × (step ≡ ok a) × (body a ≡ ok b)
>>=-returns (raised problem) body returned = cc
>>=-returns (ok value) body returned = (value, refl, returned)

pub ok-injective {ℓ κ} :
    {E : Type ℓ} {A : Type κ} {a b : A} → ◌≡◌ {A = Result E A} (ok a) (ok b) → a ≡ b
ok-injective same = cc
