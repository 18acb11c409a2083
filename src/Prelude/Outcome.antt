-- ===== src/Prelude/Outcome.antt =====
-- The result of code that may throw: a value, or the error that was thrown.
use mathlib.Core.Path.{◌≡◌, refl}

pub data Result {ε α} (Thrown : Type ε) (Value : Type α) : Type (ε ⊔ α) where
  err : Thrown → Result Thrown Value
  ok : Value → Result Thrown Value

-- The code after a call that may throw. It is by clauses, to compute on a known outcome.
infixl 5 ◌>>=◌
abbrev pub ◌>>=◌ {ε α β} :
    {Thrown : Type ε} {Value : Type α} {Next : Type β}
    → Result Thrown Value
    → (Value → Result Thrown Next)
    → Result Thrown Next
err thrown >>= next = err thrown
ok value >>= next = next value

-- What returned went through the call first.
pub >>=-returned {ε α β} :
    {Thrown : Type ε} {Value : Type α} {Next : Type β} (call : Result Thrown Value)
    (next : Value → Result Thrown Next) {result : Next}
    → (call >>= next) ≡ ok result
    → (value : Value) × (call ≡ ok value) × (next value ≡ ok result)
>>=-returned (err thrown) next returns = cc
>>=-returned (ok value) next returns = (value, refl, returns)

pub ok-injective {ε α} :
    {Thrown : Type ε} {Value : Type α} {v w : Value}
    → ◌≡◌ {A = Result Thrown Value} (ok v) (ok w)
    → v ≡ w
ok-injective same = cc
