-- ===== src/Base/Results.antt =====
-- Results of fallible code: a value or an error, and the bind that stops at the first error.
use mathlib.Core.Path.{◌≡◌, refl}
use mathlib.Core.Logic.{◌⊎◌, inl, inr}

pub data Result {ε υ} (Fault : Type ε) (Value : Type υ) : Type (ε ⊔ υ) where
  err : Fault → Result Fault Value
  ok : Value → Result Fault Value

infixl 5 ◌>>=◌
abbrev pub ◌>>=◌ {ε υ ω} :
    {Fault : Type ε} {Value : Type υ} {Next : Type ω}
    → Result Fault Value
    → (Value → Result Fault Next)
    → Result Fault Next
err e >>= next = err e
ok v >>= next = next v

pub Result-cases {ε υ} :
    {Fault : Type ε} {Value : Type υ} (res : Result Fault Value)
    → ((v : Value) × (res ≡ ok v)) ⊎ ((e : Fault) × (res ≡ err e))
Result-cases (err e) = inr (e, refl)
Result-cases (ok v) = inl (v, refl)

-- A bind that succeeds: the first part gave a value, and the rest gave the result at it.
pub >>=-eq-ok {ε υ ω} :
    {Fault : Type ε} {Value : Type υ} {Next : Type ω} (res : Result Fault Value)
    (next : Value → Result Fault Next) {final : Next}
    → (res >>= next) ≡ ok final
    → (v : Value) × (res ≡ ok v) × (next v ≡ ok final)
>>=-eq-ok (err e) next reached = cc
>>=-eq-ok (ok v) next reached = (v, refl, reached)
