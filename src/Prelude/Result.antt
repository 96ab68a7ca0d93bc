-- ===== src/Prelude/Result.antt =====
-- What a handler returns: a new state, or the error that it throws, which ends the batch.
use autonolas_subgraph.Prelude.{◌≡◌, refl, arith}

pub data Result {ε α} (Thrown : Type ε) (Value : Type α) : Type (ε ⊔ α) where
  throw : Thrown → Result Thrown Value
  ok : Value → Result Thrown Value

module _ {ε α β} {Thrown : Type ε} {Value : Type α} {Next : Type β} where
  infixl 5 ◌>>=◌
  abbrev pub ◌>>=◌ : Result Thrown Value → (Value → Result Thrown Next) → Result Thrown Next
  throw why >>= next = throw why
  ok v >>= next = next v

  -- If both steps return, the first has a value, from which the second returns the result.
  pub >>=-eq-ok :
      (step : Result Thrown Value) (next : Value → Result Thrown Next) {done : Next}
      → (step >>= next) ≡ ok done
      → (v : Value) × (step ≡ ok v) × (next v ≡ ok done)
  >>=-eq-ok (throw why) next returned = absurd (ground arith)
  >>=-eq-ok (ok v) next returned = (v, refl, returned)

module _ {ε α} {Thrown : Type ε} {Value : Type α} where
  pub ok-injective : {v w : Value} → Path (Result Thrown Value) (ok v) (ok w) → v ≡ w
  ok-injective h = ground arith
