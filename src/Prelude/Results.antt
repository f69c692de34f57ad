-- ===== src/Prelude/Results.antt =====
-- What a call that may raise comes to: a value, or a `ValueError` with its message, an
-- `HTTPException` with its status and its detail, or another exception by its class.
use Prim.Native.Nat.{ℕ}
use Prim.Native.String.{String}

pub data Failure : Type 0 where
  value_error : String → Failure
  http : ℕ → String → Failure
  raised : String → Failure

pub data Result {ℓ} (A : Type ℓ) : Type ℓ where
  ok : A → Result A
  err : Failure → Result A
