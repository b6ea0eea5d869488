-- ===== src/Prelude/Outcome.antt =====
-- What a C++ call gives: a value, the exception that it throws, or the status with which it ends
-- the process by std::exit.
use Prim.Native.Nat.{ℕ}
use Prim.Native.String.{String}

-- The exception classes that the program throws, or that reach it from its libraries.
-- `system_error` carries the value of `errno`; `library_error` is an exception of Boost or
-- of the standard library.
pub data Exception : Type 0 where
  runtime_error : String → Exception
  invalid_argument : String → Exception
  system_error : ℕ → String → Exception
  library_error : ℕ → Exception

pub data Outcome {ℓ} (A : Type ℓ) : Type ℓ where
  returned : A → Outcome A
  thrown : Exception → Outcome A
  exited : ℕ → Outcome A

infixl 5 ◌>>=◌
abbrev pub ◌>>=◌ {ℓ κ} : {A : Type ℓ} {B : Type κ} → Outcome A → (A → Outcome B) → Outcome B
returned a >>= f = f a
thrown x >>= f = thrown x
exited n >>= f = exited n
