-- ===== src/Base/Attempts.antt =====
-- The outcome of code that throws a standard exception.
use simp.Base.Tests.{Bytes}

-- `invalid` is a thrown `std::invalid_argument` or `std::runtime_error` with its text.
pub data Attempt (A : Type 0) : Type 0 where
  done : A → Attempt A
  invalid : Bytes → Attempt A

infixl 5 ◌>>=◌
abbrev pub ◌>>=◌ : {A B : Type 0} → Attempt A → (A → Attempt B) → Attempt B
done a >>= f = f a
invalid m >>= f = invalid m
