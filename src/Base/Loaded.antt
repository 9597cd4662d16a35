-- ===== src/Base/Loaded.antt =====
-- The outcome of code that throws diagnostics with computed texts, and postconditions on it.
use simp.Base.{
  Bool, true, false, ◌≡◌, ◌≢◌, refl, Bytes, codes, if◌then◌else◌, SourceLocation, Outcome, ok, err,
}

-- `rejected` is a thrown `DiagnosticError`; `exhausted` has no counterpart in the program.
pub data Loaded (A : Type 0) : Type 0 where
  loaded : A → Loaded A
  rejected : SourceLocation → Bytes → Loaded A
  exhausted : Loaded A

infixl 5 ◌>>=◌
abbrev pub ◌>>=◌ : {A B : Type 0} → Loaded A → (A → Loaded B) → Loaded B
loaded a >>= f = f a
rejected l m >>= f = rejected l m
exhausted >>= f = exhausted

abbrev pub from_outcome : {A : Type 0} → Outcome A → Loaded A
from_outcome (ok a) = loaded a
from_outcome (err l m) = rejected l (codes m)
from_outcome Outcome.exhausted = exhausted

-- The run kept within its fuel, and `P` holds of its value if it has one.
pub data Completes {A : Type 0} (P : A → Type 0) : Loaded A → Type 0 where
  completes : {a : A} → P a → Completes P (loaded a)
  rejects : {l : SourceLocation} {m : Bytes} → Completes P (rejected l m)

module _ {A : Type 0} {P : A → Type 0} where
  pub Completes-ne-exhausted : {r : Loaded A} → Completes P r → r ≢ exhausted
  Completes-ne-exhausted (completes h) = cc
  Completes-ne-exhausted rejects = cc

  pub Completes-if :
      (b : Bool) {x y : Loaded A}
      → (b ≡ true → Completes P x)
      → (b ≡ false → Completes P y)
      → Completes P (if b then x else y)
  Completes-if true hx hy = hx refl
  Completes-if false hx hy = hy refl

  pub Completes-bind :
      {B : Type 0} {Q : B → Type 0} {r : Loaded A} {f : A → Loaded B}
      → Completes P r
      → ((a : A) → P a → Completes Q (f a))
      → Completes Q (r >>= f)
  Completes-bind (completes {a} h) k = k a h
  Completes-bind rejects k = rejects
