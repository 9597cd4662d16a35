-- ===== src/Parser/Verdict.antt =====
-- A check that returns a value or throws a `DiagnosticError`, and postconditions on it.
use mathlib.Core.Path.{subst}
use simp.Base.{Bool, true, false, if◌then◌else◌, ◌≡◌, refl, Bytes, SourceLocation}

pub data Verdict (A : Type 0) : Type 0 where
  accepted : A → Verdict A
  refused : SourceLocation → Bytes → Verdict A

infixl 5 ◌>>=◌
abbrev pub ◌>>=◌ : {A B : Type 0} → Verdict A → (A → Verdict B) → Verdict B
accepted a >>= f = f a
refused l m >>= f = refused l m

-- `P` holds of the value, if there is one.
pub data Yields {A : Type 0} (P : A → Type 0) : Verdict A → Type 0 where
  yields : {a : A} → P a → Yields P (accepted a)
  refuses : {l : SourceLocation} {m : Bytes} → Yields P (refused l m)

module _ {A : Type 0} {P : A → Type 0} where
  pub Yields-accepted : {v : Verdict A} {a : A} → Yields P v → v ≡ accepted a → P a
  Yields-accepted (yields h) e = subst P (cc) h
  Yields-accepted refuses e = cc

  pub Yields-if :
      (b : Bool) {v w : Verdict A}
      → (b ≡ true → Yields P v)
      → (b ≡ false → Yields P w)
      → Yields P (if b then v else w)
  Yields-if true hv hw = hv refl
  Yields-if false hv hw = hw refl

  pub Yields-bind :
      {B : Type 0} {Q : B → Type 0} {v : Verdict A} {f : A → Verdict B}
      → Yields P v
      → ((a : A) → P a → Yields Q (f a))
      → Yields Q (v >>= f)
  Yields-bind (yields {a} h) k = k a h
  Yields-bind refuses k = refuses

pub Yields-map :
    {A : Type 0} {P Q : A → Type 0} {v : Verdict A}
    → Yields P v
    → ((a : A) → P a → Q a)
    → Yields Q v
Yields-map (yields {a} h) f = yields (f a h)
Yields-map refuses f = refuses
