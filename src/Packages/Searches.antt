-- ===== src/Packages/Searches.antt =====
-- Code of src/PackageRegistry.cpp that may throw, over fuel.
use simp.Base.{Bool, true, false, ◌≡◌, refl, Option, none, some, Bytes, if◌then◌else◌}
use simp.Base.Attempts.{Attempt, done, invalid}
use simp.Base.Tables.{case_option}

-- `thrown` is a standard exception with its text; `exhausted` has no counterpart in the program.
pub data Search (A : Type 0) : Type 0 where
  walked : A → Search A
  thrown : Bytes → Search A
  exhausted : Search A

infixl 5 ◌>>=◌
abbrev pub ◌>>=◌ : {A B : Type 0} → Search A → (A → Search B) → Search B
walked a >>= f = f a
thrown m >>= f = thrown m
exhausted >>= f = exhausted

abbrev pub search_of : {A : Type 0} → Attempt A → Search A
search_of (done a) = walked a
search_of (invalid m) = thrown m

-- The search kept within its fuel, and `P` holds of what it found.
pub data Ends {A : Type 0} (P : A → Type 0) : Search A → Type 0 where
  ends : {a : A} → P a → Ends P (walked a)
  throws : {m : Bytes} → Ends P (thrown m)

pub Ends-bind :
    {A B : Type 0} {P : A → Type 0} {Q : B → Type 0} {r : Search A} {f : A → Search B}
    → Ends P r
    → ((a : A) → P a → Ends Q (f a))
    → Ends Q (r >>= f)
Ends-bind (ends {a} h) k = k a h
Ends-bind throws k = throws

pub Ends-map :
    {A : Type 0} {P Q : A → Type 0} {r : Search A} → Ends P r → ((a : A) → P a → Q a) → Ends Q r
Ends-map (ends {a} h) k = ends (k a h)
Ends-map throws k = throws

pub Ends-if :
    {A : Type 0} {P : A → Type 0} (b : Bool) {x y : Search A}
    → (b ≡ true → Ends P x)
    → (b ≡ false → Ends P y)
    → Ends P (if b then x else y)
Ends-if true hx hy = hx refl
Ends-if false hx hy = hy refl

pub Ends-attempt : {A : Type 0} (x : Attempt A) → Ends (λ a. x ≡ done a) (search_of x)
Ends-attempt (done a) = ends refl
Ends-attempt (invalid m) = throws

pub Ends-option :
    {A B : Type 0} {P : A → Type 0} (o : Option B) {x : Search A} {f : B → Search A}
    → (o ≡ none → Ends P x)
    → ((b : B) → o ≡ some b → Ends P (f b))
    → Ends P (case_option o x f)
Ends-option none h k = h refl
Ends-option (some b) h k = k b refl
