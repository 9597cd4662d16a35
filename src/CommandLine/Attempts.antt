-- ===== src/CommandLine/Attempts.antt =====
-- What an attempt of src/CommandLine.cpp returns.
use simp.Base.{Bool, true, false, Option, none, some, ◌≡◌, subst, ◌∙◌, if◌then◌else◌, Bytes}
use simp.CommandLine.Options.{CommandLine}
use simp.Base.Tables.{case_option}
use simp.Base.Attempts.{Attempt, done, invalid, ◌>>=◌}
use simp.CommandLine.Process.{Processed, is_action}

-- Whatever an attempt returns has the property.
pub data Returns {A : Type 0} (P : A → Type 0) : Attempt A → Type 0 where
  returns : (a : A) → P a → Returns P (done a)
  refuses : (m : Bytes) → Returns P (invalid m)

pub Returns-bind :
    {A B : Type 0} {P : A → Type 0} {Q : B → Type 0} {x : Attempt A} {f : A → Attempt B}
    → Returns P x
    → ((a : A) → P a → Returns Q (f a))
    → Returns Q (x >>= f)
Returns-bind (returns a h) k = k a h
Returns-bind (refuses m) k = refuses m

pub Returns-done :
    {A : Type 0} {P : A → Type 0} {x : Attempt A} {a : A} → Returns P x → x ≡ done a → P a
Returns-done {P} (returns a h) e = subst P (cc) h
Returns-done (refuses m) e = cc

pub Returns-if :
    {A : Type 0} {P : A → Type 0} (b : Bool) {x y : Attempt A}
    → Returns P x
    → Returns P y
    → Returns P (if b then x else y)
Returns-if true hx hy = hx
Returns-if false hx hy = hy

pub Returns-option :
    {A B : Type 0} {P : A → Type 0} (o : Option B) {x : Attempt A} {f : B → Attempt A}
    → Returns P x
    → ((b : B) → Returns P (f b))
    → Returns P (case_option o x f)
Returns-option none hx hf = hx
Returns-option (some b) hx hf = hf b

-- The registered options and the positional argument stay as they are.
abbrev pub IsSame : CommandLine → CommandLine → Type 0
IsSame before after = (after.options ≡ before.options) × (after.positional ≡ before.positional)

pub IsSame-join : (a b c : CommandLine) → IsSame a b → IsSame b c → IsSame a c
IsSame-join a b c (o, p) (o', p') = (o' ∙ o, p' ∙ p)

-- An early return has an action.
abbrev pub IsStep : CommandLine → Processed → Type 0
IsStep before p = IsSame before p.line × (p.stop ≡ true → is_action p.line.action ≡ true)
