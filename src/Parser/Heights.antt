-- ===== src/Parser/Heights.antt =====
-- The trees that `parseExpression` returns.
use simp.Base.{
  ℕ, zero, suc, ◌≤◌, ◌≡◌, refl, subst, Bool, true, false, Bytes, leb, if◌then◌else◌, SourceLocation,
}
use simp.Ast.Expressions.{Expression}
use simp.Parser.State.{
  then_run, leave_nesting, maximum_nesting, ParserState, Reply, parsed, failed, stuck, pure, ◌>>=◌,
  guarded, out_of_fuel, lift,
}
use simp.Parser.Verdict.{Verdict, accepted, refused}
use simp.Parser.Postfix.{validate}
use simp.Parser.Depth.{validate_expression_depth}
use simp.Parser.DepthBounds.{height, validate_expression_depth_iff}
use simp.Parser.Expressions.{parse_expression}

-- `P` holds of the value of a reply, if it has one.
pub data Results {A : Type 0} (P : A → Type 0) : Reply A → Type 0 where
  results : {a : A} {s : ParserState} → P a → Results P (parsed a s)
  fails : {l : SourceLocation} {m : Bytes} → Results P (failed l m)
  stops : Results P stuck

pub Results-parsed :
    {A : Type 0} {P : A → Type 0} {r : Reply A} {a : A} {s : ParserState}
    → Results P r
    → r ≡ parsed a s
    → P a
Results-parsed {P = P} (results h) e = subst P (cc) h
Results-parsed fails e = cc
Results-parsed stops e = cc

validated :
    (e : Expression) (s : ParserState) (v : Verdict (Unit {0}))
    → validate_expression_depth e 1 ≡ v
    → Results (λ x. height x ≤ 128) ((lift v >>= λ _. pure e) s)
unfolding ◌>>=◌ lift pure
validated e s (accepted tt) h = results ((validate_expression_depth_iff e).0 h)
validated e s (refused l m) h = fails

checked :
    (r : Reply Expression)
    → Results (λ x. height x ≤ 128) (then_run r λ e. validate e >>= λ _. pure e)
checked (parsed e s) = validated e s (validate_expression_depth e 1) refl
checked (failed l m) = fails
checked stuck = stops

released :
    {r : Reply Expression}
    → Results (λ x. height x ≤ 128) r
    → Results (λ x. height x ≤ 128) (then_run r leave_nesting)
released (results h) = results h
released fails = fails
released stops = stops

if-Results :
    {A : Type 0} {P : A → Type 0} (b : Bool) {x y : Reply A}
    → Results P x
    → Results P y
    → Results P (if b then x else y)
if-Results true hx hy = hx
if-Results false hx hy = hy

expression-Results :
    (f : ℕ) (s : ParserState) → Results (λ x. height x ≤ 128) (parse_expression f s)
unfolding parse_expression out_of_fuel guarded ◌>>=◌
expression-Results zero s = stops
expression-Results (suc f) s =
    if-Results (leb maximum_nesting s.nesting_depth) fails (released (checked _))

-- An expression that `parseExpression` returns has at most 128 nodes on each way down.
pub height-parse_expression :
    (f : ℕ) (s t : ParserState) (e : Expression)
    → parse_expression f s ≡ parsed e t
    → height e ≤ 128
height-parse_expression f s t e h = Results-parsed (expression-Results f s) h
