-- ===== src/Parser/PostfixSteps.antt =====
-- The parsers of Postfix stay within their fuel and their tokens.
use simp.Base.{ℕ, zero, suc, refl, Bool, List, Bytes, SourceLocation, arith}
use simp.Lexer.Token.{
  comma, dot, colon, equal, left_paren, right_paren, left_bracket, right_bracket, as_keyword,
  identifier,
}
use simp.Ast.Expressions.{Attributes, Expression, node, Child, Expressions}
use simp.Parser.State.{Parser}
use simp.Parser.Steps.{
  Runs-current, Runs-token_or, Runs-error_here, check-Excludes-end, Runs-consume, Runs-if_match,
  Runs-if_match_same, Runs-match, Runs-lift,
}
use simp.Parser.Rules.{reads}
use simp.Parser.Rules.{
  Runs, runs, Runs-zero, Runs-less, Runs-any, Runs-pure, Runs-error, Runs-branch, Runs-if,
  Runs-after, Runs-bind, Runs-before,
}
use simp.Parser.Primary.{Tested}
use simp.Parser.Nodes.{is_string_kind}
use simp.Parser.Postfix.{
  validate, previous, test, parse_argument_name, parse_format_arguments, parse_slice, parse_access,
  parse_object_cast, parse_member, finish_format, format_of, parse_format, parse_call,
  parse_postfix,
}
use simp.Parser.TypeSteps.{Runs-test_name}
use simp.Parser.PrimarySteps.{and-Excludes-end, Runs-closed_list}

pub Runs-previous : {n : ℕ} → Runs 0 n previous
unfolding previous
Runs-previous = runs λ s he hn. reads s he (omega arith) refl

pub Runs-tested : {n : ℕ} (t : Tested) → Runs 0 n (test t)
Runs-tested t = Runs-branch t (Runs-pure _) (Runs-pure _)

pub Runs-validate : {n : ℕ} (e : Expression) → Runs 0 n (validate e)
Runs-validate e = Runs-lift _

Runs-argument_name : (n : ℕ) (names : List Bytes) → Runs 0 n (parse_argument_name names)
unfolding parse_argument_name
Runs-argument_name n names =
    Runs-branch _
      (Runs-bind (Runs-any (Runs-consume identifier refl _)) λ token.
        Runs-bind (Runs-if _ (Runs-error _ _) (Runs-pure _))
          λ _. Runs-bind (Runs-any (Runs-consume equal refl _)) λ _. Runs-pure _)
      (Runs-pure _)

module _ {expression : Parser Expression} where
  pub Runs-format_arguments :
      (f : ℕ) (a : Attributes) (es : Expressions)
      → Runs 1 f expression
      → Runs 1 f (parse_format_arguments expression f a es)
  unfolding parse_format_arguments
  Runs-format_arguments zero a es h = Runs-zero
  Runs-format_arguments (suc f) a es h = Runs-before Runs-current λ place.
      Runs-before (Runs-argument_name (suc f) _) λ name. Runs-after h λ e.
        Runs-if_match_same comma refl f (Runs-any (Runs-format_arguments f _ _ (Runs-less h)))
          (Runs-pure _)

  module _ (f : ℕ) (h : Runs 1 f expression) where
    Runs-slice :
        (e : Expression) (l : SourceLocation) (b : Bool) (start : Expression)
        → Runs 0 f (parse_slice expression e l b start)
    unfolding parse_slice
    Runs-slice e l b start = Runs-bind (Runs-tested _) λ bare.
        Runs-bind (Runs-if bare (Runs-pure _) (Runs-any h)) λ stop.
          Runs-bind (Runs-match colon refl f)
            λ has_step. Runs-bind (Runs-branch _ (Runs-any h) (Runs-pure _)) λ step. Runs-pure _

    Runs-access : (e : Expression) → Runs 0 f (parse_access expression e)
    unfolding parse_access
    Runs-access e = Runs-bind Runs-previous λ opened.
        Runs-bind
          (Runs-if_match_same colon refl f (Runs-slice e _ _ _) (
            Runs-bind (Runs-any h)
              λ start. Runs-if_match_same colon refl f (Runs-slice e _ _ start) (Runs-pure _)))
          λ access. Runs-bind (Runs-any (Runs-consume right_bracket refl _)) λ _. Runs-pure _

    Runs-object_cast : (e : Expression) → Runs 0 f (parse_object_cast expression f e)
    unfolding parse_object_cast
    Runs-object_cast e = Runs-bind Runs-previous λ keyword.
        Runs-bind Runs-current
          λ place. Runs-bind (Runs-any (Runs-test_name f _ _)) λ name. Runs-pure _

    Runs-member : (e : Expression) → Runs 0 f (parse_member expression e)
    unfolding parse_member
    Runs-member e = Runs-bind (Runs-any (Runs-consume identifier refl _)) λ member. Runs-pure _

    Runs-finish_format :
        (a : Attributes) (l r : Child) (es : Expressions)
        → Runs 0 f (finish_format expression a l r es)
    unfolding finish_format
    Runs-finish_format a l r es =
        Runs-bind (Runs-any (Runs-consume right_paren refl _))
          λ _. Runs-bind (Runs-lift _) λ checked. Runs-pure _

    Runs-format_of : (l : SourceLocation) (e : Expression) → Runs 0 f (format_of expression f l e)
    unfolding format_of
    Runs-format_of l (node a left right es) =
        Runs-if (is_string_kind a.kind)
          (Runs-bind
            (Runs-if_match_same comma refl f (Runs-any (Runs-format_arguments f _ _ h))
              (Runs-pure _))
            λ (named, arguments). Runs-finish_format named left right arguments)
          (Runs-error _ _)

    Runs-format : (l : SourceLocation) → Runs 0 f (parse_format expression f l)
    unfolding parse_format
    Runs-format l = Runs-bind (Runs-any h) λ e. Runs-format_of l e

    Runs-call : (e : Expression) → Runs 0 f (parse_call expression f e)
    unfolding parse_call
    Runs-call e = Runs-bind (Runs-any (Runs-closed_list h right_paren refl _)) λ es. Runs-pure _

  -- One round of the loop, before the next one.
  Runs-round :
      (f : ℕ)
      → Runs 1 f expression
      → ((e : Expression) → Runs 0 f (parse_postfix expression f e))
      → (e : Expression) → Runs 0 (suc f) (parse_postfix expression (suc f) e)
  unfolding parse_postfix
  Runs-round f h again e = Runs-bind (Runs-validate e) λ _.
      Runs-if_match as_keyword refl (Runs-bind (Runs-object_cast f h e) again) (
        Runs-if_match left_bracket refl (Runs-bind (Runs-access f h e) again) (
          Runs-if_match dot refl (Runs-bind (Runs-member f h e) again) (
            Runs-branch _ (Runs-error_here _) (
              Runs-token_or (and-Excludes-end _ (check-Excludes-end left_paren refl))
                (λ _. Runs-bind (Runs-format f h _) again)
                (Runs-if_match left_paren refl (Runs-bind (Runs-call f h e) again)
                  (Runs-pure e))))))

  Runs-rounds :
      (f : ℕ) → Runs 1 f expression → (e : Expression) → Runs 0 f (parse_postfix expression f e)
  Runs-rounds zero h e = Runs-zero
  Runs-rounds (suc f) h e = Runs-round f (Runs-less h) (Runs-rounds f (Runs-less h)) e

  -- What follows an operand may use all the fuel, the expressions inside it less by one.
  pub Runs-postfix :
      (f : ℕ)
      → Runs 1 f expression
      → (e : Expression) → Runs 0 (suc f) (parse_postfix expression (suc f) e)
  Runs-postfix f h e = Runs-round f h (Runs-rounds f h) e
