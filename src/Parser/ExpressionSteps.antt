-- ===== src/Parser/ExpressionSteps.antt =====
-- The parsers of Expressions stay within their fuel and their tokens.
use simp.Base.{ℕ, zero, suc, ◌≡◌, refl, false, Bytes}
use simp.Lexer.Token.{TokenType, Token, end_of_file, bang}
use simp.Lexer.Kinds.{same_type}
use simp.Ast.Expressions.{Expression}
use simp.Parser.State.{Parser, ◌>>=◌}
use simp.Parser.Steps.{
  Runs-current, Excludes-end, Runs-token_or, check-Excludes-end, Runs-guarded, Runs-guarded_token,
}
use simp.Parser.Rules.{Runs, Runs-zero, Runs-less, Runs-any, Runs-pure, Runs-if, Runs-bind}
use simp.Parser.Primary.{Tested}
use simp.Parser.Expressions.{
  binary_loop, is_or, is_and, is_equality, is_relation, is_sum, is_product, is_sign, parse_unary,
  parse_multiplication, parse_addition, parse_relation, relational_loop, parse_relational,
  parse_comparison, parse_not, parse_and, parse_or, parse_expression,
}
use simp.Parser.TypeSteps.{Runs-test_name}
use simp.Parser.PrimarySteps.{Runs-primary}
use simp.Parser.PostfixSteps.{Runs-validate, Runs-postfix}

Runs-binary_loop :
    {test : Tested}
    → Excludes-end test
    → (f : ℕ) {operand : Parser Expression} (spelling : Token → Bytes) → Runs 1 f operand
    → (left : Expression) → Runs 0 f (binary_loop f test spelling operand left)
unfolding binary_loop
Runs-binary_loop ht zero spelling h left = Runs-zero
Runs-binary_loop ht (suc f) spelling h left =
    Runs-token_or ht
      (λ operation.
        Runs-bind (Runs-any (Runs-less h))
          λ right. Runs-bind (Runs-validate _) λ _. Runs-binary_loop ht f spelling (Runs-less h) _)
      (Runs-pure left)

-- A level from the level below it.
Runs-level :
    {test : Tested}
    → Excludes-end test
    → (f : ℕ) {operand : Parser Expression} (spelling : Token → Bytes) → Runs 1 f operand
    → Runs 1 f (operand >>= binary_loop f test spelling operand)
Runs-level ht f spelling h = Runs-bind h (Runs-binary_loop ht f spelling h)

abbrev Ends : TokenType → Type 0
Ends t = same_type end_of_file t ≡ false

Excludes-sign : Excludes-end is_sign
Excludes-sign s h = rw h refl

Excludes-sum : Excludes-end is_sum
Excludes-sum s h = rw h refl

Excludes-product : Excludes-end is_product
Excludes-product s h = rw h refl

Excludes-relation : Excludes-end is_relation
Excludes-relation s h = rw h refl

Excludes-equality : Excludes-end is_equality
Excludes-equality s h = rw h refl

Excludes-and : Excludes-end is_and
Excludes-and s h = rw h refl

Excludes-or : Excludes-end is_or
Excludes-or s h = rw h refl

module _ {expression : Parser Expression} where
  Runs-signed :
      (f : ℕ)
      → Runs 1 f expression
      → Runs 1 f (parse_unary expression f)
      → Runs 1 (suc f) (parse_unary expression (suc f))
  unfolding parse_unary
  Runs-signed f h again =
      Runs-guarded_token Excludes-sign
        (λ operation. Runs-bind (Runs-any again) λ e. Runs-bind (Runs-validate _) λ _. Runs-pure _)
        (Runs-bind (Runs-primary h) (Runs-postfix f h))

  Runs-unaries : (f : ℕ) → Runs 1 f expression → Runs 1 f (parse_unary expression f)
  Runs-unaries zero h = Runs-zero
  Runs-unaries (suc f) h = Runs-signed f (Runs-less h) (Runs-unaries f (Runs-less h))

  module _ (f : ℕ) (h : Runs 1 f expression) where
    Runs-unary : Runs 1 (suc f) (parse_unary expression (suc f))
    Runs-unary = Runs-signed f h (Runs-unaries f h)

    Runs-multiplication : Runs 1 (suc f) (parse_multiplication expression (suc f))
    unfolding parse_multiplication
    Runs-multiplication = Runs-level Excludes-product (suc f) _ Runs-unary

    Runs-addition : Runs 1 (suc f) (parse_addition expression (suc f))
    unfolding parse_addition
    Runs-addition = Runs-level Excludes-sum (suc f) _ Runs-multiplication

  Runs-additions : (f : ℕ) → Runs 1 f expression → Runs 1 f (parse_addition expression f)
  Runs-additions zero h = Runs-zero
  Runs-additions (suc f) h = Runs-addition f (Runs-less h)

  Runs-relation :
      (f : ℕ)
      → Runs 1 f expression
      → (operation : Token) (left : Expression)
      → Runs 0 f (parse_relation expression f operation left)
  unfolding parse_relation
  Runs-relation f h operation left =
      Runs-if _
        (Runs-bind Runs-current
          λ place. Runs-bind (Runs-any (Runs-test_name f _ _)) λ name. Runs-pure _)
        (Runs-bind (Runs-any (Runs-additions f h)) λ right. Runs-pure _)

  Runs-relational_loop :
      (f : ℕ)
      → Runs 1 f expression
      → (left : Expression) → Runs 0 (suc f) (relational_loop expression (suc f) left)
  unfolding relational_loop
  Runs-relational_loop zero h left =
      Runs-token_or Excludes-relation
        (λ operation.
          Runs-bind (Runs-relation zero h operation left)
            λ combined. Runs-bind (Runs-validate _) λ _. Runs-zero)
        (Runs-pure left)
  Runs-relational_loop (suc f) h left =
      Runs-token_or Excludes-relation
        (λ operation. Runs-bind (Runs-relation (suc f) h operation left) λ combined.
          Runs-bind (Runs-validate _) λ _. Runs-relational_loop f (Runs-less h) combined)
        (Runs-pure left)

  module _ (f : ℕ) (h : Runs 1 f expression) where
    Runs-relational : Runs 1 (suc f) (parse_relational expression (suc f))
    unfolding parse_relational
    Runs-relational = Runs-bind (Runs-addition f h) (Runs-relational_loop f h)

    Runs-comparison : Runs 1 (suc f) (parse_comparison expression (suc f))
    unfolding parse_comparison
    Runs-comparison = Runs-level Excludes-equality (suc f) _ Runs-relational

    Runs-negated : Runs 1 f (parse_not expression f) → Runs 1 (suc f) (parse_not expression (suc f))
    unfolding parse_not
    Runs-negated again =
        Runs-guarded_token (check-Excludes-end bang refl)
          (λ operation.
            Runs-bind (Runs-any again) λ e. Runs-bind (Runs-validate _) λ _. Runs-pure _)
          Runs-comparison

  Runs-nots : (f : ℕ) → Runs 1 f expression → Runs 1 f (parse_not expression f)
  Runs-nots zero h = Runs-zero
  Runs-nots (suc f) h = Runs-negated f (Runs-less h) (Runs-nots f (Runs-less h))

  Runs-or : (f : ℕ) → Runs 1 f expression → Runs 1 (suc f) (parse_or expression (suc f))
  unfolding parse_or parse_and
  Runs-or f h =
      Runs-level Excludes-or (suc f) _
        (Runs-level Excludes-and (suc f) _ (Runs-negated f h (Runs-nots f h)))

-- Before fewer tokens than the fuel, an expression reads at least one token or is refused.
pub Runs-parse_expression : (f : ℕ) → Runs 1 f (parse_expression f)
unfolding parse_expression
Runs-parse_expression zero = Runs-zero
Runs-parse_expression (suc f) = Runs-guarded (
    Runs-bind (Runs-or f (Runs-parse_expression f))
      λ e. Runs-bind (Runs-validate e) λ _. Runs-pure e)
