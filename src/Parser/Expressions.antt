-- ===== src/Parser/Expressions.antt =====
-- The levels of expressions, from `parseExpression` to `parseUnary`, of src/Parser.cpp.
use simp.Base.{ℕ, zero, suc, false, ◌||◌, Bytes, codes, if◌then◌else◌}
use simp.Lexer.Token.{
  Token, is_keyword, or_keyword, and_keyword, or_or, and_and, bang, equal_equal, bang_equal, less,
  less_equal, greater, greater_equal, plus, minus, star, slash, percent,
}
use simp.Ast.Expressions.{ExpressionKind, Expression, present}
use simp.Parser.State.{
  Parser, pure, ◌>>=◌, ◌>>◌, branch, check, current, advance, guarded, out_of_fuel,
}
use simp.Parser.Nodes.{unary_node, binary_node, typed_node}
use simp.Lexer.Kinds.{same_type}
use simp.Parser.Types.{parse_type_test_name}
use simp.Parser.Primary.{Tested, parse_primary}
use simp.Parser.Postfix.{validate, parse_postfix}

-- The loop of a level whose operators group to the left: `spelling` is the operator in the tree.
unfoldable pub binary_loop :
    ℕ → Tested → (Token → Bytes) → Parser Expression → Expression → Parser Expression
binary_loop zero is_operator spelling operand left = out_of_fuel
binary_loop (suc f) is_operator spelling operand left =
    branch is_operator
      (advance >>= λ operation. do
        right ← operand
        validate (binary_node operation (spelling operation) left right)
        binary_loop f is_operator spelling operand
            (binary_node operation (spelling operation) left right))
      (pure left)

abbrev text_of : Token → Bytes
text_of t = t.text

abbrev pub is_or : Tested
is_or s = check or_keyword s || check or_or s

abbrev pub is_and : Tested
is_and s = check and_keyword s || check and_and s

abbrev pub is_equality : Tested
is_equality s = check equal_equal s || check bang_equal s

abbrev pub is_relation : Tested
is_relation s =
    check is_keyword s
    || check less s
    || check less_equal s
    || check greater s
    || check greater_equal s

abbrev pub is_sum : Tested
is_sum s = check plus s || check minus s

abbrev pub is_product : Tested
is_product s = check star s || check slash s || check percent s

abbrev pub is_sign : Tested
is_sign s = check minus s || check plus s

module _ (expression : Parser Expression) where
  unfoldable pub parse_unary : ℕ → Parser Expression
  parse_unary zero = out_of_fuel
  parse_unary (suc f) =
      branch is_sign
        (guarded (
          advance >>= λ operation. do
            e ← parse_unary f
            validate (unary_node operation operation.text e)
            pure (unary_node operation operation.text e)))
        (parse_primary expression f >>= parse_postfix expression (suc f))

  unfoldable pub parse_multiplication : ℕ → Parser Expression
  parse_multiplication f = parse_unary f >>= binary_loop f is_product text_of (parse_unary f)

  unfoldable pub parse_addition : ℕ → Parser Expression
  parse_addition f =
      parse_multiplication f >>= binary_loop f is_sum text_of (parse_multiplication f)

  -- The right side of a comparison or a type test.
  unfoldable pub parse_relation : ℕ → Token → Expression → Parser Expression
  parse_relation f operation left =
      if same_type operation.type_of is_keyword
      then (do
        place ← current
        name ← parse_type_test_name f "'is'" false
        pure (
            typed_node ExpressionKind.type_test operation.location place.location name
              (present left)))
      else (do right ← parse_addition f; pure (binary_node operation operation.text left right))

  unfoldable pub relational_loop : ℕ → Expression → Parser Expression
  relational_loop zero left = out_of_fuel
  relational_loop (suc f) left =
      branch is_relation
        (advance >>= λ operation. do
          combined ← parse_relation f operation left
          validate combined
          relational_loop f combined)
        (pure left)

  unfoldable pub parse_relational : ℕ → Parser Expression
  parse_relational f = parse_addition f >>= relational_loop f

  unfoldable pub parse_comparison : ℕ → Parser Expression
  parse_comparison f = parse_relational f >>= binary_loop f is_equality text_of (parse_relational f)

  unfoldable pub parse_not : ℕ → Parser Expression
  parse_not zero = out_of_fuel
  parse_not (suc f) =
      branch (check bang)
        (guarded (
          advance >>= λ operation. do
            e ← parse_not f
            validate (unary_node operation (codes "!") e)
            pure (unary_node operation (codes "!") e)))
        (parse_comparison (suc f))

  unfoldable pub parse_and : ℕ → Parser Expression
  parse_and f = parse_not f >>= binary_loop f is_and (λ _. codes "&&") (parse_not f)

  unfoldable pub parse_or : ℕ → Parser Expression
  parse_or f = parse_and f >>= binary_loop f is_or (λ _. codes "||") (parse_and f)

unfoldable pub parse_expression : ℕ → Parser Expression
parse_expression zero = out_of_fuel
parse_expression (suc f) =
    guarded (do e ← parse_or (parse_expression f) (suc f); validate e; pure e)
