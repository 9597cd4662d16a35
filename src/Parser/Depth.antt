-- ===== src/Parser/Depth.antt =====
-- `validateExpressionDepth` of src/Parser.cpp.
use simp.Base.{ℕ, suc, ltb, if◌then◌else◌, codes}
use simp.Ast.Expressions.{Expression, node, Child, absent, present, Expressions, nil, cons}
use simp.Parser.State.{maximum_nesting}
use simp.Parser.Verdict.{Verdict, accepted, refused, ◌>>=◌}

unfoldable mutual
  pub validate_expression_depth : Expression → ℕ → Verdict (Unit {0})
  validate_expression_depth (node a l r es) depth =
      let left = validate_child l (suc depth) in
      let right = validate_child r (suc depth) in
      let arguments = validate_arguments es (suc depth) in
      if ltb maximum_nesting depth
      then refused a.location (codes "expression tree depth exceeds 128")
      else left >>= λ _. right >>= λ _. arguments

  pub validate_child : Child → ℕ → Verdict (Unit {0})
  validate_child absent depth = accepted tt
  validate_child (present e) depth = validate_expression_depth e depth

  pub validate_arguments : Expressions → ℕ → Verdict (Unit {0})
  validate_arguments nil depth = accepted tt
  validate_arguments (cons e es) depth =
      let rest = validate_arguments es depth in validate_expression_depth e depth >>= λ _. rest
