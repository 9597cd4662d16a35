-- ===== src/Ast/Clone.antt =====
-- `cloneExpression` of src/Ast.cpp.
use simp.Base.{◌≡◌, refl}
use simp.Ast.Expressions.{
  Attributes, Expression, node, Child, absent, present, Expressions, nil, cons, plain, push,
}

-- The copy starts from a blank expression, and each field is set.
abbrev copy_attributes : Attributes → Attributes
copy_attributes a = record (plain a.kind a.location a.value) {
  type_location = a.type_location;
  slice_has_start = a.slice_has_start;
  slice_has_end = a.slice_has_end;
  slice_has_step = a.slice_has_step;
  resolved_signature = a.resolved_signature;
  resolved_type = a.resolved_type;
  argument_names = a.argument_names;
  argument_name_locations = a.argument_name_locations;
  format_segments = a.format_segments;
  format_argument_indices = a.format_argument_indices;
  format_specs = a.format_specs;
}

-- The arguments are copied one by one to the end of those copied before.
unfoldable mutual
  pub clone_expression : Expression → Expression
  clone_expression (node a l r es) =
      node (copy_attributes a) (clone_child l) (clone_child r) (clone_onto nil es)

  clone_child : Child → Child
  clone_child absent = absent
  clone_child (present e) = present (clone_expression e)

  clone_onto : Expressions → Expressions → Expressions
  clone_onto copied nil = copied
  clone_onto copied (cons e es) = clone_onto (push copied (clone_expression e)) es

abbrev append : Expressions → Expressions → Expressions
append nil ys = ys
append (cons x xs) ys = cons x (append xs ys)

append_nil : (xs : Expressions) → append xs nil ≡ xs
append_nil nil = refl
append_nil (cons x xs) = rw (append_nil xs)

append-push :
    (xs : Expressions) (e : Expression) (ys : Expressions)
    → append (push xs e) ys ≡ append xs (cons e ys)
unfolding push
append-push nil e ys = refl
append-push (cons x xs) e ys = rw (append-push xs e ys)

mutual
  unfolding clone_expression

  clone_same : (e : Expression) → clone_expression e ≡ e
  clone_same (node a l r es) = rw (child_same l, child_same r, onto_same nil es)

  child_same : (c : Child) → clone_child c ≡ c
  child_same absent = refl
  child_same (present e) = rw (clone_same e)

  onto_same : (copied es : Expressions) → clone_onto copied es ≡ append copied es
  onto_same copied nil = rw (append_nil copied)
  onto_same copied (cons e es) =
      rw (clone_same e, onto_same (push copied e) es, append-push copied e es)

-- The copy of an expression is the expression: no field and no node is lost, at any depth.
pub clone_expression_same : (e : Expression) → clone_expression e ≡ e
clone_expression_same e = clone_same e
