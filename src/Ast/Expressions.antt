-- ===== src/Ast/Expressions.antt =====
-- `Expression` of include/cwhip/Ast.hpp.
use simp.Base.{ℕ, Bool, true, false, List, [], Bytes, SourceLocation}

pub data ExpressionKind : Type 0 where
  integer unsigned float boolean string format_string identifier implicit_this : ExpressionKind
  unary binary member enum_constant call constructor_call buffer_constructor null : ExpressionKind
  array_literal map_literal index slice cast object_cast type_test type_of : ExpressionKind
  type_name buffer_literal bound_method callback_call : ExpressionKind

-- The bytes for the kind and the alignment are 0 where none is given.
pub record FormatSpec : Type 0 where
  pub type_byte : ℕ
  pub alignment : ℕ
  pub zero_pad : Bool
  pub width : ℕ

-- A default `SourceLocation`.
abbrev pub start_of_file : SourceLocation
start_of_file = record { file = []; line = 1; column = 1 }

-- The fields of `Expression` that are no expressions.
pub record Attributes : Type 0 where
  pub kind : ExpressionKind
  pub location : SourceLocation
  pub type_location : SourceLocation
  pub value : Bytes
  pub slice_has_start : Bool
  pub slice_has_end : Bool
  pub slice_has_step : Bool
  pub resolved_signature : Bytes
  pub resolved_type : Bytes
  pub argument_names : List Bytes
  pub argument_name_locations : List SourceLocation
  pub format_segments : List Bytes
  pub format_argument_indices : List ℕ
  pub format_specs : List FormatSpec

mutual
  pub data Expression : Type 0 where
    node : Attributes → (left right : Child) → (arguments : Expressions) → Expression

  pub data Child : Type 0 where
    absent : Child
    present : Expression → Child

  pub data Expressions : Type 0 where
    nil : Expressions
    cons : Expression → Expressions → Expressions

abbrev pub attributes : Expression → Attributes
attributes (node a l r es) = a

-- An expression with its kind, its place and its text, and the default of each other field.
abbrev pub plain : ExpressionKind → SourceLocation → Bytes → Attributes
plain k l v = record {
  kind = k;
  location = l;
  type_location = start_of_file;
  value = v;
  slice_has_start = true;
  slice_has_end = true;
  slice_has_step = false;
  resolved_signature = [];
  resolved_type = [];
  argument_names = [];
  argument_name_locations = [];
  format_segments = [];
  format_argument_indices = [];
  format_specs = [];
}

-- `push_back`
unfoldable pub push : Expressions → Expression → Expressions
push nil e = cons e nil
push (cons x xs) e = cons x (push xs e)
