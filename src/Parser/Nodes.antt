-- ===== src/Parser/Nodes.antt =====
-- The expressions that the parsers of src/Parser.cpp build.
use simp.Base.{Bool, true, false, [], Bytes, codes, equal, SourceLocation, ◌&&◌, String}
use simp.Lexer.Token.{Token}
use simp.Ast.Expressions.{
  ExpressionKind, Attributes, Expression, node, Child, absent, present, Expressions, nil, cons,
  plain,
}

abbrev pub leaf : ExpressionKind → SourceLocation → Bytes → Expression
leaf k l v = node (plain k l v) absent absent nil

abbrev pub unary_node : Token → Bytes → Expression → Expression
unary_node operation v e =
    node (plain ExpressionKind.unary operation.location v) (present e) absent nil

abbrev pub binary_node : Token → Bytes → Expression → Expression → Expression
binary_node operation v l r =
    node (plain ExpressionKind.binary operation.location v) (present l) (present r) nil

-- A node over one operand whose `typeLocation` is given.
abbrev pub typed_node :
    ExpressionKind → SourceLocation → SourceLocation → Bytes → Child → Expression
typed_node k l type_location v c =
    node (record (plain k l v) { type_location = type_location }) c absent nil

abbrev pub list_node : ExpressionKind → SourceLocation → Bytes → Expressions → Expression
list_node k l v es = node (plain k l v) absent absent es

-- `parseTypeName`
abbrev pub type_name_node : Token → String → Expression
type_name_node t name =
    typed_node ExpressionKind.type_name t.location t.location (codes name) absent

-- `omittedValue`
abbrev pub omitted : SourceLocation → String → Expression
omitted l v = leaf ExpressionKind.integer l (codes v)

abbrev slice_attributes : SourceLocation → Bool → Bool → Bool → Attributes
slice_attributes l has_start has_end has_step = record (plain ExpressionKind.slice l []) {
  slice_has_start = has_start;
  slice_has_end = has_end;
  slice_has_step = has_step;
}

abbrev pub slice_node :
    SourceLocation
    → Expression
    → (has_start has_end has_step : Bool) → (start stop step : Expression) → Expression
slice_node l e has_start has_end has_step start stop step =
    node (slice_attributes l has_start has_end has_step) (present e) absent
      (cons start (cons stop (cons step nil)))

abbrev pub kind_of : Expression → ExpressionKind
kind_of (node a l r es) = a.kind

abbrev pub value_of : Expression → Bytes
value_of (node a l r es) = a.value

abbrev pub place_of : Expression → SourceLocation
place_of (node a l r es) = a.location

abbrev pub is_string_kind : ExpressionKind → Bool
is_string_kind ExpressionKind.string = true
is_string_kind _ = false

abbrev pub is_identifier_kind : ExpressionKind → Bool
is_identifier_kind ExpressionKind.identifier = true
is_identifier_kind _ = false

abbrev pub is_call_kind : ExpressionKind → Bool
is_call_kind ExpressionKind.call = true
is_call_kind ExpressionKind.constructor_call = true
is_call_kind _ = false

-- `expression->kind == Identifier && expression->value == "format"`
unfoldable pub is_format : Expression → Bool
unfolding equal
is_format e = is_identifier_kind (kind_of e) && equal (value_of e) (codes "format")
