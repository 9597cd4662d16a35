-- ===== src/Ast/DumpStatements.antt =====
-- `dumpExpression` and `dumpStatement` of src/Ast.cpp: the bytes that they write.
use simp.Base.{ℕ, zero, suc, Bool, true, false, [], ◌∷◌, ◌++◌, Bytes, codes, equal, if◌then◌else◌}
use simp.Ast.Expressions.{
  ExpressionKind, Attributes, Expression, node, Child, absent, present, Expressions, nil, cons,
}
use simp.Ast.Statements.{
  StatementKind, StatementAttributes, HandlerAttributes, Statement, statement, Statements, end,
  next, Handlers, no_handlers, handler,
}

unfoldable pub indent : ℕ → Bytes
indent zero = []
indent (suc depth) = codes "  " ++ indent depth

abbrev pub expression_name : ExpressionKind → Bytes
expression_name ExpressionKind.bound_method = codes "BoundMethod"
expression_name ExpressionKind.callback_call = codes "CallbackCall"
expression_name ExpressionKind.integer = codes "Integer"
expression_name ExpressionKind.unsigned = codes "Unsigned"
expression_name ExpressionKind.float = codes "Float"
expression_name ExpressionKind.boolean = codes "Boolean"
expression_name ExpressionKind.string = codes "String"
expression_name ExpressionKind.format_string = codes "FormatString"
expression_name ExpressionKind.identifier = codes "Identifier"
expression_name ExpressionKind.implicit_this = codes "ImplicitThis"
expression_name ExpressionKind.unary = codes "Unary"
expression_name ExpressionKind.binary = codes "Binary"
expression_name ExpressionKind.member = codes "Member"
expression_name ExpressionKind.enum_constant = codes "EnumConstant"
expression_name ExpressionKind.call = codes "Call"
expression_name ExpressionKind.constructor_call = codes "ConstructorCall"
expression_name ExpressionKind.buffer_constructor = codes "BufferConstructor"
expression_name ExpressionKind.buffer_literal = codes "BufferLiteral"
expression_name ExpressionKind.null = codes "Null"
expression_name ExpressionKind.array_literal = codes "ArrayLiteral"
expression_name ExpressionKind.map_literal = codes "MapLiteral"
expression_name ExpressionKind.index = codes "Index"
expression_name ExpressionKind.slice = codes "Slice"
expression_name ExpressionKind.cast = codes "Cast"
expression_name ExpressionKind.object_cast = codes "ObjectCast"
expression_name ExpressionKind.type_test = codes "TypeTest"
expression_name ExpressionKind.type_of = codes "TypeOf"
expression_name ExpressionKind.type_name = codes "TypeName"

abbrev pub bracketed : Bytes → Bytes
bracketed text = codes " [" ++ text ++ codes "]"

abbrev pub is_empty : Bytes → Bool
is_empty [] = true
is_empty (c ∷ s) = false

abbrev expression_line : Attributes → Bytes
expression_line a =
    expression_name a.kind ++ (if is_empty a.value then [] else bracketed a.value) ++ b'\n' ∷ []

unfoldable mutual
  pub dump_expression : Expression → ℕ → Bytes
  dump_expression (node a l r es) depth =
      indent depth
      ++ expression_line a
      ++ dump_child l (suc depth)
      ++ dump_child r (suc depth)
      ++ dump_expressions es (suc depth)

  pub dump_child : Child → ℕ → Bytes
  dump_child absent depth = []
  dump_child (present e) depth = dump_expression e depth

  pub dump_expressions : Expressions → ℕ → Bytes
  dump_expressions nil depth = []
  dump_expressions (cons e es) depth = dump_expression e depth ++ dump_expressions es depth

abbrev pub line : Bytes → Bytes
line text = text ++ b'\n' ∷ []

abbrev pub statement_line : StatementKind → StatementAttributes → Bytes
statement_line StatementKind.declaration a =
    line (codes "Declaration" ++ bracketed (a.declared_type ++ b' ' ∷ a.name))
statement_line StatementKind.assignment a = line (
    codes "Assignment"
    ++ (if equal a.assignment_operator (codes "=") then [] else bracketed a.assignment_operator))
statement_line StatementKind.print a = line (codes "Print")
statement_line StatementKind.if a = line (codes "If")
statement_line StatementKind.while a = line (codes "While")
statement_line StatementKind.do_while a = line (codes "Do while")
statement_line StatementKind.break a = line (codes "Break")
statement_line StatementKind.continue a = line (codes "Continue")
statement_line StatementKind.for_each a = line (
    codes "For each"
    ++ bracketed (if is_empty a.key_name then a.name else a.key_name ++ codes ", " ++ a.name))
statement_line StatementKind.block a = line (codes "Block")
statement_line StatementKind.return a = line (codes "Return")
statement_line StatementKind.expression a = line (codes "Expression statement")
statement_line StatementKind.super_constructor_call a = line (
    codes (if a.virtual_base_initializer then "Super virtual constructor" else "Super constructor")
    ++ bracketed a.name)
statement_line StatementKind.raise a = line (codes "Raise")
statement_line StatementKind.try a = line (codes "Try")
statement_line StatementKind.inline_c a = line (codes "Inline C")

abbrev is_try : StatementKind → Bool
is_try StatementKind.try = true
is_try _ = false

abbrev pub handler_line : HandlerAttributes → Bytes
handler_line a = line (
    codes "Except"
    ++ (if is_empty a.exception_type then [] else bracketed a.exception_type)
    ++ (if a.has_binding then codes " as" ++ bracketed a.name else []))

unfoldable mutual
  pub dump_statement : Statement → ℕ → Bytes
  dump_statement (statement a body alternate cleanup hs) depth =
      let inside = dump_statements body (suc depth) in
      let caught = dump_handlers hs (suc depth) in
      let otherwise = dump_statements alternate (suc (suc depth)) in
      let finally = dump_statements cleanup (suc (suc depth)) in
      indent depth
      ++ statement_line a.kind a
      ++ dump_child a.target (suc depth)
      ++ dump_expressions a.expressions (suc depth)
      ++ inside
      ++ (if is_try a.kind
          then caught
          else if a.has_alternate
          then indent (suc depth) ++ line (codes "Else") ++ otherwise
          else [])
      ++ (if a.has_cleanup then indent (suc depth) ++ line (codes "Finally") ++ finally else [])

  pub dump_statements : Statements → ℕ → Bytes
  dump_statements end depth = []
  dump_statements (next s ss) depth = dump_statement s depth ++ dump_statements ss depth

  dump_handlers : Handlers → ℕ → Bytes
  dump_handlers no_handlers depth = []
  dump_handlers (handler a body hs) depth =
      indent depth ++ handler_line a ++ dump_statements body (suc depth) ++ dump_handlers hs depth
