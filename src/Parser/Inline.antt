-- ===== src/Parser/Inline.antt =====
-- `parseInlineC` of src/Parser.cpp, and a declaration with an inline block behind it.
use simp.Base.{
  ℕ, zero, suc, Bool, true, false, List, [], ◌∷◌, ◌++◌, Bytes, codes, if◌then◌else◌, SourceLocation,
}
use simp.Lexer.Token.{
  Token, comma, dot, left_paren, right_paren, inline_keyword, inline_body, identifier,
}
use simp.Ast.Expressions.{
  ExpressionKind, Expression, node, Child, absent, present, Expressions, nil, cons, plain,
}
use simp.Ast.Statements.{StatementKind, InlineCapture, Statement, end, next, blank, simple, append}
use simp.Parser.State.{
  parsed, Parser, pure, ◌>>=◌, ◌>>◌, branch, check, current, if_match, consume, error_here,
  out_of_fuel, consume_statement_terminator,
}
use simp.Parser.Nodes.{leaf}
use simp.Parser.Types.{parse_type}
use simp.Parser.Postfix.{validate}

-- `pendingStatements_.push_back(...)`
unfoldable pub defer : Statement → Parser (Unit {0})
defer s st =
    parsed tt (record st { pending_statements = append st.pending_statements (next s end) })

abbrev pub capture : Bytes → Bytes → SourceLocation → Child → InlineCapture
capture type name l target = record { type_text = type; name = name; location = l; target = target }

-- The fields behind the first name of a capture: the last name, and the expression.
unfoldable pub capture_path : ℕ → Bytes → Expression → Parser (Bytes × Expression)
capture_path zero name target = out_of_fuel
capture_path (suc f) name target =
    if_match dot
      (do
        field ← consume identifier "capture field after '.'"
        validate (
            node (plain ExpressionKind.member field.location field.text) (present target) absent
              nil)
        capture_path f field.text (
            node (plain ExpressionKind.member field.location field.text) (present target) absent
              nil))
      (pure (name, target))

abbrev first_target : Child → Token → Expression
first_target absent name = leaf ExpressionKind.identifier name.location name.text
first_target (present e) name =
    node (plain ExpressionKind.member name.location name.text) (present e) absent nil

unfoldable pub parse_capture : ℕ → Parser InlineCapture
parse_capture f = do
  place ← current
  type ← parse_type f true
  target ←
      if_match dot (pure (present (leaf ExpressionKind.implicit_this place.location [])))
        (pure absent)
  name ← consume identifier "capture name"
  (last, path) ← capture_path f name.text (first_target target name)
  pure (capture type last place.location (present path))

unfoldable pub capture_list : ℕ → List InlineCapture → Parser (List InlineCapture)
capture_list zero cs = out_of_fuel
capture_list (suc f) cs = do
  c ← parse_capture (suc f)
  if_match comma (capture_list f (cs ++ c ∷ [])) (pure (cs ++ c ∷ []))

unfoldable pub parse_captures : ℕ → Parser (List InlineCapture)
parse_captures f = do
  cs ← branch (check right_paren) (pure []) (capture_list f [])
  consume right_paren "')' after inline capture list"
  pure cs

abbrev pub inline_statement : SourceLocation → List InlineCapture → Bytes → Statement
inline_statement l cs source =
    simple
      (record (blank StatementKind.inline_c l) { inline_captures = cs; inline_source = source })

-- `extra` is the capture that a declaration adds behind the others.
unfoldable pub parse_inline_c : ℕ → List InlineCapture → Parser Statement
parse_inline_c f extra = do
  keyword ← consume inline_keyword "'inline'"
  cs ← if_match left_paren (parse_captures f) (pure [])
  body ← consume inline_body "inline C block body"
  consume_statement_terminator
  pure (inline_statement keyword.location (cs ++ extra) body.text)

abbrev pub declaration_statement : SourceLocation → Bytes → Bytes → Expressions → Statement
declaration_statement l type name es = simple (record (blank StatementKind.declaration l) {
  declared_type = type;
  name = name;
  expressions = es;
})

abbrev is_nil : Expressions → Bool
is_nil nil = true
is_nil (cons e es) = false

-- An inline block behind a declaration becomes a statement of its own.
unfoldable pub parse_captured : ℕ → SourceLocation → Bytes → Bytes → Expressions → Parser Statement
parse_captured f l type name es =
    if is_nil es
    then (do
      inlined ← parse_inline_c f (capture type name l absent ∷ [])
      defer inlined
      pure (declaration_statement l type name es))
    else error_here (codes "inline capture declaration cannot have an initializer")
