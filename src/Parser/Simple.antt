-- ===== src/Parser/Simple.antt =====
-- The statements of src/Parser.cpp that hold no others. The parser of an expression is a parameter.
use simp.Base.{
  ℕ, Bool, true, false, ◌&&◌, ◌||◌, List, [], ◌∷◌, Bytes, codes, if◌then◌else◌, SourceLocation,
}
use simp.Lexer.Token.{
  TokenType, Token, end_of_file, newline, comma, dot, equal, left_paren, right_paren, right_brace,
  inline_keyword, print_keyword, raise_keyword, return_keyword, super_keyword, virtual_keyword,
  plus_equal, minus_equal, star_equal, slash_equal, percent_equal, identifier,
}
use simp.Lexer.Kinds.{same_type}
use simp.Ast.Expressions.{ExpressionKind, Expression, node, present, Expressions, nil, cons}
use simp.Ast.Statements.{StatementKind, Statement, blank, simple}
use simp.Parser.State.{
  Parser, pure, ◌>>=◌, ◌>>◌, branch, check, check_next, current, advance, if_match, match, consume,
  error, error_here, lift, consume_statement_terminator,
}
use simp.Parser.Nodes.{list_node, kind_of, place_of, is_string_kind, is_call_kind}
use simp.Parser.Types.{parse_type}
use simp.Parser.Primary.{Tested, closed_list}
use simp.Parser.Postfix.{validate, count, parse_format_arguments}
use simp.Parser.FormatArguments.{validate_format_string}
use simp.Parser.Inline.{declaration_statement, parse_captured}

abbrev pub is_assignment : Tested
is_assignment s =
    check equal s
    || check plus_equal s
    || check minus_equal s
    || check star_equal s
    || check slash_equal s
    || check percent_equal s

-- The tokens behind the components of a dotted name.
unfoldable pub after_dotted : List Token → List Token
after_dotted [] = []
after_dotted (t ∷ []) = t ∷ []
after_dotted (t ∷ u ∷ ts) =
    let more = after_dotted ts in
    if same_type t.type_of dot && same_type u.type_of identifier then more else t ∷ u ∷ ts

abbrev starts_with_name : List Token → Bool
starts_with_name [] = false
starts_with_name (t ∷ ts) = same_type t.type_of identifier

-- A name with a type's name in front of it.
unfoldable pub starts_declaration : Tested
unfolding after_dotted
starts_declaration s = check identifier s && starts_with_name (after_dotted s.rest)

module _ (expression : Parser Expression) where
  unfoldable pub parse_constructor : ℕ → SourceLocation → Bytes → Parser Expressions
  parse_constructor f l type = do
    es ← closed_list expression f right_paren "')' after constructor arguments"
    validate (list_node ExpressionKind.constructor_call l type es)
    pure (cons (list_node ExpressionKind.constructor_call l type es) nil)

  -- `= value`, or the arguments of a constructor of a class.
  unfoldable pub parse_initializer : ℕ → Token → Bytes → Parser Expressions
  parse_initializer f type type_name = if_match equal (expression >>= λ e. pure (cons e nil)) (
      if same_type type.type_of identifier
      then if_match left_paren (parse_constructor f type.location type_name) (pure nil)
      else pure nil)

  unfoldable pub parse_declaration : ℕ → Parser Statement
  parse_declaration f = do
    type ← current
    type_name ← parse_type f false
    name ← consume identifier "identifier (keywords are reserved)"
    es ← parse_initializer f type type_name
    branch (check inline_keyword) (parse_captured f type.location type_name name.text es) (do
      consume_statement_terminator
      pure (declaration_statement type.location type_name name.text es))

  unfoldable pub assignment_statement : Token → Expression → Expression → Statement
  assignment_statement operator target value =
      simple (record (blank StatementKind.assignment (place_of target)) {
        assignment_operator = operator.text;
        assignment_operator_location = operator.location;
        target = present target;
        expressions = cons value nil;
      })

  unfoldable pub parse_assignment : Token → Expression → Parser Statement
  parse_assignment operator target = do
    value ← expression
    consume_statement_terminator
    pure (assignment_statement operator target value)

  -- A statement of a kind with one expression.
  abbrev pub one_expression : StatementKind → SourceLocation → Expressions → Statement
  one_expression k l es = simple (record (blank k l) { expressions = es })

  unfoldable pub finish_call : Expression → Parser Statement
  finish_call e =
      if is_call_kind (kind_of e)
      then (do
        consume_statement_terminator
        pure (one_expression StatementKind.expression (place_of e) (cons e nil)))
      else error_here (codes "only method calls may be used as expression statements")

  unfoldable pub parse_expression_statement : ℕ → Parser Statement
  parse_expression_statement f = branch starts_declaration (parse_declaration f) (do
    e ← expression
    branch is_assignment (advance >>= λ operator. parse_assignment operator e) (finish_call e))

  abbrev empty_call : Tested
  empty_call s = check left_paren s && check_next right_paren s

  abbrev at_statement_end : Tested
  at_statement_end s = check newline s || check right_brace s || check end_of_file s

  unfoldable pub parse_return : Parser Statement
  parse_return = do
    keyword ← consume return_keyword "'return'"
    es ←
        branch empty_call (do match left_paren; match right_paren; pure nil)
          (branch at_statement_end (pure nil) (expression >>= λ e. pure (cons e nil)))
    consume_statement_terminator
    pure (one_expression StatementKind.return keyword.location es)

  unfoldable pub parse_raise : Parser Statement
  parse_raise = do
    keyword ← consume raise_keyword "'raise'"
    consume left_paren "'(' after raise"
    s ←
        if_match right_paren
          (pure (
            simple
              (record (blank StatementKind.raise keyword.location) { rethrows_exception = true })))
          (do
            e ← expression
            consume right_paren "')' after raised expression"
            pure (one_expression StatementKind.raise keyword.location (cons e nil)))
    consume_statement_terminator
    pure s

  abbrev super_statement : SourceLocation → Bool → Bytes → Expressions → Statement
  super_statement l is_virtual name es =
      simple (record (blank StatementKind.super_constructor_call l) {
        virtual_base_initializer = is_virtual;
        name = name;
        expressions = es;
      })

  unfoldable pub parse_super_constructor_call : ℕ → Parser Statement
  parse_super_constructor_call f = do
    keyword ← current
    is_virtual ← if_match super_keyword (match virtual_keyword) (do
      consume virtual_keyword "'virtual'"
      consume super_keyword "'super' after virtual"
      pure true)
    name ← consume identifier "base class name after super"
    consume left_paren "'(' after base class name"
    es ← closed_list expression f right_paren "')' after base constructor arguments"
    consume_statement_terminator
    pure (super_statement keyword.location is_virtual name.text es)

  unfoldable pub parse_print_format : ℕ → Token → Expression → Parser Expressions
  parse_print_format f keyword (node a l r es) =
      if is_string_kind a.kind
      then (do
        (named, arguments) ←
            parse_format_arguments expression f (record a { kind = ExpressionKind.format_string })
              es
        checked ← lift (validate_format_string named (count arguments))
        pure (cons (node checked l r arguments) nil))
      else error keyword.location (codes "formatted print requires a string literal template")

  unfoldable pub parse_print : ℕ → Parser Statement
  parse_print f = do
    keyword ← consume print_keyword "'print'"
    consume left_paren "'(' after print"
    es ←
        branch (check right_paren) (pure nil)
          (do e ← expression; if_match comma (parse_print_format f keyword e) (pure (cons e nil)))
    consume right_paren "')' after print arguments"
    consume_statement_terminator
    pure (one_expression StatementKind.print keyword.location es)

abbrev loop_kind : TokenType → StatementKind
loop_kind TokenType.break_keyword = StatementKind.break
loop_kind _ = StatementKind.continue

-- What follows `break` or `continue`.
unfoldable pub parse_loop_control : Token → Parser Statement
parse_loop_control keyword = do
  consume_statement_terminator
  pure (simple (blank (loop_kind keyword.type_of) keyword.location))
