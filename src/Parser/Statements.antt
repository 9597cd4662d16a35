-- ===== src/Parser/Statements.antt =====
-- The statements of src/Parser.cpp that hold others, `parseStatement` and `parseBlock`.
use simp.Base.{
  ℕ, zero, suc, Bool, true, false, not, ◌&&◌, ◌||◌, [], Bytes, codes, if◌then◌else◌, SourceLocation,
}
use simp.Lexer.Token.{
  TokenType, left_paren, right_paren, left_brace, type_type, strg_type, list_type, dict_type,
  buffer_type, handle_type, any_type, float_type, callback_type, void_keyword, inline_keyword,
  import_keyword, include_keyword, print_keyword, if_keyword, else_keyword, while_keyword,
  do_keyword, for_keyword, in_keyword, break_keyword, continue_keyword, raise_keyword, try_keyword,
  except_keyword, finally_keyword, return_keyword, super_keyword, virtual_keyword, as_keyword,
  identifier,
}
use simp.Ast.Expressions.{Expression}
use simp.Ast.Statements.{
  StatementKind, HandlerAttributes, Statement, statement, Statements, end, Handlers, no_handlers,
  handler, blank, with_body, add_handler,
}
use simp.Parser.State.{
  Parser, pure, ◌>>=◌, ◌>>◌, branch, check, current, advance, if_match, consume, error_here,
  error_found, guarded, out_of_fuel, skip_newlines,
}
use simp.Parser.Types.{parse_qualified_identifier}
use simp.Parser.Primary.{Tested}
use simp.Parser.Postfix.{previous}
use simp.Parser.Simple.{
  parse_declaration, parse_expression_statement, parse_return, parse_raise,
  parse_super_constructor_call, parse_print, parse_loop_control,
}
use simp.Parser.Inline.{parse_inline_c}
use simp.Parser.Expressions.{parse_expression}
use simp.Parser.Loops.{
  parse_block_of, parse_condition, if_attributes, loop_statement, for_each_statement,
  parse_variables,
}

abbrev handler_attributes : SourceLocation → Bytes → Bytes → Bool → HandlerAttributes
handler_attributes l type name has_binding = record {
  location = l;
  exception_type = type;
  name = name;
  has_binding = has_binding;
}

-- The name that a handler binds, if any.
unfoldable pub parse_binding : Parser (Bytes × Bool)
parse_binding =
    if_match as_keyword
      (do name ← consume identifier "exception binding name"; pure (name.text, true))
      (pure ([], false))

abbrev is_none : Handlers → Bool
is_none no_handlers = true
is_none (handler a body hs) = false

abbrev try_statement : SourceLocation → Statements → Handlers → Bool → Statements → Statement
try_statement l body hs has_cleanup cleanup =
    statement (record (blank StatementKind.try l) { has_cleanup = has_cleanup }) body end cleanup hs

abbrev starts_type : Tested
starts_type s =
    check TokenType.int s
    || check TokenType.bool s
    || check float_type s
    || check TokenType.unsigned s
    || check strg_type s
    || check list_type s
    || check dict_type s
    || check buffer_type s
    || check handle_type s
    || check any_type s
    || check type_type s
    || check callback_type s
    || check void_keyword s

abbrev pub is_loop_control : Tested
is_loop_control s = check break_keyword s || check continue_keyword s

module _ (expression : Parser Expression) (block : Parser Statements) where
  unfoldable pub parse_if : Parser Statement
  parse_if = do
    keyword ← consume if_keyword "'if'"
    e ← parse_condition expression "'(' after if" "')' after if condition"
    skip_newlines
    body ← block
    skip_newlines
    if_match else_keyword
        (branch (check left_paren)
          (error_here (codes "unconditional 'else' cannot have a condition"))
          (do
            alternate ← block
            pure
                (statement (if_attributes keyword.location e true) body alternate end no_handlers)))
        (pure (with_body (if_attributes keyword.location e false) body))

  unfoldable pub parse_while : Parser Statement
  parse_while = do
    keyword ← consume while_keyword "'while'"
    e ← parse_condition expression "'(' after while" "')' after while condition"
    skip_newlines
    body ← block
    pure (loop_statement StatementKind.while keyword.location e body)

  unfoldable pub parse_do_while : Parser Statement
  parse_do_while = do
    keyword ← consume do_keyword "'do'"
    skip_newlines
    body ← block
    skip_newlines
    consume while_keyword "'while' after do-while body"
    e ← parse_condition expression "'(' after while" "')' after do-while condition"
    pure (loop_statement StatementKind.do_while keyword.location e body)

  unfoldable pub parse_for_each : Parser Statement
  parse_for_each = do
    keyword ← consume for_keyword "'for'"
    consume left_paren "'(' after for"
    (key, name) ← parse_variables
    consume in_keyword "'in' after iteration variable"
    e ← expression
    consume right_paren "')' after collection expression"
    skip_newlines
    body ← block
    pure (for_each_statement keyword.location key name e body)

  -- What follows `except`, up to the next handler.
  unfoldable pub parse_handler : ℕ → Parser (HandlerAttributes × Statements)
  parse_handler f = do
    keyword ← previous
    consume left_paren "'(' after except"
    type ←
        branch (check right_paren) (pure []) (parse_qualified_identifier f "exception class name")
    consume right_paren "')' after exception class name"
    (name, has_binding) ← parse_binding
    skip_newlines
    body ← block
    skip_newlines
    pure (handler_attributes keyword.location type name has_binding, body)

  unfoldable pub handler_loop : ℕ → Handlers → Parser Handlers
  handler_loop zero hs = out_of_fuel
  handler_loop (suc f) hs =
      if_match except_keyword
        (do (a, body) ← parse_handler (suc f); handler_loop f (add_handler hs a body)) (pure hs)

  unfoldable pub parse_cleanup : Parser (Bool × Statements)
  parse_cleanup =
      if_match finally_keyword
        (do skip_newlines; cleanup ← block; skip_newlines; pure (true, cleanup)) (pure (false, end))

  unfoldable pub parse_try : ℕ → Parser Statement
  parse_try f = do
    keyword ← consume try_keyword "'try'"
    skip_newlines
    body ← block
    skip_newlines
    hs ← handler_loop f no_handlers
    (has_cleanup, cleanup) ← parse_cleanup
    if is_none hs && not has_cleanup
        then error_here (codes "'try' requires an 'except' or 'finally' block")
        else pure (try_statement keyword.location body hs has_cleanup cleanup)

  unfoldable pub parse_inner_block : Parser Statement
  parse_inner_block = do
    opening ← current
    body ← block
    pure (with_body (blank StatementKind.block opening.location) body)

  -- The statements that begin with a keyword or a brace.
  unfoldable pub parse_keyword_statement : ℕ → Parser Statement
  parse_keyword_statement f = branch (check print_keyword) (parse_print expression f) (
      branch (check if_keyword) parse_if (
        branch (check while_keyword) parse_while (
          branch (check do_keyword) parse_do_while (
            branch (check for_keyword) parse_for_each (
              branch is_loop_control (advance >>= parse_loop_control) (
                branch (check raise_keyword) (parse_raise expression) (
                  branch (check try_keyword) (parse_try f) (
                    branch (check left_brace) parse_inner_block (
                      branch (check return_keyword) (parse_return expression) (
                        branch (λ s. check super_keyword s || check virtual_keyword s)
                          (parse_super_constructor_call expression f)
                          (error_found (codes "expected statement"))))))))))))

  unfoldable pub parse_statement : ℕ → Parser Statement
  parse_statement f =
      branch (check import_keyword) (error_here (codes "'import' is only allowed at top level")) (
        branch (check include_keyword) (error_here (codes "'include' is only allowed at top level"))
          (branch (check inline_keyword) (parse_inline_c f []) (
            branch starts_type (parse_declaration expression f) (
              branch (λ s. check identifier s || check left_paren s)
                (parse_expression_statement expression f) (parse_keyword_statement f)))))

unfoldable pub parse_block : ℕ → Parser Statements
parse_block zero = out_of_fuel
parse_block (suc f) =
    guarded (parse_block_of f (parse_statement (parse_expression f) (parse_block f) f))
