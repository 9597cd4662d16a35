-- ===== src/Parser/Loops.antt =====
-- Blocks, conditions and the parts of loops of src/Parser.cpp.
use simp.Base.{ℕ, zero, suc, Bool, ◌||◌, [], String, Bytes, SourceLocation}
use simp.Lexer.Token.{
  end_of_file, comma, left_paren, right_paren, left_brace, right_brace, identifier,
}
use simp.Ast.Expressions.{Expression, nil, cons}
use simp.Ast.Statements.{
  StatementKind, StatementAttributes, Statement, Statements, end, next, blank, with_body, append,
}
use simp.Parser.State.{
  parsed, Parser, pure, ◌>>=◌, ◌>>◌, branch, check, if_match, consume, out_of_fuel, skip_newlines,
}
use simp.Parser.Primary.{Tested}

unfoldable pub take_pending : Parser Statements
take_pending s = parsed s.pending_statements (record s { pending_statements = end })

abbrev pub at_block_end : Tested
at_block_end s = check right_brace s || check end_of_file s

-- Each statement, and those that it left in `pendingStatements_` behind it.
unfoldable pub block_loop : ℕ → Parser Statement → Statements → Parser Statements
block_loop zero one ss = out_of_fuel
block_loop (suc f) one ss = branch at_block_end (pure ss) (do
  skip_newlines
  branch at_block_end (pure ss)
      (do s ← one; more ← take_pending; block_loop f one (append ss (next s more))))

-- A block of statements that `one` reads, inside a level of nesting.
unfoldable pub parse_block_of : ℕ → Parser Statement → Parser Statements
parse_block_of f one = do
  skip_newlines
  consume left_brace "'{'"
  ss ← block_loop f one end
  consume right_brace "'}'"
  pure ss

-- A condition between parentheses.
unfoldable pub parse_condition : Parser Expression → String → String → Parser Expression
parse_condition expression opening closing = do
  consume left_paren opening
  e ← expression
  consume right_paren closing
  pure e

abbrev pub if_attributes : SourceLocation → Expression → Bool → StatementAttributes
if_attributes l e has_alternate = record (blank StatementKind.if l) {
  expressions = cons e nil;
  has_alternate = has_alternate;
}

unfoldable pub loop_statement : StatementKind → SourceLocation → Expression → Statements → Statement
loop_statement k l e body = with_body (record (blank k l) { expressions = cons e nil }) body

abbrev pub for_each_statement : SourceLocation → Bytes → Bytes → Expression → Statements → Statement
for_each_statement l key name e body =
    with_body
      (record (blank StatementKind.for_each l) {
        key_name = key;
        name = name;
        expressions = cons e nil;
      })
      body

-- The key's name, which is empty if there is none, and the value's.
unfoldable pub parse_variables : Parser (Bytes × Bytes)
parse_variables = do
  first ← consume identifier "iteration variable"
  if_match comma
      (do second ← consume identifier "value iteration variable"; pure (first.text, second.text))
      (pure ([], first.text))
