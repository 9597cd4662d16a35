-- ===== src/Parser/StatementSteps.antt =====
-- The parsers of Statements stay within their fuel and their tokens.
use simp.Base.{ℕ, zero, suc, ◌<◌, refl, [], String, length, arith}
use simp.Lexer.Token.{
  comma, left_paren, right_paren, left_brace, right_brace, if_keyword, else_keyword, while_keyword,
  do_keyword, for_keyword, in_keyword, try_keyword, except_keyword, finally_keyword, as_keyword,
  identifier,
}
use simp.Ast.Expressions.{Expression}
use simp.Ast.Statements.{Statement, Statements, end, Handlers, no_handlers}
use simp.Parser.State.{ParserState, Parser}
use simp.Parser.Steps.{
  Runs-current, Excludes-end, Runs-token, Runs-error_here, Runs-error_found, Runs-consume,
  Runs-if_match, Runs-if_match_same, Runs-skip_newlines, Runs-guarded,
}
use simp.Parser.Rules.{reads}
use simp.Parser.Rules.{
  IsEnded, Runs-from, Reads, Runs, runs, Runs-zero, Runs-less, Runs-any, Runs-pure, Runs-branch,
  Runs-if, Runs-after, Runs-bind, Runs-before,
}
use simp.Parser.Types.{parse_qualified_identifier}
use simp.Parser.TypeSteps.{Runs-qualified}
use simp.Parser.PostfixSteps.{Runs-previous}
use simp.Parser.Statements.{
  parse_binding, is_loop_control, parse_if, parse_while, parse_do_while, parse_for_each,
  parse_handler, handler_loop, parse_cleanup, parse_try, parse_inner_block, parse_keyword_statement,
  parse_statement, parse_block,
}
use simp.Parser.Loops.{take_pending, block_loop, parse_block_of, parse_condition, parse_variables}
use simp.Parser.ExpressionSteps.{Runs-parse_expression}
use simp.Parser.SimpleSteps.{
  Runs-inline_c, Runs-loop_control, Runs-declaration, Runs-return, Runs-raise, Runs-super,
  Runs-print, Runs-expression_statement,
}

Runs-take_pending : {n : ℕ} → Runs 0 n take_pending
unfolding take_pending
Runs-take_pending =
    runs λ s he hn. reads (record s { pending_statements = end }) he (omega arith) refl

Runs-block_loop :
    (f : ℕ) {one : Parser Statement} (ss : Statements)
    → Runs 1 f one
    → Runs 0 f (block_loop f one ss)
unfolding block_loop
Runs-block_loop zero ss h = Runs-zero
Runs-block_loop (suc f) ss h = Runs-branch _ (Runs-pure ss) (
    Runs-bind Runs-skip_newlines λ _. Runs-branch _ (Runs-pure ss) (
      Runs-any
        (Runs-after h λ s. Runs-bind Runs-take_pending λ more. Runs-block_loop f _ (Runs-less h))))

pub Runs-block_of :
    (f : ℕ) {one : Parser Statement} → Runs 1 f one → Runs 1 (suc f) (parse_block_of f one)
unfolding parse_block_of
Runs-block_of f h = Runs-before Runs-skip_newlines λ _.
    Runs-after (Runs-consume left_brace refl _) λ _.
      Runs-bind (Runs-block_loop f end h)
        λ ss. Runs-bind (Runs-any (Runs-consume right_brace refl _)) λ _. Runs-pure ss

module _ {expression : Parser Expression} {block : Parser Statements} (f : ℕ)
    (h : Runs 1 f expression) (hb : Runs 1 f block) where
  Runs-condition :
      (opening closing : String) → Runs 0 f (parse_condition expression opening closing)
  unfolding parse_condition
  Runs-condition opening closing = Runs-bind (Runs-any (Runs-consume left_paren refl _)) λ _.
      Runs-bind (Runs-any h)
        λ e. Runs-bind (Runs-any (Runs-consume right_paren refl _)) λ _. Runs-pure e

  Runs-parse_if : Runs 1 f (parse_if expression block)
  unfolding parse_if
  Runs-parse_if = Runs-bind (Runs-consume if_keyword refl _) λ keyword.
      Runs-bind (Runs-condition _ _) λ e. Runs-bind Runs-skip_newlines λ _.
        Runs-bind (Runs-any hb) λ body. Runs-bind Runs-skip_newlines λ _.
          Runs-if_match_same else_keyword refl f
            (Runs-branch _ (Runs-error_here _) (Runs-bind (Runs-any hb) λ alternate. Runs-pure _))
            (Runs-pure _)

  Runs-while : Runs 1 f (parse_while expression block)
  unfolding parse_while
  Runs-while = Runs-bind (Runs-consume while_keyword refl _) λ keyword.
      Runs-bind (Runs-condition _ _)
        λ e. Runs-bind Runs-skip_newlines λ _. Runs-bind (Runs-any hb) λ body. Runs-pure _

  Runs-do_while : Runs 1 f (parse_do_while expression block)
  unfolding parse_do_while
  Runs-do_while = Runs-bind (Runs-consume do_keyword refl _) λ keyword.
      Runs-bind Runs-skip_newlines λ _. Runs-bind (Runs-any hb) λ body.
        Runs-bind Runs-skip_newlines λ _.
          Runs-bind (Runs-any (Runs-consume while_keyword refl _))
            λ _. Runs-bind (Runs-condition _ _) λ e. Runs-pure _

  Runs-variables : Runs 0 f (parse_variables)
  unfolding parse_variables
  Runs-variables = Runs-bind (Runs-any (Runs-consume identifier refl _)) λ first.
      Runs-if_match_same comma refl f
        (Runs-bind (Runs-any (Runs-consume identifier refl _)) λ second. Runs-pure _) (Runs-pure _)

  Runs-for_each : Runs 1 f (parse_for_each expression block)
  unfolding parse_for_each
  Runs-for_each = Runs-bind (Runs-consume for_keyword refl _) λ keyword.
      Runs-bind (Runs-any (Runs-consume left_paren refl _)) λ _.
        Runs-bind Runs-variables λ (key, name).
          Runs-bind (Runs-any (Runs-consume in_keyword refl _)) λ _. Runs-bind (Runs-any h) λ e.
            Runs-bind (Runs-any (Runs-consume right_paren refl _))
              λ _. Runs-bind Runs-skip_newlines λ _. Runs-bind (Runs-any hb) λ body. Runs-pure _

  Runs-binding : Runs 0 f (parse_binding)
  unfolding parse_binding
  Runs-binding =
      Runs-if_match_same as_keyword refl f
        (Runs-bind (Runs-any (Runs-consume identifier refl _)) λ name. Runs-pure _) (Runs-pure _)

  Runs-handler :
      (g : ℕ)
      → Runs 1 f (parse_qualified_identifier g "exception class name")
      → Runs 0 f (parse_handler expression block g)
  unfolding parse_handler
  Runs-handler g hq = Runs-bind Runs-previous λ keyword.
      Runs-bind (Runs-any (Runs-consume left_paren refl _)) λ _.
        Runs-bind (Runs-branch _ (Runs-pure _) (Runs-any hq)) λ type.
          Runs-bind (Runs-any (Runs-consume right_paren refl _)) λ _.
            Runs-bind Runs-binding λ (name, has_binding).
              Runs-bind Runs-skip_newlines
                λ _. Runs-bind (Runs-any hb) λ body. Runs-bind Runs-skip_newlines λ _. Runs-pure _

  Runs-cleanup : Runs 0 f (parse_cleanup expression block)
  unfolding parse_cleanup
  Runs-cleanup =
      Runs-if_match_same finally_keyword refl f
        (Runs-bind Runs-skip_newlines
          λ _. Runs-bind (Runs-any hb) λ cleanup. Runs-bind Runs-skip_newlines λ _. Runs-pure _)
        (Runs-pure _)

  Runs-inner_block : Runs 1 f (parse_inner_block expression block)
  unfolding parse_inner_block
  Runs-inner_block = Runs-before Runs-current λ opening. Runs-bind hb λ body. Runs-pure _

Runs-handler_loop :
    {expression : Parser Expression} {block : Parser Statements} (f : ℕ) (hs : Handlers)
    → Runs 1 f expression
    → Runs 1 f block
    → Runs 0 f (handler_loop expression block f hs)
unfolding handler_loop
Runs-handler_loop zero hs h hb = Runs-zero
Runs-handler_loop (suc f) hs h hb =
    Runs-if_match except_keyword refl
      (Runs-bind
        (Runs-handler f (Runs-less h) (Runs-less hb) (suc f) (Runs-less (Runs-qualified (suc f) _)))
        λ (a, body). Runs-handler_loop f _ (Runs-less h) (Runs-less hb))
      (Runs-pure hs)

Runs-try :
    {expression : Parser Expression} {block : Parser Statements} (f : ℕ)
    → Runs 1 f expression
    → Runs 1 f block
    → Runs 1 f (parse_try expression block f)
unfolding parse_try
Runs-try f h hb = Runs-bind (Runs-consume try_keyword refl _) λ keyword.
    Runs-bind Runs-skip_newlines λ _. Runs-bind (Runs-any hb) λ body.
      Runs-bind Runs-skip_newlines λ _. Runs-bind (Runs-handler_loop f no_handlers h hb) λ hs.
        Runs-bind (Runs-cleanup f h hb)
          λ (has_cleanup, cleanup). Runs-if _ (Runs-error_here _) (Runs-pure _)

Excludes-loop_control : Excludes-end (is_loop_control)
Excludes-loop_control s h = rw h refl

pub Runs-statement :
    {expression : Parser Expression} {block : Parser Statements} (f : ℕ)
    → Runs 1 f expression
    → Runs 1 f block
    → Runs 1 f (parse_statement expression block f)
unfolding parse_statement parse_keyword_statement
Runs-statement zero h hb = Runs-zero
Runs-statement (suc f) h hb = Runs-branch _ (Runs-error_here _) (
    Runs-branch _ (Runs-error_here _) (
      Runs-branch _ (Runs-inline_c (suc f) []) (
        Runs-branch _ (Runs-declaration (suc f) h) (
          Runs-branch _ (Runs-expression_statement (suc f) h) (
            Runs-branch _ (Runs-print (suc f) h) (
              Runs-branch _ (Runs-parse_if (suc f) h hb) (
                Runs-branch _ (Runs-while (suc f) h hb) (
                  Runs-branch _ (Runs-do_while (suc f) h hb) (
                    Runs-branch _ (Runs-for_each (suc f) h hb) (
                      Runs-token Excludes-loop_control (Runs-loop_control f) (
                        Runs-branch _ (Runs-raise (suc f) h) (
                          Runs-branch _ (Runs-try (suc f) h hb) (
                            Runs-branch _ (Runs-inner_block (suc f) h hb) (
                              Runs-branch _ (Runs-return (suc f) h) (
                                Runs-branch _ (Runs-super (suc f) h)
                                  (Runs-error_found _))))))))))))))))

pub Runs-parse_block : (f : ℕ) → Runs 1 f (parse_block f)
unfolding parse_block
Runs-parse_block zero = Runs-zero
Runs-parse_block (suc f) =
    Runs-guarded (Runs-block_of f (Runs-statement f (Runs-parse_expression f) (Runs-parse_block f)))

-- From a state with fewer tokens behind the current one than the fuel and an `End` at the end,
-- `parseBlock` throws, or reads at least one token, leaves the `End` at the end and restores the
-- depth of nesting.
pub block-Reads :
    (f : ℕ) (s : ParserState)
    → IsEnded s.current s.rest
    → length s.rest < f
    → Reads 1 s (parse_block f s)
block-Reads f s he hn = Runs-from s (Runs-parse_block f) he hn
