-- ===== src/Parser/State.antt =====
-- The members of `Parser` in include/cwhip/Parser.hpp and its helpers in src/Parser.cpp.
-- A `ParserState` holds `tokens_` from `current_` on, and the token before.
use simp.Base.{
  ℕ, ◌+◌, ◌-◌, Bool, true, false, ◌||◌, List, [], ◌∷◌, ◌++◌, String, Bytes, codes, leb,
  if◌then◌else◌, SourceLocation,
}
use simp.Lexer.Token.{TokenType, Token, token_type_name, end_of_file, newline, right_brace}
use simp.Lexer.Kinds.{same_type}
use simp.Ast.Statements.{Statements}
use simp.Parser.Verdict.{Verdict, accepted, refused}

pub record ParserState : Type 0 where
  pub previous : Token
  pub current : Token
  pub rest : List Token
  pub nesting_depth : ℕ
  pub namespace_path : List Bytes
  pub pending_statements : Statements

-- `failed` is a thrown `DiagnosticError`. `stuck` has no counterpart in the program: it is a step
-- over the last token, or fuel that does not suffice.
pub data Reply (A : Type 0) : Type 0 where
  parsed : A → ParserState → Reply A
  failed : SourceLocation → Bytes → Reply A
  stuck : Reply A

abbrev pub Parser : Type 0 → Type 0
Parser A = ParserState → Reply A

unfoldable pub pure : {A : Type 0} → A → Parser A
pure a s = parsed a s

abbrev pub then_run : {A B : Type 0} → Reply A → (A → Parser B) → Reply B
then_run (parsed a s) f = f a s
then_run (failed l m) f = failed l m
then_run stuck f = stuck

infixl 1 ◌>>=◌ ◌>>◌
unfoldable pub ◌>>=◌ : {A B : Type 0} → Parser A → (A → Parser B) → Parser B
(p >>= f) s = then_run (p s) f

abbrev pub ◌>>◌ : {A B : Type 0} → Parser A → Parser B → Parser B
p >> q = p >>= λ _. q

-- What a condition of the source reads: `current()` and the tokens behind it.
unfoldable pub branch : {A : Type 0} → (ParserState → Bool) → Parser A → Parser A → Parser A
branch test p q s = if test s then p s else q s

abbrev pub check : TokenType → ParserState → Bool
check t s = same_type s.current.type_of t

-- `current_ + 1 < tokens_.size() && tokens_[current_ + 1].type == t`
abbrev next_is : TokenType → List Token → Bool
next_is t [] = false
next_is t (u ∷ us) = same_type u.type_of t

abbrev pub check_next : TokenType → ParserState → Bool
check_next t s = next_is t s.rest

unfoldable pub current : Parser Token
current s = parsed s.current s

abbrev pub advance_over : List Token → Parser Token
advance_over [] s = stuck
advance_over (t ∷ ts) s =
    parsed s.current (record s { previous = s.current; current = t; rest = ts })

-- `tokens_[current_++]`
unfoldable pub advance : Parser Token
advance s = advance_over s.rest s

unfoldable pub error : {A : Type 0} → SourceLocation → Bytes → Parser A
error l m s = failed l m

unfoldable pub out_of_fuel : {A : Type 0} → Parser A
out_of_fuel s = stuck

-- `error(current(), message)`
unfoldable pub error_here : {A : Type 0} → Bytes → Parser A
error_here m = current >>= λ t. error t.location m

-- A message that ends with the kind of the current token.
unfoldable pub error_found : {A : Type 0} → Bytes → Parser A
error_found m =
    current >>= λ t. error t.location (m ++ codes ", found " ++ codes (token_type_name t.type_of))

-- `if (match(t)) p; else q;`
unfoldable pub if_match : {A : Type 0} → TokenType → Parser A → Parser A → Parser A
if_match t p q = branch (check t) (advance >> p) q

abbrev pub match : TokenType → Parser Bool
match t = if_match t (pure true) (pure false)

unfoldable pub consume : TokenType → String → Parser Token
consume t expectation =
    branch (check t) advance (error_found (codes "expected " ++ codes expectation))

abbrev pub skip_loop : List Token → ParserState → Reply (Unit {0})
skip_loop [] s = if check newline s then stuck else parsed tt s
skip_loop (t ∷ ts) s =
    let more = skip_loop ts (record s { previous = s.current; current = t; rest = ts }) in
    if check newline s then more else parsed tt s

unfoldable pub skip_newlines : Parser (Unit {0})
skip_newlines s = skip_loop s.rest s

abbrev pub consume_statement_terminator : Parser (Unit {0})
consume_statement_terminator = if_match newline skip_newlines (
    branch (λ s. check right_brace s || check end_of_file s) (pure tt)
      (error_here (codes "expected newline after statement")))

abbrev pub maximum_nesting : ℕ
maximum_nesting = 128

abbrev pub leave_nesting : {A : Type 0} → A → Parser A
leave_nesting a s = parsed a (record s { nesting_depth = s.nesting_depth - 1 })

-- The scope of a `NestingGuard`. An error leaves the parser, and with it the depth, behind.
unfoldable pub guarded : {A : Type 0} → Parser A → Parser A
guarded p s =
    if leb maximum_nesting s.nesting_depth
    then failed s.current.location (codes "parser nesting exceeds 128")
    else then_run (p (record s { nesting_depth = s.nesting_depth + 1 })) leave_nesting

-- A check that reads no token.
unfoldable pub lift : {A : Type 0} → Verdict A → Parser A
lift (accepted a) s = parsed a s
lift (refused l m) s = failed l m
