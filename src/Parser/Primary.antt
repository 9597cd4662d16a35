-- ===== src/Parser/Primary.antt =====
-- `parsePrimary` and `parseTypeName` of src/Parser.cpp. The parser of an expression, which they
-- call, is a parameter.
use simp.Base.{
  ℕ, zero, suc, Bool, true, false, not, ◌&&◌, ◌||◌, List, [], ◌∷◌, String, Bytes, codes,
}
use simp.Lexer.Token.{
  TokenType, Token, comma, colon, left_paren, right_paren, left_bracket, right_bracket, left_brace,
  right_brace, type_type, strg_type, list_type, dict_type, buffer_type, handle_type, any_type,
  float_type, unsigned_integer, true_keyword, false_keyword, null_keyword,
}
use simp.Ast.Expressions.{
  ExpressionKind, Expression, node, absent, present, Expressions, nil, cons, plain, push,
}
use simp.Parser.State.{
  ParserState, Parser, pure, ◌>>=◌, ◌>>◌, branch, check, check_next, current, advance, if_match,
  consume, error_found, out_of_fuel,
}
use simp.Parser.Nodes.{leaf, list_node, type_name_node}

abbrev pub Tested : Type 0
Tested = ParserState → Bool

abbrev is_last : List Token → Bool
is_last [] = true
is_last (t ∷ ts) = false

-- `current_ + 1 < tokens_.size() && tokens_[current_ + 1].type != t`
abbrev next_differs : TokenType → Tested
next_differs t s = not (is_last s.rest) && not (check_next t s)

-- A type's name, unless a cast to it follows.
unfoldable pub if_type_name : TokenType → String → Token → Parser Expression → Parser Expression
if_type_name t word token p =
    branch (λ s. check t s && next_differs left_paren s)
      (advance >>= λ _. pure (type_name_node token word)) p

abbrev cast_word : TokenType → Bytes
cast_word TokenType.bool = codes "bool"
cast_word TokenType.int = codes "int"
cast_word TokenType.unsigned = codes "unsigned"
cast_word _ = codes "float"

abbrev pub is_cast : Tested
is_cast s =
    check TokenType.bool s
    || check TokenType.int s
    || check TokenType.unsigned s
    || check float_type s

module _ (expression : Parser Expression) where
  -- `do es.push_back(parseExpression()); while (match(Comma));`
  unfoldable pub expression_list : ℕ → Expressions → Parser Expressions
  expression_list zero es = out_of_fuel
  expression_list (suc f) es = do
    e ← expression
    if_match comma (expression_list f (push es e)) (pure (push es e))

  -- The list up to its closing token, which may follow at once.
  unfoldable pub closed_list : ℕ → TokenType → String → Parser Expressions
  closed_list f close expectation = do
    es ← branch (check close) (pure nil) (expression_list f nil)
    consume close expectation
    pure es

  unfoldable pub pair_list : ℕ → Expressions → Parser Expressions
  pair_list zero es = out_of_fuel
  pair_list (suc f) es = do
    key ← expression
    consume colon "':' between dict key and value"
    value ← expression
    if_match comma (pair_list f (push (push es key) value)) (pure (push (push es key) value))

  unfoldable pub parse_type_of : Token → Parser Expression
  parse_type_of token = do
    consume left_paren "'(' after 'type'"
    e ← expression
    consume right_paren "')' after type operand"
    pure (node (plain ExpressionKind.type_of token.location []) (present e) absent nil)

  unfoldable pub parse_cast : Token → Parser Expression
  parse_cast token = do
    consume left_paren "'(' after explicit cast type name"
    e ← expression
    consume right_paren "')' after cast operand"
    pure (list_node ExpressionKind.cast token.location (cast_word token.type_of) (cons e nil))

  unfoldable pub parse_parenthesized : Parser Expression
  parse_parenthesized = do e ← expression; consume right_paren "')' after expression"; pure e

  unfoldable pub parse_map : ℕ → Token → Parser Expression
  parse_map f token = do
    es ← branch (check right_brace) (pure nil) (pair_list f nil)
    consume right_brace "'}' after dict entries"
    pure (list_node ExpressionKind.map_literal token.location [] es)

  -- A bracketed list of elements as a node.
  unfoldable pub parse_elements :
      ℕ → ExpressionKind → Token → TokenType → String → Parser Expression
  parse_elements f kind token close expectation = do
    es ← closed_list f close expectation
    pure (list_node kind token.location [] es)

  -- The types, their constructors and the casts.
  unfoldable pub parse_typed : ℕ → Token → Parser Expression → Parser Expression
  parse_typed f token others = if_match type_type (parse_type_of token) (
      if_type_name TokenType.int "int" token (
        if_type_name TokenType.bool "bool" token (
          if_type_name float_type "float" token (
            if_type_name TokenType.unsigned "unsigned" token (
              if_match strg_type (pure (type_name_node token "String")) (
                if_match list_type (pure (type_name_node token "list")) (
                  if_match dict_type (pure (type_name_node token "dict")) (
                    branch (λ s. check buffer_type s && check_next left_bracket s)
                      (advance >>= λ _. do
                        consume left_bracket "'[' after buffer"
                        parse_elements f ExpressionKind.buffer_literal token right_bracket
                            "']' after buffer elements")
                      (if_type_name buffer_type "buffer" token (
                        if_match handle_type (pure (type_name_node token "handle")) (
                          if_match any_type (pure (type_name_node token "any")) (
                            if_match buffer_type
                              (do
                                consume left_paren "'(' after buffer"
                                parse_elements f ExpressionKind.buffer_constructor token right_paren
                                    "')' after buffer length")
                              (branch is_cast (advance >>= λ _. parse_cast token)
                                others)))))))))))))

  -- The literals, the names and the brackets.
  unfoldable pub parse_simple : ℕ → Token → Parser Expression
  parse_simple f token =
      let literal = λ (k : ExpressionKind). pure (leaf k token.location token.text) in
      if_match unsigned_integer (literal ExpressionKind.unsigned) (
        if_match TokenType.float (literal ExpressionKind.float) (
          if_match TokenType.integer (literal ExpressionKind.integer) (
            if_match true_keyword (pure (leaf ExpressionKind.boolean token.location (codes "true")))
              (if_match false_keyword
                (pure (leaf ExpressionKind.boolean token.location (codes "false")))
                (if_match TokenType.string (literal ExpressionKind.string) (
                  if_match TokenType.identifier (literal ExpressionKind.identifier) (
                    if_match null_keyword (pure (leaf ExpressionKind.null token.location [])) (
                      if_match left_paren parse_parenthesized (
                        if_match left_bracket
                          (parse_elements f ExpressionKind.array_literal token right_bracket
                            "']' after list elements")
                          (if_match left_brace (parse_map f token)
                            (error_found (codes "expected expression"))))))))))))

  unfoldable pub parse_primary : ℕ → Parser Expression
  parse_primary f = current >>= λ token. parse_typed f token (parse_simple f token)
