-- ===== src/Parser/Types.antt =====
-- `parseQualifiedIdentifier`, `parseTypeTestName` of src/Parser.cpp, `parseType` and
-- `parseParameters` of src/ParserClass.cpp.
use simp.Base.{
  ℕ, zero, suc, Bool, true, false, List, [], ◌∷◌, ◌++◌, String, Bytes, codes, ◌==◌, if◌then◌else◌,
  SourceLocation,
}
use simp.Lexer.Token.{
  TokenType, dot, comma, less, greater, left_paren, right_paren, callback_type, null_keyword,
  void_keyword, identifier,
}
use simp.Ast.Declarations.{Parameter}
use simp.Parser.State.{
  Parser, pure, ◌>>=◌, ◌>>◌, branch, check, current, advance, if_match, consume, error_here,
  error_found, guarded, out_of_fuel,
}

-- `while (match(Dot)) name += "." + consume(Identifier, expectation).text`
unfoldable pub dotted : ℕ → String → Bytes → Parser Bytes
dotted zero expectation name = out_of_fuel
dotted (suc f) expectation name =
    if_match dot
      (do t ← consume identifier expectation; dotted f expectation (name ++ b'.' ∷ t.text))
      (pure name)

unfoldable pub parse_qualified_identifier : ℕ → String → Parser Bytes
parse_qualified_identifier f expectation = do
  t ← consume identifier expectation
  dotted f expectation t.text

abbrev pub TypeWords : Type 0
TypeWords = List (TokenType × String)

-- A chain of `if (match(t)) return "..."`.
unfoldable pub if_word : TypeWords → Parser Bytes → Parser Bytes
if_word [] p = p
if_word ((t, word) ∷ words) p = if_match t (pure (codes word)) (if_word words p)

abbrev pub tested_words : TypeWords
tested_words =
    (TokenType.int, "int")
    ∷ (TokenType.unsigned, "unsigned")
    ∷ (TokenType.float_type, "float")
    ∷ (TokenType.bool, "bool")
    ∷ (TokenType.strg_type, "String")
    ∷ (TokenType.list_type, "list")
    ∷ (TokenType.dict_type, "dict")
    ∷ (TokenType.buffer_type, "buffer")
    ∷ (TokenType.handle_type, "handle")
    ∷ (TokenType.any_type, "any")
    ∷ (TokenType.type_type, "type")
    ∷ []

-- `allow_null` is `operatorName == "'as'"`.
unfoldable pub parse_type_test_name : ℕ → String → Bool → Parser Bytes
parse_type_test_name f operator_name allow_null =
    let no_name = error_found (codes "expected type name after " ++ codes operator_name) in
    branch (check callback_type)
      (error_here
        (codes "callback type tests and casts are not supported; use a typed declaration"))
      (branch (check identifier) (parse_qualified_identifier f "type name after 'is'") (
        if_word tested_words (
          if_match null_keyword (if allow_null then pure (codes "null") else no_name)
            (if_match void_keyword (pure (codes "void")) no_name))))

abbrev pub type_words : TypeWords
type_words =
    (TokenType.int, "int")
    ∷ (TokenType.bool, "bool")
    ∷ (TokenType.float_type, "float")
    ∷ (TokenType.unsigned, "unsigned")
    ∷ (TokenType.strg_type, "String")
    ∷ (TokenType.list_type, "list")
    ∷ (TokenType.dict_type, "dict")
    ∷ (TokenType.buffer_type, "buffer")
    ∷ (TokenType.handle_type, "handle")
    ∷ (TokenType.any_type, "any")
    ∷ (TokenType.type_type, "type")
    ∷ []

-- `if (type.back() != '(') type += ","`
abbrev pub comma_after : Bytes → Bytes
comma_after [] = []
comma_after (c ∷ []) = if c == b'(' then c ∷ [] else c ∷ b',' ∷ []
comma_after (c ∷ d ∷ text) = c ∷ comma_after (d ∷ text)

-- The `do` loop over the parameter types of a callback; `one` is `parseType()`.
unfoldable pub type_list : ℕ → Parser Bytes → Bytes → Parser Bytes
type_list zero one text = out_of_fuel
type_list (suc f) one text = do
  t ← one
  if_match comma (type_list f one (comma_after text ++ t)) (pure (comma_after text ++ t))

-- What follows the keyword `callback`; `result` is `parseType(true)`.
unfoldable pub callback_tail : ℕ → Parser Bytes → Parser Bytes → Parser Bytes
callback_tail f result one = do
  consume less "'<' after callback"
  r ← result
  consume left_paren "'(' before callback parameter types"
  let text = codes "callback<" ++ r ++ codes "("
  parameters ← branch (check right_paren) (pure text) (type_list f one text)
  consume right_paren "')' after callback parameter types"
  consume greater "'>' after callback signature"
  pure (parameters ++ codes ")>")

-- A class name with its namespaces.
unfoldable pub type_path : ℕ → Parser Bytes
type_path f =
    branch (check identifier) (advance >>= λ t. dotted f "type name component" t.text)
      (error_here (codes "expected type name"))

unfoldable pub parse_type : ℕ → Bool → Parser Bytes
parse_type zero allow_void = out_of_fuel
parse_type (suc f) allow_void = guarded (
    if_match callback_type (callback_tail f (parse_type f true) (parse_type f false)) (
      if_word type_words (
        if allow_void
        then if_match void_keyword (pure (codes "void")) (type_path (suc f))
        else type_path (suc f))))

unfoldable pub add_parameter : List Parameter → Bytes → Bytes → SourceLocation → List Parameter
add_parameter ps type name l = ps ++ record { type_text = type; name = name; location = l } ∷ []

unfoldable pub parameter_list : ℕ → List Parameter → Parser (List Parameter)
parameter_list zero parameters = out_of_fuel
parameter_list (suc f) parameters = do
  t ← current
  type ← parse_type (suc f) false
  name ← consume identifier "parameter name"
  let grown = add_parameter parameters type name.text t.location
  if_match comma (parameter_list f grown) (pure grown)

unfoldable pub parse_parameters : ℕ → Parser (List Parameter)
parse_parameters f = do
  consume left_paren "'(' before parameters"
  parameters ← branch (check right_paren) (pure []) (parameter_list f [])
  consume right_paren "')' after parameters"
  pure parameters
