-- ===== src/Parser/Postfix.antt =====
-- `parsePostfix` and `parseFormatArguments` of src/Parser.cpp.
use simp.Base.{
  ℕ, zero, suc, ◌+◌, ◌-◌, ◌*◌, ◌≤◌, ◌<◌, ◌≡◌, refl, sym, ap, subst, Bool, true, false, not, ◌&&◌,
  ◌||◌, List, [], ◌∷◌, ◌++◌, String, Bytes, codes, ◌==◌, ltb, leb, if◌then◌else◌, SourceLocation,
  All, length, arith, Bool-cases, inl, inr, ◌⊎◌,
}
use simp.Base as Base
use simp.Lexer.Token.{
  Token, comma, dot, colon, left_paren, right_paren, left_bracket, right_bracket, as_keyword, equal,
  identifier,
}
use simp.Ast.Expressions.{
  ExpressionKind, Attributes, Expression, node, Child, absent, present, Expressions, nil, cons,
  plain, push,
}
use simp.Parser.State.{
  parsed, Parser, pure, ◌>>=◌, ◌>>◌, branch, check, check_next, current, advance, if_match, match,
  consume, error, error_here, out_of_fuel, lift,
}
use simp.Parser.Nodes.{
  typed_node, list_node, omitted, slice_node, kind_of, value_of, place_of, is_string_kind,
  is_identifier_kind, is_format,
}
use simp.Parser.Depth.{validate_expression_depth}
use simp.Parser.Types.{parse_type_test_name}
use simp.Parser.FormatArguments.{validate_format_string}
use simp.Parser.Primary.{Tested, closed_list}

-- `validateExpressionDepth(*expression)`
abbrev pub validate : Expression → Parser (Unit {0})
validate e = lift (validate_expression_depth e 1)

unfoldable pub previous : Parser Token
previous s = parsed s.previous s

abbrev pub test : Tested → Parser Bool
test t = branch t (pure true) (pure false)

abbrev has_name : Bytes → List Bytes → Bool
has_name name [] = false
has_name name (x ∷ xs) = Base.equal x name || has_name name xs

abbrev pub count : Expressions → ℕ
count nil = 0
count (cons e es) = suc (count es)

abbrev add_name : Attributes → Bytes → SourceLocation → Attributes
add_name a name l = record a {
  argument_names = a.argument_names ++ name ∷ [];
  argument_name_locations = a.argument_name_locations ++ l ∷ [];
}

-- The name in front of an argument, or the empty one.
unfoldable pub parse_argument_name : List Bytes → Parser Bytes
parse_argument_name names =
    branch (λ s. check identifier s && check_next equal s)
      (do
        token ← consume identifier "named format argument"
        if has_name token.text names
            then error token.location
                (codes "duplicate named format argument '" ++ token.text ++ b'\'' ∷ [])
            else pure tt
        consume equal "'=' after named format argument"
        pure token.text)
      (pure [])

module _ (expression : Parser Expression) where
  unfoldable pub parse_format_arguments :
      ℕ → Attributes → Expressions → Parser (Attributes × Expressions)
  parse_format_arguments zero a es = out_of_fuel
  parse_format_arguments (suc f) a es = do
    place ← current
    name ← parse_argument_name a.argument_names
    e ← expression
    if_match comma (parse_format_arguments f (add_name a name place.location) (push es e))
        (pure (add_name a name place.location, push es e))

  -- The rest of a slice from the second bound on.
  unfoldable pub parse_slice : Expression → SourceLocation → Bool → Expression → Parser Expression
  parse_slice e l has_start start = do
    bare ← test λ s. check colon s || check right_bracket s
    stop ← if bare then pure (omitted l "0") else expression
    has_step ← match colon
    step ← branch (λ s. has_step && not (check right_bracket s)) expression (pure (omitted l "1"))
    pure (slice_node l e has_start (not bare) has_step start stop step)

  -- What stands between the brackets of an index or a slice.
  unfoldable pub parse_access : Expression → Parser Expression
  parse_access e = do
    opened ← previous
    let l = opened.location
    access ← if_match colon (parse_slice e l false (omitted l "0")) (do
      start ← expression
      if_match colon (parse_slice e l true start)
          (pure (node (plain ExpressionKind.index l []) (present e) absent (cons start nil))))
    consume right_bracket "']' after index or slice"
    pure access

  unfoldable pub parse_object_cast : ℕ → Expression → Parser Expression
  parse_object_cast f e = do
    keyword ← previous
    place ← current
    name ← parse_type_test_name f "'as'" true
    pure (typed_node ExpressionKind.object_cast keyword.location place.location name (present e))

  unfoldable pub parse_member : Expression → Parser Expression
  parse_member e = do
    member ← consume identifier "member name after '.'"
    pure (node (plain ExpressionKind.member member.location member.text) (present e) absent nil)

  -- A format string from its template and its arguments.
  unfoldable pub finish_format : Attributes → Child → Child → Expressions → Parser Expression
  finish_format a l r es = do
    consume right_paren "')' after format arguments"
    checked ← lift (validate_format_string a (count es))
    pure (node checked l r es)

  unfoldable pub format_of : ℕ → SourceLocation → Expression → Parser Expression
  format_of f l (node a left right es) =
      if is_string_kind a.kind
      then (do
        let changed = record a { kind = ExpressionKind.format_string; location = l }
        (named, arguments) ←
            if_match comma (parse_format_arguments f changed es) (pure (changed, es))
        finish_format named left right arguments)
      else error l (codes "format requires a string literal template")

  -- The call of `format`.
  unfoldable pub parse_format : ℕ → SourceLocation → Parser Expression
  parse_format f l = do e ← expression; format_of f l e

  unfoldable pub call_node : Expression → Expressions → Expression
  call_node e es =
      if is_identifier_kind (kind_of e)
      then list_node ExpressionKind.constructor_call (place_of e) (value_of e) es
      else node (plain ExpressionKind.call (place_of e) []) (present e) absent es

  unfoldable pub parse_call : ℕ → Expression → Parser Expression
  parse_call f e = do
    es ← closed_list expression f right_paren "')' after call arguments"
    pure (call_node e es)

  unfoldable pub parse_postfix : ℕ → Expression → Parser Expression
  parse_postfix zero e = out_of_fuel
  parse_postfix (suc f) e = do
    validate e
    if_match as_keyword (parse_object_cast f e >>= parse_postfix f) (
        if_match left_bracket (parse_access e >>= parse_postfix f) (
          if_match dot (parse_member e >>= parse_postfix f) (
            branch (λ s. check left_paren s && is_string_kind (kind_of e))
              (error_here
                (codes "string-literal calls were removed; use format(template, values...)"))
              (branch (λ s. check left_paren s && is_format e)
                (advance >>= λ _. parse_format f (place_of e) >>= parse_postfix f)
                (if_match left_paren (parse_call f e >>= parse_postfix f) (pure e))))))
