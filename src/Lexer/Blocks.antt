-- ===== src/Lexer/Blocks.antt =====
-- `skipTrivia` and `scanInlineBody` of src/Lexer.cpp.
use simp.Base.{
  ℕ, zero, suc, ◌+◌, ◌-◌, Bool, true, false, not, ◌&&◌, ◌||◌, Option, none, some, List, [], ◌∷◌,
  ◌++◌, ◌==◌, if◌then◌else◌, Bytes, SourceLocation, Outcome, ok, err, exhausted, ◌>>=◌,
}
use simp.Lexer.Token.{Token, newline}
use simp.Lexer.Chars.{is_space}
use simp.Lexer.Cursor.{
  at_end, Cursor, step, peek, advance, Scan, scan_from, push, push_while, skip_while,
}

abbrev pub newline_at : SourceLocation → Token
newline_at l = record {
  type_of = newline;
  text = b'\n' ∷ [];
  location = l;
  formatted_string = false;
}

abbrev pub in_line : ℕ → Bool
in_line c = not (c == b'\n')

-- What a newline adds to the tokens; none inside parentheses.
abbrev pub add_newline : ℕ → List Token → SourceLocation → List Token
add_newline depth tokens l = if depth == 0 then tokens ++ newline_at l ∷ [] else tokens

-- The loop over a block comment behind its opening; `none` if it is not closed.
unfoldable pub comment_loop : ℕ → List Token → Bytes → SourceLocation → Option (List Token × Cursor)
comment_loop depth tokens [] l = none
comment_loop depth tokens (c ∷ []) l = none
comment_loop depth tokens (c ∷ d ∷ rest) l =
    let next =
      comment_loop depth (if c == b'\n' then add_newline depth tokens l else tokens) (d ∷ rest)
        (step l c) in
    if c == b'*' && d == b'/'
    then some (tokens, record { rest = rest; at = step (step l c) d })
    else next

-- One round of `skipTrivia`, with whether it goes on (`continue`).
unfoldable pub trivia_round : ℕ → List Token → Cursor → Outcome (Bool × List Token × Cursor)
unfolding comment_loop
trivia_round depth tokens c =
    let here = skip_while (λ x. in_line x && is_space x) c in
    let line : Bool × List Token × Cursor = (true, tokens, skip_while in_line here) in
    let body = advance (advance here) in
    let slash = peek 0 here == b'/' in
    if peek 0 here == b';' || peek 0 here == b'#'
    then ok line
    else if slash && peek 1 here == b'/'
    then ok line
    else if slash && peek 1 here == b'*'
    then elim (comment_loop depth tokens body.rest body.at) [
      | none ↦ err here.at "unterminated block comment"
      | some (tokens', behind) ↦ ok (true, tokens', behind)
    ]
    else ok (false, tokens, here)

unfoldable pub skip_trivia : ℕ → ℕ → List Token → Cursor → Outcome (List Token × Cursor)
unfolding trivia_round
skip_trivia zero depth tokens c = exhausted
skip_trivia (suc fuel) depth tokens c = trivia_round depth tokens c >>= λ (again, tokens', c').
    elim again [ true ↦ skip_trivia fuel depth tokens' c' | false ↦ ok (tokens', c') ]

-- A string or character literal in C, behind its opening quote; `none` if it is not closed.
unfoldable pub quoted_loop : ℕ → Bytes → Bytes → SourceLocation → Option Scan
quoted_loop quote text [] l = none
quoted_loop quote text (c ∷ []) l =
    if c == quote
    then some (record { text = text ++ c ∷ []; cursor = record { rest = []; at = step l c } })
    else none
quoted_loop quote text (c ∷ d ∷ rest) l =
    let next = quoted_loop quote (text ++ c ∷ []) (d ∷ rest) (step l c) in
    let escaped = quoted_loop quote (text ++ c ∷ d ∷ []) rest (step (step l c) d) in
    if c == b'\\'
    then escaped
    else if c == quote
    then some (record { text = text ++ c ∷ []; cursor = record { rest = d ∷ rest; at = step l c } })
    else next

-- A C comment behind its opening; `none` if it is not closed.
unfoldable pub c_comment_loop : Bytes → Bytes → SourceLocation → Option Scan
c_comment_loop text [] l = none
c_comment_loop text (c ∷ []) l = none
c_comment_loop text (c ∷ d ∷ rest) l =
    let next = c_comment_loop (text ++ c ∷ []) (d ∷ rest) (step l c) in
    if c == b'*' && d == b'/'
    then some (record {
      text = text ++ c ∷ d ∷ [];
      cursor = record { rest = rest; at = step (step l c) d };
    })
    else next

-- One round of the loop of `scanInlineBody`, not at the end. Depth 0 is the closing brace.
unfoldable pub inline_round : SourceLocation → ℕ → Scan → Outcome (ℕ × Scan)
unfolding quoted_loop c_comment_loop
inline_round l depth s =
    let value = peek 0 s.cursor in
    let next = peek 1 s.cursor in
    let one = push s in
    let two = push one in
    if value == b'"' || value == b'\''
    then elim (quoted_loop value one.text one.cursor.rest one.cursor.at) [
      | none ↦ err l "unterminated string in inline C block"
      | some t ↦ ok (depth, t)
    ]
    else if value == b'/' && next == b'/'
    then ok (depth, push_while in_line two)
    else if value == b'/' && next == b'*'
    then elim (c_comment_loop two.text two.cursor.rest two.cursor.at) [
      | none ↦ err l "unterminated comment in inline C block"
      | some t ↦ ok (depth, t)
    ]
    else if value == b'{'
    then ok (depth + 1, one)
    else if value == b'}'
    then ok
        (depth - 1, if depth == 1 then record { text = s.text; cursor = advance s.cursor } else one)
    else ok (depth, one)

unfoldable pub inline_loop : ℕ → SourceLocation → ℕ → Scan → Outcome Scan
unfolding inline_round
inline_loop zero l depth s = exhausted
inline_loop (suc fuel) l depth s = elim (at_end s.cursor) [
  | true ↦ err l "unterminated inline C block"
  | false ↦ inline_round l depth s >>= λ (depth', t). elim (depth' == 0) [
    | true ↦ ok t
    | false ↦ inline_loop fuel l depth' t
  ]
]

-- `fuel` exceeds the number of bytes left.
unfoldable pub scan_inline_body : ℕ → Cursor → Outcome Scan
unfolding inline_loop
scan_inline_body fuel c = inline_loop fuel c.at 1 (scan_from (advance c))
