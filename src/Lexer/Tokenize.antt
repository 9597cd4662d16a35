-- ===== src/Lexer/Tokenize.antt =====
-- `tokenize` of src/Lexer.cpp.
use simp.Base.{
  ℕ, zero, suc, ◌+◌, ◌-◌, Bool, true, false, ◌&&◌, ◌||◌, Option, none, some, List, [], ◌∷◌, ◌++◌,
  ◌==◌, if◌then◌else◌, Bytes, length, Outcome, ok, err, exhausted, ◌>>=◌,
}
use simp.Lexer.Token.{
  TokenType, Token, end_of_file, string, inline_keyword, inline_body, left_brace, right_brace,
  left_paren, right_paren, left_bracket, right_bracket, comma, dot, colon, plus, minus, star, slash,
  percent, plus_equal, minus_equal, star_equal, slash_equal, percent_equal, and_and, or_or, bang,
  bang_equal, equal, equal_equal, less, less_equal, greater, greater_equal,
}
use simp.Lexer.Chars.{is_digit, is_identifier_start}
use simp.Lexer.Cursor.{Cursor, peek, advance, Scan, at_end}
use simp.Lexer.Scanners.{scan_number, scan_word, scan_string}
use simp.Lexer.Blocks.{add_newline, skip_trivia, scan_inline_body}

-- The type of an operator that begins with `c`, and whether the next byte belongs to it.
unfoldable pub operator : ℕ → ℕ → Option (TokenType × Bool)
operator c next =
    let with_equal : TokenType → TokenType → Option (TokenType × Bool) =
      λ one two. (if next == b'=' then some (two, true) else some (one, false)) in
    if c == b'{'
    then some (left_brace, false)
    else if c == b'}'
    then some (right_brace, false)
    else if c == b'('
    then some (left_paren, false)
    else if c == b')'
    then some (right_paren, false)
    else if c == b'['
    then some (left_bracket, false)
    else if c == b']'
    then some (right_bracket, false)
    else if c == b','
    then some (comma, false)
    else if c == b'.'
    then some (dot, false)
    else if c == b':'
    then some (colon, false)
    else if c == b'+'
    then with_equal plus plus_equal
    else if c == b'-'
    then with_equal minus minus_equal
    else if c == b'*'
    then with_equal star star_equal
    else if c == b'/'
    then with_equal slash slash_equal
    else if c == b'%'
    then with_equal percent percent_equal
    else if c == b'&'
    then if next == b'&' then some (and_and, true) else none
    else if c == b'|'
    then if next == b'|' then some (or_or, true) else none
    else if c == b'!'
    then with_equal bang bang_equal
    else if c == b'='
    then with_equal equal equal_equal
    else if c == b'<'
    then with_equal less less_equal
    else if c == b'>'
    then with_equal greater greater_equal
    else none

-- `parenthesisDepth` behind an operator.
abbrev pub depth_after : TokenType → ℕ → ℕ
depth_after left_paren depth = depth + 1
depth_after left_bracket depth = depth + 1
depth_after right_paren depth = depth - 1
depth_after right_bracket depth = depth - 1
depth_after _ depth = depth

-- What is put behind the first byte of an operator's text.
abbrev pub operator_tail : TokenType → ℕ → Bytes
operator_tail plus_equal value = b'=' ∷ []
operator_tail minus_equal value = b'=' ∷ []
operator_tail star_equal value = b'=' ∷ []
operator_tail slash_equal value = b'=' ∷ []
operator_tail percent_equal value = b'=' ∷ []
operator_tail bang_equal value = b'=' ∷ []
operator_tail equal_equal value = b'=' ∷ []
operator_tail less_equal value = b'=' ∷ []
operator_tail greater_equal value = b'=' ∷ []
operator_tail and_and value = value ∷ []
operator_tail or_or value = value ∷ []
operator_tail _ value = []

-- The lexer's state and the locals of `tokenize`.
pub record Lexing : Type 0 where
  pub cursor : Cursor
  pub inline_header : Bool
  pub depth : ℕ
  pub tokens : List Token

abbrev pub sets_inline : TokenType → Bool
sets_inline inline_keyword = true
sets_inline _ = false

abbrev pub emit : Lexing → TokenType → Bool → Scan → Lexing
emit s t formatted scan = record s {
  cursor = scan.cursor;
  inline_header = sets_inline t || s.inline_header;
  tokens =
      s.tokens
      ++ (record {
        type_of = t;
        text = scan.text;
        location = s.cursor.at;
        formatted_string = formatted;
      }
          ∷ []);
}

unfoldable pub lex_operator : Lexing → Outcome Lexing
lex_operator s =
    let value = peek 0 s.cursor in
    let first = advance s.cursor in
    elim (operator value (peek 0 first)) [
      | none ↦ err s.cursor.at "unexpected character"
      | some (t, two) ↦
          ok
            (record (emit s t false (record {
              text = value ∷ operator_tail t value;
              cursor = if two then advance first else first;
            })) { depth = depth_after t s.depth })
    ]

-- The part of a round of `tokenize` behind `skipTrivia`, not at the end.
unfoldable pub lex_token : Lexing → Outcome Lexing
unfolding lex_operator operator scan_number scan_word scan_string scan_inline_body
lex_token s =
    let value = peek 0 s.cursor in
    let next = peek 1 s.cursor in
    let (word, scan) = scan_word s.cursor in
    if s.inline_header && value == b'{'
    then (scan_inline_body (length s.cursor.rest + 1) s.cursor >>= λ body.
        ok (record (emit s inline_body false body) { inline_header = false }))
    else if value == b'\n'
    then ok
        (record s { cursor = advance s.cursor; tokens = add_newline s.depth s.tokens s.cursor.at })
    else if is_digit value || (value == b'.' && is_digit next)
    then (scan_number s.cursor >>= λ (t, number). ok (emit s t false number))
    else if is_identifier_start value
    then ok (emit s word false scan)
    else if value == b'"' || value == b'\''
    then (scan_string value s.cursor >>= λ text. ok (emit s string (value == b'"') text))
    else lex_operator s

abbrev pub finish : Lexing → List Token
finish s =
    s.tokens
    ++ (record {
      type_of = end_of_file;
      text = [];
      location = s.cursor.at;
      formatted_string = false;
    }
        ∷ [])

unfoldable pub tokenize_loop : ℕ → Lexing → Outcome (List Token)
unfolding lex_token skip_trivia
tokenize_loop zero s = exhausted
tokenize_loop (suc fuel) s = elim (at_end s.cursor) [
  | true ↦ ok (finish s)
  | false ↦ skip_trivia (length s.cursor.rest + 1) s.depth s.tokens s.cursor >>= λ (tokens, c).
      let behind = record s { cursor = c; tokens = tokens } in
      elim (at_end c) [
        | true ↦ ok (finish behind)
        | false ↦ lex_token behind >>= λ s'. tokenize_loop fuel s'
      ]
]

abbrev pub initial : Bytes → Bytes → Lexing
initial source file = record {
  cursor = record { rest = source; at = record { file = file; line = 1; column = 1 } };
  inline_header = false;
  depth = 0;
  tokens = [];
}

unfoldable pub tokenize : Bytes → Bytes → Outcome (List Token)
unfolding tokenize_loop
tokenize source file = tokenize_loop (length source + 1) (initial source file)
