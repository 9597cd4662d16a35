-- ===== src/Lexer/Scanners.antt =====
-- `scanIdentifierOrInteger`, `scanString` and `scanInlineBody` of src/Lexer.cpp.
use simp.Base.{
  ℕ, String, Bool, true, not, ◌&&◌, ◌||◌, Option, none, some, List, [], ◌∷◌, ◌++◌, map, ◌==◌,
  within, if◌then◌else◌, Bytes, codes, equal, length, SourceLocation, Outcome, ok, err, ◌>>=◌,
}
use simp.Lexer.Token.{TokenType, identifier, integer, unsigned_integer, float, keywords}
use simp.Lexer.Chars.{lower_ascii, is_digit, is_identifier_part, is_valid_utf8}
use simp.Lexer.Cursor.{Cursor, step, peek, advance, Scan, scan_from, push, push_while}

abbrev pub is_hex_digit : ℕ → Bool
is_hex_digit c = is_digit c || within b'a' b'f' c || within b'A' b'F' c

abbrev pub is_u : ℕ → Bool
is_u c = c == b'u' || c == b'U'

abbrev pub is_e : ℕ → Bool
is_e c = c == b'e' || c == b'E'

-- `text.back()`
abbrev pub last_or : ℕ → Bytes → ℕ
last_or d [] = d
last_or d (c ∷ cs) = last_or c cs

unfoldable pub scan_hexadecimal : Cursor → Outcome (TokenType × Scan)
scan_hexadecimal c =
    let prefix = push (push (scan_from c)) in
    let digits = push_while is_hex_digit prefix in
    let whole = if is_u (peek 0 digits.cursor) then push digits else digits in
    if length digits.text == length prefix.text
    then err c.at "malformed hexadecimal integer literal"
    else if is_identifier_part (peek 0 whole.cursor)
    then err c.at "malformed hexadecimal integer literal"
    else ok (if is_u (last_or 0 whole.text) then unsigned_integer else integer, whole)

-- The exponent; the flag is `floating`.
unfoldable pub scan_exponent : SourceLocation → Bool → Scan → Outcome (Bool × Scan)
scan_exponent l floating s =
    let marked = push s in
    let mark = peek 0 marked.cursor in
    let signed = if mark == b'+' || mark == b'-' then push marked else marked in
    if is_e (peek 0 s.cursor)
    then if is_digit (peek 0 signed.cursor)
      then ok (true, push_while is_digit signed)
      else err l "malformed floating-point literal"
    else ok (floating, s)

unfoldable pub scan_suffix : Bool → Scan → TokenType × Scan
scan_suffix floating s =
    if not floating && is_u (peek 0 s.cursor)
    then (unsigned_integer, push s)
    else (if floating then float else integer, s)

-- Digits, with one dot before, among or after them.
unfoldable pub scan_digits : Cursor → Bool × Scan
scan_digits c =
    let leading_dot = peek 0 c == b'.' in
    let begin = scan_from c in
    let digits = push_while is_digit (if leading_dot then push begin else begin) in
    if not leading_dot && peek 0 digits.cursor == b'.'
    then (true, push_while is_digit (push digits))
    else (leading_dot, digits)

unfoldable pub scan_number : Cursor → Outcome (TokenType × Scan)
unfolding scan_hexadecimal scan_exponent scan_suffix scan_digits
scan_number c =
    let (floating, digits) = scan_digits c in
    if peek 0 c == b'0' && (peek 1 c == b'x' || peek 1 c == b'X')
    then scan_hexadecimal c
    else scan_exponent c.at floating digits >>= λ (floating', s). ok (scan_suffix floating' s)

unfoldable pub find_keyword : Bytes → List (String × TokenType) → TokenType
find_keyword name [] = identifier
find_keyword name ((k, t) ∷ rest) = if equal name (codes k) then t else find_keyword name rest

-- The type of a word: the table is searched in lower case, and `String` is exempt.
unfoldable pub word_type : Bytes → TokenType
unfolding find_keyword
word_type text =
    if equal text (codes "String") then identifier else find_keyword (map lower_ascii text) keywords

unfoldable pub scan_word : Cursor → TokenType × Scan
unfolding word_type equal lower_ascii
scan_word c = let s = push_while is_identifier_part (scan_from c) in (word_type s.text, s)

unfoldable pub escape_value : ℕ → Option ℕ
escape_value c =
    if c == b'e'
    then some 0x1b
    else if c == b'n'
    then some b'\n'
    else if c == b'r'
    then some b'\r'
    else if c == b't'
    then some b'\t'
    else if c == b'\\' || c == b'"'
    then some c
    else none

abbrev pub is_line_end : ℕ → Bool
is_line_end c = c == b'\n' || c == b'\r'

-- The loop of `scanString` behind the opening quote, and the `advance` over the closing one.
unfoldable pub string_loop : ℕ → SourceLocation → Bytes → Bytes → SourceLocation → Outcome Scan
string_loop quote l text [] at = err l "unterminated string literal"
string_loop quote l text (c ∷ []) at =
    if c == quote
    then ok (record { text = text; cursor = record { rest = []; at = step at c } })
    else if is_line_end c
    then err at "newline in string literal"
    else if quote == b'"' && c == b'\\'
    then err l "unterminated escape sequence"
    else err l "unterminated string literal"
string_loop quote l text (c ∷ d ∷ rest) at =
    let behind = step (step at c) d in
    let plain = string_loop quote l (text ++ c ∷ []) (d ∷ rest) (step at c) in
    let escaped : Outcome Scan = elim (escape_value d) [
      | none ↦ err behind "unsupported string escape"
      | some e ↦ string_loop quote l (text ++ e ∷ []) rest behind
    ] in
    if c == quote
    then ok (record { text = text; cursor = record { rest = d ∷ rest; at = step at c } })
    else if is_line_end c
    then err at "newline in string literal"
    else if quote == b'"' && c == b'\\'
    then escaped
    else plain

unfoldable pub scan_string : ℕ → Cursor → Outcome Scan
unfolding string_loop escape_value is_valid_utf8
scan_string quote c = string_loop quote c.at [] (advance c).rest (advance c).at >>= λ s.
    if is_valid_utf8 s.text then ok s else err c.at "string literal is not valid UTF-8"
