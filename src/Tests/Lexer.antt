-- ===== src/Tests/Lexer.antt =====
-- src/Lexer.cpp on concrete sources.
use simp.Base.{
  ℕ, ◌+◌, String, ◌≡◌, ◌↔◌, ◌⊎◌, refl, true, false, List, [], ◌∷◌, ◌++◌, map, codes, Bytes, length,
  All, In, SourceLocation, Outcome, ok, err, ◌>>=◌, Ensures,
}
use simp.Lexer.Token.{TokenType, Token, keywords}
use simp.Base.Decimal.{decimal}
use simp.Lexer.Diagnostics.{format_diagnostic}
use simp.Lexer.Chars.{lower_ascii, is_valid_utf8, is_identifier_part}
use simp.Lexer.Cursor.{step, push_loop}
use simp.Lexer.Scanners.{scan_string, word_type}
use simp.Lexer.Tokenize.{tokenize}
use simp.Lexer.Reads.{after}
use simp.Lexer.Sound.{IsTokenization, tokenize-IsTokenization}
use simp.Lexer.Utf8.{IsScalar, encode, encode_all}
use simp.Lexer.Unicode.{is_valid_utf8_iff}
use simp.Lexer.Quoting.{quoted, scan_string-quoted}
use simp.Lexer.Words.{word_type-keywords}
use simp.Lexer.Positions.{newline_count, after_position}

abbrev types : Outcome (List Token) → Outcome (List TokenType)
types r = r >>= λ tokens. ok (map (λ t. t.type_of) tokens)

abbrev texts : Outcome (List Token) → Outcome (List Bytes)
texts r = r >>= λ tokens. ok (map (λ t. t.text) tokens)

abbrev file : Bytes
file = codes "a.cw"

source_types :
    types (tokenize (codes "Int x = 0x1Fu // c\n(a\n>= .5e1)") file)
    ≡ ok (
        TokenType.int ∷ TokenType.identifier ∷ TokenType.equal ∷ TokenType.unsigned_integer
        ∷ TokenType.newline ∷ TokenType.left_paren ∷ TokenType.identifier ∷ TokenType.greater_equal
        ∷ TokenType.float ∷ TokenType.right_paren ∷ TokenType.end_of_file ∷ [])
unfolding tokenize push_loop step is_identifier_part
source_types = refl

inline_source :
    texts (tokenize (codes "inline { if (x) { s = \"}\"; } /* } */ }") file)
    ≡ ok (codes "inline" ∷ codes " if (x) { s = \"}\"; } /* } */ " ∷ [] ∷ [])
unfolding tokenize push_loop step is_identifier_part
inline_source = refl

unterminated :
    tokenize (codes "\n \"ab") file
    ≡ err (record { file = file; line = 2; column = 2 }) "unterminated string literal"
unfolding tokenize push_loop step is_identifier_part
unterminated = refl

printed :
    format_diagnostic (record { file = file; line = 12; column = 5 }) (codes "no")
    ≡ codes "a.cw:12:5: error: no"
unfolding format_diagnostic decimal
printed = refl

abbrev start : SourceLocation
start = record { file = file; line = 1; column = 1 }

abbrev program : Bytes
program = codes "x = (1.5 + \"a\\n\") // end\ninline {}"

tokenize-IsTokenization_example :
    Ensures
      (IsTokenization (record { file = file; line = 1; column = 1 }) program)
      (tokenize program file)
tokenize-IsTokenization_example = tokenize-IsTokenization program file

-- "é€😀" and a surrogate.
abbrev characters : List ℕ
characters = 0xe9 ∷ 0x20ac ∷ 0x1f600 ∷ []

encoded_characters : is_valid_utf8 (encode_all characters) ≡ true
unfolding is_valid_utf8 encode_all encode
encoded_characters = refl

surrogate : is_valid_utf8 (0xed ∷ 0xa0 ∷ 0x80 ∷ []) ≡ false
unfolding is_valid_utf8
surrogate = refl

is_valid_utf8_iff_example :
    (is_valid_utf8 (0xc3 ∷ 0xa9 ∷ []) ≡ true)
    ↔ ((ns : List ℕ) × All IsScalar ns × (0xc3 ∷ 0xa9 ∷ [] ≡ encode_all ns))
is_valid_utf8_iff_example = is_valid_utf8_iff (0xc3 ∷ 0xa9 ∷ [])

scan_string-quoted_example :
    scan_string b'"'
      (record { rest = b'"' ∷ (quoted (codes "a\"\n") ++ b'"' ∷ codes ";"); at = start })
    ≡ ok (record {
      text = codes "a\"\n";
      cursor = record {
        rest = codes ";";
        at = after start (b'"' ∷ (quoted (codes "a\"\n") ++ b'"' ∷ []));
      };
    })
scan_string-quoted_example =
    scan_string-quoted (codes "a\"\n") (codes ";") start (unfold is_valid_utf8 in refl)

word_type-keywords_example :
    All
      (λ (k, t). map lower_ascii (codes "WHILE") ≡ codes k → word_type (codes "WHILE") ≡ t)
      keywords
    × ((word_type (codes "WHILE") ≡ TokenType.identifier)
        ⊎ ((k : String) × (map lower_ascii (codes "WHILE") ≡ codes k)
            × In (k, word_type (codes "WHILE")) keywords))
word_type-keywords_example = word_type-keywords (codes "WHILE")

after_position_example :
    ((after start (codes "ab\nc")).line ≡ start.line + newline_count (codes "ab\nc"))
    × ((after start (codes "ab\nc" ++ b'\n' ∷ codes "de")).column ≡ 1 + length (codes "de"))
    × ((after start (codes "de")).column ≡ start.column + length (codes "de"))
    × ((after start (codes "ab\nc")).file ≡ start.file)
after_position_example = after_position start (codes "ab\nc") (codes "de") (refl, (refl, tt))
