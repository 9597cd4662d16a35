-- ===== src/Lexer/Quoting.antt =====
-- `scanString` reads back a text that is written as a double-quoted literal.
use simp.Base.{
  ℕ, true, false, ◌||◌, some, [], ◌∷◌, ◌++◌, append-nil, append_assoc, ◌≡◌, inl, inr, refl, ◌∙◌,
  arith, ◌==◌, if◌then◌else◌, Bool-cases, Bytes, SourceLocation, ok,
}
use simp.Lexer.Chars.{is_valid_utf8}
use simp.Lexer.Cursor.{step}
use simp.Lexer.Scanners.{is_line_end, escape_value, string_loop, scan_string}
use simp.Lexer.Reads.{after, after-append}

-- How a byte is written between double quotes.
pub quoted_byte : ℕ → Bytes
quoted_byte c =
    if c == b'\n'
    then b'\\' ∷ b'n' ∷ []
    else if c == b'\r'
    then b'\\' ∷ b'r' ∷ []
    else if c == b'\\' || c == b'"'
    then b'\\' ∷ c ∷ []
    else c ∷ []

pub quoted : Bytes → Bytes
quoted [] = []
quoted (c ∷ cs) = quoted_byte c ++ quoted cs

module _ (l : SourceLocation) where
  loop_plain :
      (text tail : Bytes) (c : ℕ) (at : SourceLocation)
      → (c == b'"') ≡ false
      → is_line_end c ≡ false
      → (c == b'\\') ≡ false
      → string_loop b'"' l text (c ∷ tail) at ≡ string_loop b'"' l (text ++ c ∷ []) tail (step at c)
  unfolding string_loop
  loop_plain text [] c at q n b = ground arith
  loop_plain text (d ∷ tail) c at q n b = ground arith

  loop_escape :
      (text tail : Bytes) (d e : ℕ) (at : SourceLocation)
      → escape_value d ≡ some e
      → string_loop b'"' l text (b'\\' ∷ d ∷ tail) at
        ≡ string_loop b'"' l (text ++ e ∷ []) tail (step (step at b'\\') d)
  unfolding string_loop
  loop_escape text tail d e at h = rw h

  loop_close :
      (text tail : Bytes) (at : SourceLocation)
      → string_loop b'"' l text (b'"' ∷ tail) at
        ≡ ok (record { text = text; cursor = record { rest = tail; at = step at b'"' } })
  unfolding string_loop
  loop_close text [] at = refl
  loop_close text (d ∷ tail) at = refl

  loop_byte :
      (text tail : Bytes) (c : ℕ) (at : SourceLocation)
      → string_loop b'"' l text (quoted_byte c ++ tail) at
        ≡ string_loop b'"' l (text ++ c ∷ []) tail (after at (quoted_byte c))
  unfolding quoted_byte escape_value
  loop_byte text tail c at = elim (Bool-cases (c == b'\n')) [
    | inl n ↦ let e : c ≡ b'\n' = ground arith in rw e (loop_escape text tail b'n' b'\n' at refl)
    | inr n ↦ elim (Bool-cases (c == b'\r')) [
      | inl r ↦ let e : c ≡ b'\r' = ground arith in rw e (loop_escape text tail b'r' b'\r' at refl)
      | inr r ↦ elim (Bool-cases (c == b'\\' || c == b'"')) [
        | inl s ↦ rw (n, r, s) (loop_escape text tail c c at (ground arith))
        | inr s ↦
            rw (n, r, s) (loop_plain text tail c at (ground arith) (ground arith) (ground arith))
      ]
    ]
  ]

  loop_quoted :
      (value text rest : Bytes) (at : SourceLocation)
      → string_loop b'"' l text (quoted value ++ b'"' ∷ rest) at
        ≡ ok (record {
          text = text ++ value;
          cursor = record { rest = rest; at = step (after at (quoted value)) b'"' };
        })
  unfolding quoted
  loop_quoted [] text rest at = loop_close text rest at ∙ rw (append-nil text)
  loop_quoted (c ∷ value) text rest at =
      rw (append_assoc (quoted_byte c) (quoted value) (b'"' ∷ rest)) (
        loop_byte text (quoted value ++ b'"' ∷ rest) c at
        ∙ loop_quoted value (text ++ c ∷ []) rest (after at (quoted_byte c))
        ∙ rw (append_assoc text (c ∷ []) value, after-append at (quoted_byte c) (quoted value)))

-- A text that is valid UTF-8, whatever bytes it holds, is read back from its quoted form, with what
-- follows left to read and the location behind the closing quote.
pub scan_string-quoted :
    (value rest : Bytes) (at : SourceLocation)
    → is_valid_utf8 value ≡ true
    → scan_string b'"' (record { rest = b'"' ∷ (quoted value ++ b'"' ∷ rest); at = at })
      ≡ ok (record {
        text = value;
        cursor = record { rest = rest; at = after at (b'"' ∷ (quoted value ++ b'"' ∷ [])) };
      })
unfolding scan_string
scan_string-quoted value rest at h = rw (
  loop_quoted at value [] rest (step at b'"'),
  h,
  after-append (step at b'"') (quoted value) (b'"' ∷ []),
)
