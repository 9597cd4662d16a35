-- ===== src/Lexer/Numerals.antt =====
-- `scanIdentifierOrInteger` on a number: the text is the longest run of source that it covers.
use simp.Base.{
  ℕ, ◌<◌, Bool, true, false, not, ◌&&◌, ◌||◌, [], ◌∷◌, ◌≡◌, ◌≢◌, ◌⊎◌, inl, inr, refl, arith, ◌==◌,
  if◌then◌else◌, Bool-cases, length, length-append, SourceLocation, Ensures, holds, throws,
  Ensures-if, Ensures-bind,
}
use simp.Lexer.Token.{TokenType, integer, unsigned_integer, float}
use simp.Lexer.Chars.{is_digit, is_identifier_part}
use simp.Lexer.Cursor.{Cursor, peek, Scan, scan_from, push, push_while}
use simp.Lexer.Scanners.{
  last_or, is_u, is_e, is_hex_digit, scan_hexadecimal, scan_exponent, scan_suffix, scan_digits,
  scan_number,
}
use simp.Lexer.Reads.{
  Scanned, push-Scanned, push_while-Scanned, scan_from-Scanned, advance-peek, length-push_while,
  length-push_while_pos,
}

-- A scan from `c` that has read something.
abbrev pub Gathered : Cursor → Scan → Type 0
Gathered c s = Scanned c s × (0 < length s.text)

push-Gathered : (c : Cursor) (s : Scan) → Scanned c s → peek 0 s.cursor ≢ 0 → Gathered c (push s)
push-Gathered c s h ne =
    (push-Scanned c s h ne, omega (arith, length-append s.text (peek 0 s.cursor ∷ [])))

push_while-Gathered :
    (p : ℕ → Bool) (c : Cursor) (s : Scan) → Gathered c s → Gathered c (push_while p s)
push_while-Gathered p c s (h, pos) =
    (push_while-Scanned p c s h, omega (arith, length-push_while p s))

if-Gathered :
    (c : Cursor) (b : Bool) (s t : Scan)
    → (b ≡ true → Gathered c s)
    → (b ≡ false → Gathered c t)
    → Gathered c (if b then s else t)
if-Gathered c true s t hs ht = hs refl
if-Gathered c false s t hs ht = ht refl

-- The types that a number can have.
pub data IsNumeric : TokenType → Type 0 where
  integer_type : IsNumeric integer
  unsigned_type : IsNumeric unsigned_integer
  float_type : IsNumeric float

if-IsNumeric :
    (b : Bool) {s t : TokenType} → IsNumeric s → IsNumeric t → IsNumeric (if b then s else t)
if-IsNumeric true hs ht = hs
if-IsNumeric false hs ht = ht

abbrev pub Numbers : Cursor → TokenType × Scan → Type 0
Numbers c (t, s) = IsNumeric t × Scanned c s × (0 < length s.text)

is_u-ne-zero : (x : ℕ) → is_u x ≡ true → x ≢ 0
is_u-ne-zero x h = ground arith

is_e-ne-zero : (x : ℕ) → is_e x ≡ true → x ≢ 0
is_e-ne-zero x h = ground arith

is_sign-ne-zero : (x : ℕ) → (x == b'+' || x == b'-') ≡ true → x ≢ 0
is_sign-ne-zero x h = ground arith

scan_suffix-Numbers :
    (c : Cursor) (floating : Bool) (s : Scan) → Gathered c s → Numbers c (scan_suffix floating s)
unfolding scan_suffix
scan_suffix-Numbers c true s (h, pos) = (float_type, h, pos)
scan_suffix-Numbers c false s (h, pos) = elim (Bool-cases (is_u (peek 0 s.cursor))) [
  | inl u ↦ rw u (let g = push-Gathered c s h (is_u-ne-zero _ u) in (unsigned_type, g.0, g.1))
  | inr n ↦ rw n (integer_type, h, pos)
]

scan_exponent-Gathered :
    (c : Cursor) (l : SourceLocation) (floating : Bool) (s : Scan)
    → Gathered c s
    → Ensures (λ r. Gathered c r.1) (scan_exponent l floating s)
unfolding scan_exponent
scan_exponent-Gathered c l floating s g =
    let marked = push s in
    let mark = peek 0 marked.cursor in
    let signed = if mark == b'+' || mark == b'-' then push marked else marked in
    Ensures-if (is_e (peek 0 s.cursor))
      (λ e.
        let h = push-Gathered c s g.0 (is_e-ne-zero _ e) in
        Ensures-if (is_digit (peek 0 signed.cursor))
          (λ _. holds (
            push_while-Gathered is_digit c _ (
              if-Gathered c (mark == b'+' || mark == b'-') (push marked) marked
                (λ m. push-Gathered c marked h.0 (is_sign-ne-zero _ m)) (λ _. h))))
          (λ _. throws))
      (λ _. holds g)

first_digits-Gathered :
    (c : Cursor) (dot : Bool)
    → (peek 0 c == b'.') ≡ dot
    → (is_digit (peek 0 c) ≡ true) ⊎ (peek 0 c ≡ b'.')
    → Gathered c (push_while is_digit (if dot then push (scan_from c) else scan_from c))
first_digits-Gathered c true e h =
    push_while-Gathered is_digit c (push (scan_from c))
      (push-Gathered c (scan_from c) (scan_from-Scanned c) (ground arith))
first_digits-Gathered c false e h = (
  push_while-Scanned is_digit c (scan_from c) (scan_from-Scanned c),
  length-push_while_pos is_digit (scan_from c) (ground arith) refl,
)

scan_digits-Gathered :
    (c : Cursor) → (is_digit (peek 0 c) ≡ true) ⊎ (peek 0 c ≡ b'.') → Gathered c (scan_digits c).1
unfolding scan_digits
scan_digits-Gathered c h =
    let dot = peek 0 c == b'.' in
    let begin = scan_from c in
    let digits = push_while is_digit (if dot then push begin else begin) in
    let g = first_digits-Gathered c dot refl h in
    elim (Bool-cases (not dot && peek 0 digits.cursor == b'.')) [
      | inl t ↦ rw t (push_while-Gathered is_digit c _ (push-Gathered c digits g.0 (ground arith)))
      | inr f ↦ rw f g
    ]

scan_hexadecimal-Numbers :
    (c : Cursor) → peek 0 c ≢ 0 → peek 1 c ≢ 0 → Ensures (Numbers c) (scan_hexadecimal c)
unfolding scan_hexadecimal
scan_hexadecimal-Numbers c h0 h1 =
    let prefix = push (push (scan_from c)) in
    let digits = push_while is_hex_digit prefix in
    let whole = if is_u (peek 0 digits.cursor) then push digits else digits in
    let zero_x =
      push-Gathered c (push (scan_from c))
        (push-Gathered c (scan_from c) (scan_from-Scanned c) h0).0 (rw (advance-peek c) h1) in
    let g = push_while-Gathered is_hex_digit c prefix zero_x in
    let g' =
      if-Gathered c (is_u (peek 0 digits.cursor)) (push digits) digits
        (λ u. push-Gathered c digits g.0 (is_u-ne-zero _ u)) (λ _. g) in
    Ensures-if (length digits.text == length prefix.text) (λ _. throws)
      (λ _.
        Ensures-if (is_identifier_part (peek 0 whole.cursor)) (λ _. throws)
          (λ _.
            holds
              (if-IsNumeric (is_u (last_or 0 whole.text)) unsigned_type integer_type, g'.0, g'.1)))

-- A number is read where one begins, unless a diagnostic is thrown: its text is not empty, it is
-- the source read, and the location behind it counts its bytes.
pub scan_number-Numbers :
    (c : Cursor)
    → (is_digit (peek 0 c) ≡ true) ⊎ (peek 0 c ≡ b'.')
    → Ensures (Numbers c) (scan_number c)
unfolding scan_number
scan_number-Numbers c h =
    Ensures-if (peek 0 c == b'0' && (peek 1 c == b'x' || peek 1 c == b'X'))
      (λ x. scan_hexadecimal-Numbers c (ground arith) (ground arith))
      (λ _.
        Ensures-bind (scan_exponent-Gathered c c.at _ _ (scan_digits-Gathered c h))
          λ (floating, s) g. holds (scan_suffix-Numbers c floating s g))
