-- ===== src/Parser/Format.antt =====
-- `validateFormatString` of src/Parser.cpp.
use simp.Base.{
  ℕ, ◌+◌, ◌-◌, ◌*◌, Bool, true, false, not, ◌&&◌, ◌||◌, List, [], ◌∷◌, ◌++◌, Bytes, codes, Option,
  none, some, ◌==◌, ltb, within, if◌then◌else◌, all_of, SourceLocation,
}
use simp.Ast.Expressions.{FormatSpec}
use simp.Parser.Verdict.{Verdict, accepted, refused, ◌>>=◌}

abbrev pub is_identifier_start : ℕ → Bool
is_identifier_start c = within b'a' b'z' c || within b'A' b'Z' c || c == b'_'

abbrev pub is_identifier_part : ℕ → Bool
is_identifier_part c = is_identifier_start c || within b'0' b'9' c

unfoldable pub is_placeholder_name : Bytes → Bool
is_placeholder_name [] = true
is_placeholder_name (c ∷ name) = is_identifier_start c && all_of is_identifier_part name

-- The text of a placeholder up to its first colon, and the text behind it if there is one.
unfoldable pub split_colon : Bytes → Bytes × Option Bytes
split_colon [] = ([], none)
split_colon (c ∷ text) =
    let (name, rest) = split_colon text in if c == b':' then ([], some text) else (c ∷ name, rest)

-- The digits of a width. It stays below 2 ^ 32, since a larger one than 1000000 is refused.
unfoldable pub read_width : SourceLocation → ℕ → Bytes → Verdict (ℕ × Bytes)
read_width l width [] = accepted (width, [])
read_width l width (c ∷ text) =
    let wider = width * 10 + (c - b'0') in
    let more = read_width l wider text in
    if within b'0' b'9' c
    then if ltb 1000000 wider then refused l (codes "format width exceeds 1000000") else more
    else accepted (width, c ∷ text)

abbrev pub is_alignment : ℕ → Bool
is_alignment c = c == b'<' || c == b'>' || c == b'^'

abbrev pub is_type_byte : ℕ → Bool
is_type_byte c = c == b'd' || c == b'x' || c == b'X' || c == b'c'

-- A byte of the given class, or 0, and the text behind it.
abbrev pub read_byte : (ℕ → Bool) → Bytes → ℕ × Bytes
read_byte p [] = (0, [])
read_byte p (c ∷ text) = if p c then (c, text) else (0, c ∷ text)

abbrev pub starts_zero : Bytes → Bool
starts_zero [] = false
starts_zero (c ∷ text) = c == b'0'

abbrev is_nil : Bytes → Bool
is_nil [] = true
is_nil (c ∷ text) = false

-- `cursor != end || (spec.zeroPad && (spec.alignment || spec.type == 'c'))`
unfoldable pub is_invalid : FormatSpec → Bytes → Bool
is_invalid spec rest =
    not (is_nil rest) || (spec.zero_pad && (not (spec.alignment == 0) || spec.type_byte == b'c'))

abbrev check_spec : SourceLocation → FormatSpec → Bytes → Verdict FormatSpec
check_spec l spec rest =
    if is_invalid spec rest then refused l (codes "invalid format specifier") else accepted spec

abbrev pub spec_of : ℕ → Bool → ℕ → ℕ → FormatSpec
spec_of alignment zero_pad width type_byte = record {
  type_byte = type_byte;
  alignment = alignment;
  zero_pad = zero_pad;
  width = width;
}

unfoldable pub read_spec : SourceLocation → Bytes → Verdict FormatSpec
read_spec l text =
    let (alignment, digits) = read_byte is_alignment text in
    read_width l 0 digits >>= λ (width, rest).
    let (type_byte, remainder) = read_byte is_type_byte rest in
    check_spec l (spec_of alignment (starts_zero digits) width type_byte) remainder

abbrev pub read_option : SourceLocation → Option Bytes → Verdict FormatSpec
read_option l none = accepted (spec_of 0 false 0 0)
read_option l (some text) = read_spec l text

-- The text between two braces: the placeholder's name and its specification.
unfoldable pub read_placeholder : SourceLocation → Bytes → Verdict (Bytes × FormatSpec)
unfolding split_colon
read_placeholder l text =
    let (name, spec_text) = split_colon text in
    if is_placeholder_name name
    then (read_option l spec_text >>= λ spec. accepted (name, spec))
    else refused l (codes "malformed placeholder name in formatted string")

-- What the loop over the template gathers: its segments, one more than its placeholders.
pub record Template : Type 0 where
  pub segments : List Bytes
  pub names : List Bytes
  pub specs : List FormatSpec

abbrev pub add_segment : Template → Bytes → Template
add_segment t segment = record t { segments = t.segments ++ segment ∷ [] }

abbrev pub add_placeholder : Template → Bytes × FormatSpec → Template
add_placeholder t (name, spec) = record t {
  names = t.names ++ name ∷ [];
  specs = t.specs ++ spec ∷ [];
}

-- `outside` reads a segment, and `inside` looks for the end of a placeholder and keeps what it
-- has passed.
unfoldable mutual
  unfolding read_placeholder

  pub outside : SourceLocation → Template → Bytes → Bytes → Verdict Template
  outside l t segment [] = accepted (add_segment t segment)
  outside l t segment (c ∷ []) =
      if c == b'{'
      then refused l (codes "unmatched '{' in formatted string")
      else if c == b'}'
      then refused l (codes "unmatched '}' in formatted string")
      else accepted (add_segment t (segment ++ c ∷ []))
  outside l t segment (c ∷ d ∷ text) =
      let escaped = outside l t (segment ++ c ∷ []) text in
      let placeholder = inside l (add_segment t segment) [] (d ∷ text) in
      let more = outside l t (segment ++ c ∷ []) (d ∷ text) in
      if c == b'{'
      then if d == b'{' then escaped else placeholder
      else if c == b'}'
      then if d == b'}' then escaped else refused l (codes "unmatched '}' in formatted string")
      else more

  pub inside : SourceLocation → Template → Bytes → Bytes → Verdict Template
  inside l t passed [] = refused l (codes "unmatched '{' in formatted string")
  inside l t passed (c ∷ text) =
      let after = λ (p : Bytes × FormatSpec). outside l (add_placeholder t p) [] text in
      let more = inside l t (passed ++ c ∷ []) text in
      if c == b'}' then (read_placeholder l passed >>= after) else more

abbrev pub no_template : Template
no_template = record { segments = []; names = []; specs = [] }
