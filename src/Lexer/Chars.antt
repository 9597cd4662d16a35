-- ===== src/Lexer/Chars.antt =====
-- The character tests at the top of src/Lexer.cpp.
use simp.Base.{
  ℕ, zero, suc, ◌+◌, ◌-◌, Bool, true, false, ◌||◌, Option, none, some, [], ◌∷◌, ltb, leb, ◌==◌,
  within, if◌then◌else◌, Bytes, length, get_or, take, drop, all_of,
}

unfoldable pub lower_ascii : ℕ → ℕ
lower_ascii c = if within b'A' b'Z' c then c - b'A' + b'a' else c

abbrev pub is_digit : ℕ → Bool
is_digit c = within b'0' b'9' c

unfoldable pub is_identifier_start : ℕ → Bool
is_identifier_start c = within b'a' b'z' c || within b'A' b'Z' c || c == b'_'

unfoldable pub is_identifier_part : ℕ → Bool
unfolding is_identifier_start
is_identifier_part c = is_identifier_start c || is_digit c

-- `std::isspace` in the "C" locale.
abbrev pub is_space : ℕ → Bool
is_space c = c == 32 || within 9 13 c

-- How many bytes a lead byte announces, and the range of the second one.
pub record Sequence : Type 0 where
  pub size : ℕ
  pub second_minimum : ℕ
  pub second_maximum : ℕ

unfoldable pub sequence : ℕ → Option Sequence
sequence lead =
    if within 0xc2 0xdf lead
    then some (record { size = 2; second_minimum = 0x80; second_maximum = 0xbf })
    else if within 0xe0 0xef lead
    then some (record {
      size = 3;
      second_minimum = if lead == 0xe0 then 0xa0 else 0x80;
      second_maximum = if lead == 0xed then 0x9f else 0xbf;
    })
    else if within 0xf0 0xf4 lead
    then some (record {
      size = 4;
      second_minimum = if lead == 0xf0 then 0x90 else 0x80;
      second_maximum = if lead == 0xf4 then 0x8f else 0xbf;
    })
    else none

-- The checks on the bytes of one sequence of two or more.
unfoldable pub sequence_ok : Sequence → Bytes → Bool
sequence_ok s value =
    let second = get_or value 1 0 in
    if ltb (length value) s.size
    then false
    else if ltb second s.second_minimum || ltb s.second_maximum second
    then false
    else all_of (within 0x80 0xbf) (take (s.size - 2) (drop 2 value))

-- The `while` loop of `isValidUtf8`, on the bytes from `index` on.
unfoldable pub utf8_loop : ℕ → Bytes → Bool
utf8_loop fuel [] = true
utf8_loop zero (lead ∷ rest) = false
utf8_loop (suc fuel) (lead ∷ rest) = elim (leb lead 0x7f) [
  | true ↦ utf8_loop fuel rest
  | false ↦ elim (sequence lead) [
    | none ↦ false
    | some s ↦ elim (sequence_ok s (lead ∷ rest)) [
      | true ↦ utf8_loop fuel (drop s.size (lead ∷ rest))
      | false ↦ false
    ]
  ]
]

unfoldable pub is_valid_utf8 : Bytes → Bool
unfolding utf8_loop sequence sequence_ok
is_valid_utf8 value = utf8_loop (length value) value
