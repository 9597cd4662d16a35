-- ===== src/Packages/Toml.antt =====
-- The values of a manifest in src/PackageRegistry.cpp.
use simp.Base.{
  ℕ, Bool, true, false, not, ◌&&◌, ◌||◌, Option, none, some, [], ◌∷◌, ◌++◌, ◌==◌, ltb,
  if◌then◌else◌, Bytes, codes,
}
use simp.Base.Attempts.{Attempt, done, invalid, ◌>>=◌}
use simp.Base.Decimal.{decimal}
use simp.Packages.Version.{is_empty}

-- `path:line: text`, the text of an exception about a line of a file.
abbrev pub failure : Bytes → ℕ → Bytes → Bytes
failure path line_number text = path ++ (b':' ∷ decimal line_number ++ (codes ": " ++ text))

abbrev pub is_blank : ℕ → Bool
is_blank c = c == b' ' || c == 9 || c == 13 || c == 10

unfoldable pub trim_front : Bytes → Bytes
trim_front [] = []
trim_front (c ∷ value) = let rest = trim_front value in if is_blank c then rest else c ∷ value

-- Without the blanks at the end.
unfoldable pub trim_back : Bytes → Bytes
trim_back [] = []
trim_back (c ∷ value) =
    let rest = trim_back value in if is_empty rest && is_blank c then [] else c ∷ rest

unfoldable pub trim : Bytes → Bytes
unfolding trim_front trim_back
trim value = trim_back (trim_front value)

unfoldable pub escaped_byte : ℕ → Option ℕ
escaped_byte e =
    if e == b'"'
    then some b'"'
    else if e == b'\\'
    then some b'\\'
    else if e == b'b'
    then some 8
    else if e == b't'
    then some 9
    else if e == b'n'
    then some 10
    else if e == b'f'
    then some 12
    else if e == b'r'
    then some 13
    else none

-- The last byte of a text, and those in front of it.
unfoldable pub split_last : ℕ → Bytes → Bytes × ℕ
split_last c [] = ([], c)
split_last c (d ∷ rest) = let (front, last) = split_last d rest in (c ∷ front, last)

module _ (path : Bytes) (line_number : ℕ) where
  abbrev fails : {A : Type 0} → Bytes → Attempt A
  fails text = invalid (failure path line_number text)

  -- The bytes between the quotes.
  unfoldable pub unquote : Bytes → Attempt Bytes
  unfolding escaped_byte
  unquote [] = done []
  unquote (c ∷ []) =
      if c == b'\\'
      then fails (codes "incomplete string escape")
      else if c == b'"' || ltb c 32
      then fails (codes "invalid character in quoted string")
      else done (c ∷ [])
  unquote (c ∷ e ∷ rest) =
      if c == b'\\'
      then elim (escaped_byte e) [
        | none ↦ fails (codes "unsupported string escape")
        | some byte ↦ unquote rest >>= λ result. done (byte ∷ result)
      ]
      else if c == b'"' || ltb c 32
      then fails (codes "invalid character in quoted string")
      else unquote (e ∷ rest) >>= λ result. done (c ∷ result)

  abbrev not_quoted : {A : Type 0} → Attempt A
  not_quoted = fails (codes "expected a quoted TOML string")

  unfoldable pub parse_quoted_string : Bytes → Attempt Bytes
  unfolding unquote split_last
  parse_quoted_string [] = not_quoted
  parse_quoted_string (c ∷ []) = not_quoted
  parse_quoted_string (c ∷ d ∷ value) =
      let (inner, last) = split_last d value in
      if c == b'"' && last == b'"' then unquote inner else not_quoted

-- The line up to a `#` that stands in no quoted string.
unfoldable pub uncomment_loop : Bool → Bool → Bytes → Bytes
uncomment_loop quoted escaped [] = []
uncomment_loop true true (c ∷ line) = c ∷ uncomment_loop true false line
uncomment_loop true false (c ∷ line) =
    c ∷ uncomment_loop (not (not (c == b'\\') && c == b'"')) (c == b'\\') line
uncomment_loop false escaped (c ∷ line) =
    let rest = uncomment_loop (c == b'"') escaped line in
    if not (c == b'"') && c == b'#' then [] else c ∷ rest

unfoldable pub uncomment : Bytes → Bytes
unfolding uncomment_loop
uncomment line = uncomment_loop false false line
