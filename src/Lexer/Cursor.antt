-- ===== src/Lexer/Cursor.antt =====
-- `atEnd`, `peek`, `advance` and `currentLocation` of src/Lexer.cpp. A `Cursor` holds the bytes
-- from `position_` on, with `fileName_`, `line_` and `column_` as the location.
use simp.Base.{
  ℕ, ◌+◌, Bool, true, false, [], ◌∷◌, ◌++◌, ◌==◌, if◌then◌else◌, Bytes, get_or, SourceLocation,
}

pub record Cursor : Type 0 where
  pub rest : Bytes
  pub at : SourceLocation

abbrev is_nil : Bytes → Bool
is_nil [] = true
is_nil (_ ∷ _) = false

abbrev pub at_end : Cursor → Bool
at_end c = is_nil c.rest

-- The byte `n` ahead, and `'\0'` past the end.
abbrev pub peek : ℕ → Cursor → ℕ
peek n c = get_or c.rest n 0

unfoldable pub step : SourceLocation → ℕ → SourceLocation
step l c =
    if c == b'\n'
    then record l { line = l.line + 1; column = 1 }
    else record l { column = l.column + 1 }

abbrev pub advance_from : Bytes → SourceLocation → Cursor
advance_from [] l = record { rest = []; at = step l 0 }
advance_from (c ∷ cs) l = record { rest = cs; at = step l c }

abbrev pub advance : Cursor → Cursor
advance c = advance_from c.rest c.at

-- The text that a scan has gathered, and where it stands.
pub record Scan : Type 0 where
  pub text : Bytes
  pub cursor : Cursor

abbrev pub scan_from : Cursor → Scan
scan_from c = record { text = []; cursor = c }

-- `text.push_back(advance())`
abbrev pub push : Scan → Scan
push s = record { text = s.text ++ peek 0 s.cursor ∷ []; cursor = advance s.cursor }

unfoldable pub push_loop : (ℕ → Bool) → Bytes → Bytes → SourceLocation → Scan
push_loop p text [] l = record { text = text; cursor = record { rest = []; at = l } }
push_loop p text (c ∷ cs) l =
    if p c
    then push_loop p (text ++ c ∷ []) cs (step l c)
    else record { text = text; cursor = record { rest = c ∷ cs; at = l } }

-- `while (!atEnd() && p(peek())) text.push_back(advance())`
abbrev pub push_while : (ℕ → Bool) → Scan → Scan
push_while p s = push_loop p s.text s.cursor.rest s.cursor.at

-- The same with the bytes dropped.
abbrev pub skip_while : (ℕ → Bool) → Cursor → Cursor
skip_while p c = (push_while p (scan_from c)).cursor
