-- ===== src/Lexer/Positions.antt =====
-- What `line_` and `column_` of src/Lexer.cpp count.
use simp.Base.{
  ℕ, ◌+◌, true, [], ◌∷◌, ◌++◌, ◌≡◌, refl, arith, ◌==◌, if◌then◌else◌, Bytes, length, SourceLocation,
  All,
}
use simp.Lexer.Cursor.{step}
use simp.Lexer.Blocks.{in_line}
use simp.Lexer.Reads.{after, after-append}

-- How many newlines stand in the bytes.
abbrev pub newline_count : Bytes → ℕ
newline_count [] = 0
newline_count (c ∷ cs) = (if c == b'\n' then 1 else 0) + newline_count cs

after-line : (l : SourceLocation) (t : Bytes) → (after l t).line ≡ l.line + newline_count t
unfolding step
after-line l [] = omega arith
after-line l (c ∷ t) = ground (arith, after-line (step l c) t)

after-file : (l : SourceLocation) (t : Bytes) → (after l t).file ≡ l.file
unfolding step
after-file l [] = refl
after-file l (c ∷ t) = ground (arith, after-file (step l c) t)

after-column :
    (l : SourceLocation) (t : Bytes)
    → All (λ c. in_line c ≡ true) t
    → (after l t).column ≡ l.column + length t
unfolding step
after-column l [] h = omega arith
after-column l (c ∷ t) (hc, h) = ground (arith, after-column (step l c) t h)

-- The line number grows by the newlines read. Behind a newline and bytes `t` of one line the column
-- is one more than the length of `t`; with no newline read it grows by that length. The file stays.
pub after_position :
    (l : SourceLocation) (s t : Bytes)
    → All (λ c. in_line c ≡ true) t
    → ((after l s).line ≡ l.line + newline_count s)
      × ((after l (s ++ b'\n' ∷ t)).column ≡ 1 + length t)
      × ((after l t).column ≡ l.column + length t)
      × ((after l s).file ≡ l.file)
unfolding step
after_position l s t h = (
  after-line l s,
  rw (after-append l s (b'\n' ∷ t)) (after-column (step (after l s) b'\n') t h),
  after-column l t h,
  after-file l s,
)
