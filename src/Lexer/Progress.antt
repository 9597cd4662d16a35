-- ===== src/Lexer/Progress.antt =====
-- A round of `tokenize` in src/Lexer.cpp emits a token of the grammar.
use native.Mathlib.Numerals.{add-one}
use simp.Base.{
  ℕ, ◌+◌, ◌≤◌, ◌<◌, Bool, true, false, ◌&&◌, ◌||◌, some, [], ◌∷◌, ◌++◌, ◌≡◌, ◌≢◌, ◌⊎◌, inl, inr,
  refl, sym, ap, subst, arith, ◌==◌, if◌then◌else◌, Bool-cases, Option-cases, Bytes, length, All,
  SourceLocation, ok, ◌>>=◌, Ensures, holds, throws, Ensures-if, Ensures-bind,
}
use simp.Lexer.Token.{TokenType, Token, string, inline_body}
use simp.Lexer.Chars.{is_digit, is_identifier_start, is_identifier_part}
use simp.Lexer.Cursor.{Cursor, peek, advance, Scan, push_while, scan_from}
use simp.Lexer.Scanners.{scan_number, scan_word, scan_string, word_type}
use simp.Lexer.Blocks.{scan_inline_body, newline_at}
use simp.Lexer.Tokenize.{
  operator, depth_after, operator_tail, Lexing, emit, lex_operator, lex_token,
}
use simp.Lexer.Reads.{
  Reads, read_one, push_loop-Pushed, advance_ne-Reads, rest_ne, length-Reads, length-push_while_pos,
  Reads-trans,
}
use simp.Lexer.Numerals.{scan_number-Numbers}
use simp.Lexer.Literals.{scan_string-IsLiteral}
use simp.Lexer.Inline.{scan_inline_body-IsBody}
use simp.Lexer.Grammar.{Spells, word, number, literal, symbol, blank, newline, token, body}
use simp.Lexer.Comments.{At, At-next}

operator-operator_tail :
    (c next : ℕ) (t : TokenType) (two : Bool)
    → operator c next ≡ some (t, two)
    → operator_tail t c ≡ (if two then next ∷ [] else [])
unfolding operator
operator-operator_tail c next t two e = ground arith

operator-next : (c next : ℕ) (t : TokenType) → operator c next ≡ some (t, true) → next ≢ 0
unfolding operator
operator-next c next t e = ground arith

identifier_start-part : (c : ℕ) → is_identifier_start c ≡ true → is_identifier_part c ≡ true
unfolding is_identifier_part is_identifier_start
identifier_start-part c h = ground arith

not_part_zero : is_identifier_part 0 ≡ false
unfolding is_identifier_part is_identifier_start
not_part_zero = refl

Mem-cases : (b d : Bool) → (b || d) ≡ true → (b ≡ true) ⊎ (d ≡ true)
Mem-cases b d h = ground arith

module _ (l : SourceLocation) (source : Bytes) where
  -- The tokens account for what is read.
  abbrev pub Accounts : Lexing → Type 0
  Accounts s = At l source s.depth s.inline_header s.tokens s.cursor

  -- So they do in `s`, where fewer than `n` bytes are left.
  abbrev pub Progress : ℕ → Lexing → Type 0
  Progress n s = Accounts s × (length s.cursor.rest < n)

  abbrev made : Lexing → TokenType → Bool → Scan → Token
  made s t formatted scan = record {
    type_of = t;
    text = scan.text;
    location = s.cursor.at;
    formatted_string = formatted;
  }

  emit-Progress :
      (s : Lexing) (t : TokenType) (formatted : Bool) (scan : Scan) (src : Bytes) (n : ℕ)
      → Accounts s
      → length s.cursor.rest ≤ n
      → Reads s.cursor src scan.cursor
      → 0 < length src
      → Spells (made s t formatted scan) src s.depth s.depth
      → Progress n (emit s t formatted scan)
  emit-Progress s t formatted scan src n a le r pos spells = (
    At-next scan.cursor a src r
        (token (made s t formatted scan) a.lexed spells a.located refl refl refl),
    omega (arith, length-Reads s.cursor scan.cursor src r),
  )

  lex_number-Progress :
      (s : Lexing) (n : ℕ)
      → Accounts s
      → length s.cursor.rest ≤ n
      → (is_digit (peek 0 s.cursor) ≡ true) ⊎ (peek 0 s.cursor ≡ b'.')
      → Ensures (Progress n) (scan_number s.cursor >>= λ (t, scan). ok (emit s t false scan))
  lex_number-Progress s n a le h =
      Ensures-bind (scan_number-Numbers s.cursor h) λ (t, scan) (ty, r, pos).
        holds (emit-Progress s t false scan scan.text n a le r pos (number ty pos refl refl refl))

  lex_word-Progress :
      (s : Lexing) (n : ℕ)
      → Accounts s
      → length s.cursor.rest ≤ n
      → is_identifier_start (peek 0 s.cursor) ≡ true
      → Progress n (emit s (scan_word s.cursor).0 false (scan_word s.cursor).1)
  unfolding scan_word
  lex_word-Progress s n a le h =
      let scan = push_while is_identifier_part (scan_from s.cursor) in
      let run = push_loop-Pushed is_identifier_part [] s.cursor.rest s.cursor.at in
      let pos =
        length-push_while_pos is_identifier_part (scan_from s.cursor) (identifier_start-part _ h)
          not_part_zero in
      let whole =
        subst (λ x. Reads s.cursor x scan.cursor) (sym run.text_is) (run.splits, run.located) in
      emit-Progress s (word_type scan.text) false scan scan.text n a le whole pos (
        word refl (subst (All (λ c. is_identifier_part c ≡ true)) (sym run.text_is) run.passed) pos
          refl refl refl)

  lex_string-Progress :
      (s : Lexing) (n quote : ℕ)
      → Accounts s
      → length s.cursor.rest ≤ n
      → peek 0 s.cursor ≡ quote
      → (quote ≡ b'"') ⊎ (quote ≡ b'\'')
      → Ensures
          (Progress n)
          (scan_string quote s.cursor >>= λ text. ok (emit s string (quote == b'"') text))
  lex_string-Progress s n quote a le e q =
      Ensures-bind (scan_string-IsLiteral quote s.cursor e (ground arith)) λ scan x. holds (
        emit-Progress s string (quote == b'"') scan _ n a le x.reads (omega arith)
          (literal quote x.raw q refl refl x.denotes x.valid refl refl))

  lex_newline-Progress :
      (s : Lexing) (n : ℕ)
      → Accounts s
      → length s.cursor.rest ≤ n
      → peek 0 s.cursor ≡ b'\n'
      → Progress n (record s {
        cursor = advance s.cursor;
        tokens = if s.depth == 0 then s.tokens ++ newline_at s.cursor.at ∷ [] else s.tokens;
      })
  lex_newline-Progress s n a le e =
      let r = read_one s.cursor b'\n' e (λ z. ground arith) in
      elim (Bool-cases (s.depth == 0)) [
        | inl outside ↦ rw outside (
          At-next (advance s.cursor) a (b'\n' ∷ []) r (
              newline a.lexed (ground arith) refl
                (ap (λ x. s.tokens ++ newline_at x ∷ []) a.located)),
          omega (arith, length-Reads s.cursor (advance s.cursor) (b'\n' ∷ []) r),
        )
        | inr inside ↦ rw inside (
          At-next (advance s.cursor) a (b'\n' ∷ []) r
              (blank b'\n' a.lexed refl (λ _. ground arith) refl),
          omega (arith, length-Reads s.cursor (advance s.cursor) (b'\n' ∷ []) r),
        )
      ]

  lex_body-Progress :
      (s : Lexing) (n : ℕ)
      → Accounts s
      → length s.cursor.rest ≤ n
      → s.inline_header ≡ true
      → peek 0 s.cursor ≡ b'{'
      → Ensures (Progress n) (
          scan_inline_body (length s.cursor.rest + 1) s.cursor >>= λ scan.
          ok (record (emit s inline_body false scan) { inline_header = false }))
  lex_body-Progress s n a le h e =
      let opens = read_one s.cursor b'{' e (λ z. ground arith) in
      rw add-one (
        Ensures-bind (scan_inline_body-IsBody (length s.cursor.rest) s.cursor (omega arith))
          λ scan x.
            let src = b'{' ∷ (scan.text ++ b'}' ∷ []) in
            let r = Reads-trans s.cursor (advance s.cursor) scan.cursor (b'{' ∷ []) _ opens x in
            holds (
              At-next scan.cursor a src r (
                  body (made s inline_body false scan) a.lexed h refl refl a.located refl refl
                    refl),
              omega (arith, length-Reads s.cursor scan.cursor src r),
            ))

  symbol-Reads :
      (c : Cursor) (t : TokenType) (two : Bool)
      → c.rest ≢ []
      → operator (peek 0 c) (peek 0 (advance c)) ≡ some (t, two)
      → Reads c
          (peek 0 c ∷ (if two then peek 0 (advance c) ∷ [] else []))
          (if two then advance (advance c) else advance c)
  symbol-Reads c t false ne e = advance_ne-Reads c ne
  symbol-Reads c t true ne e =
      Reads-trans c (advance c) (advance (advance c)) (peek 0 c ∷ []) (peek 0 (advance c) ∷ [])
        (advance_ne-Reads c ne)
        (advance_ne-Reads (advance c) (rest_ne (advance c) (operator-next _ _ t e)))

  lex_symbol-Progress :
      (s : Lexing) (n : ℕ)
      → Accounts s
      → length s.cursor.rest ≤ n
      → s.cursor.rest ≢ []
      → (t : TokenType) (two : Bool)
      → operator (peek 0 s.cursor) (peek 0 (advance s.cursor)) ≡ some (t, two)
      → Progress n
          (record (emit s t false (record {
            text = peek 0 s.cursor ∷ operator_tail t (peek 0 s.cursor);
            cursor = if two then advance (advance s.cursor) else advance s.cursor;
          })) { depth = depth_after t s.depth })
  lex_symbol-Progress s n a le ne t two e =
      let c = peek 0 s.cursor in
      let next = peek 0 (advance s.cursor) in
      let text_is : c ∷ operator_tail t c ≡ c ∷ (if two then next ∷ [] else []) =
        ap (◌∷◌ c) (operator-operator_tail c next t two e) in
      let end = if two then advance (advance s.cursor) else advance s.cursor in
      let r = subst (λ x. Reads s.cursor x end) (sym text_is) (symbol-Reads s.cursor t two ne e) in
      (
        At-next end a (c ∷ operator_tail t c) r (
            token (made s t false (record { text = c ∷ operator_tail t c; cursor = end })) a.lexed
              (symbol c next two e refl text_is refl refl) a.located refl refl refl),
        omega (arith, length-Reads s.cursor end (c ∷ operator_tail t c) r),
      )

  lex_operator-Progress :
      (s : Lexing) (n : ℕ)
      → Accounts s
      → length s.cursor.rest ≤ n
      → s.cursor.rest ≢ []
      → Ensures (Progress n) (lex_operator s)
  unfolding lex_operator
  lex_operator-Progress s n a le ne =
      let c = peek 0 s.cursor in
      let first = advance s.cursor in
      elim (Option-cases (operator c (peek 0 first))) [
        | inl e ↦ rw (e, lex_operator) throws
        | inr ((t, two), e) ↦ rw (e, lex_operator) (holds (lex_symbol-Progress s n a le ne t two e))
      ]

  pub lex_token-Progress :
      (s : Lexing) (n : ℕ)
      → Accounts s
      → length s.cursor.rest ≤ n
      → s.cursor.rest ≢ []
      → Ensures (Progress n) (lex_token s)
  unfolding lex_token
  lex_token-Progress s n a le ne =
      let value = peek 0 s.cursor in
      let next = peek 1 s.cursor in
      Ensures-if (s.inline_header && value == b'{')
        (λ h. lex_body-Progress s n a le (ground arith) (ground arith))
        (λ _.
          Ensures-if (value == b'\n') (λ h. holds (lex_newline-Progress s n a le (ground arith)))
            (λ _.
              Ensures-if (is_digit value || (value == b'.' && is_digit next))
                (λ h. lex_number-Progress s n a le (ground arith))
                (λ _.
                  Ensures-if (is_identifier_start value) (λ h. holds (lex_word-Progress s n a le h))
                    (λ _.
                      Ensures-if (value == b'"' || value == b'\'')
                        (λ h. lex_string-Progress s n value a le refl (ground arith))
                        (λ _. lex_operator-Progress s n a le ne)))))
