-- ===== src/Lexer/Literals.antt =====
-- `scanString` and `scanInlineBody`: what they read, and that the fuel suffices.
use simp.Base.{
  ℕ, true, false, ◌&&◌, some, [], ◌∷◌, ◌++◌, append-nil, append_assoc, ◌≡◌, ◌≢◌, inl, inr, sym, ap,
  subst, ◌∙◌, arith, ◌==◌, Option-cases, Bytes, SourceLocation, Ensures, holds, throws, Ensures-if,
  Ensures-bind, Ensures-map,
}
use simp.Lexer.Chars.{is_valid_utf8}
use simp.Lexer.Cursor.{Cursor, step, peek, advance, Scan}
use simp.Lexer.Scanners.{is_line_end, escape_value, string_loop, scan_string}
use simp.Lexer.Reads.{after, after-append, Reads, advance-Reads}
use simp.Lexer.Grammar.{Denotes, nothing, plain, escape}

-- The rest of a literal behind text that is already read: what it denotes is put behind the text.
pub record Closes (quote : ℕ) (text rest : Bytes) (l : SourceLocation) (s : Scan) : Type 0 where
  pub raw : Bytes
  pub value : Bytes
  pub text_is : s.text ≡ text ++ value
  pub denotes : Denotes quote raw value
  pub splits : rest ≡ raw ++ (quote ∷ s.cursor.rest)
  pub located : s.cursor.at ≡ step (after l raw) quote

module _ (quote : ℕ) (l0 : SourceLocation) where
  Closes-end :
      (text rest : Bytes) (l : SourceLocation) (c : ℕ)
      → (c == quote) ≡ true
      → Closes quote text
          (c ∷ rest)
          l
          (record { text = text; cursor = record { rest = rest; at = step l c } })
  Closes-end text rest l c e =
      let c_is : c ≡ quote = ground arith in
      record {
        raw = [];
        value = [];
        text_is = sym (append-nil text);
        denotes = nothing;
        splits = ap (λ x. x ∷ rest) c_is;
        located = ap (step l) c_is;
      }

  Closes-plain :
      (text rest : Bytes) (l : SourceLocation) (c : ℕ) (s : Scan)
      → (c == quote) ≡ false
      → is_line_end c ≡ false
      → (quote == b'"' && c == b'\\') ≡ false
      → Closes quote (text ++ c ∷ []) rest (step l c) s
      → Closes quote text (c ∷ rest) l s
  Closes-plain text rest l c s ne nl esc h = record {
    raw = c ∷ h.raw;
    value = c ∷ h.value;
    text_is = h.text_is ∙ append_assoc text (c ∷ []) h.value;
    denotes = plain ne nl esc h.denotes;
    splits = ap (◌∷◌ c) h.splits;
    located = h.located;
  }

  Closes-escape :
      (text rest : Bytes) (l : SourceLocation) (c d e : ℕ) (s : Scan)
      → (quote == b'"' && c == b'\\') ≡ true
      → escape_value d ≡ some e
      → Closes quote (text ++ e ∷ []) rest (step (step l c) d) s
      → Closes quote text (c ∷ d ∷ rest) l s
  Closes-escape text rest l c d e s esc v h = record {
    raw = c ∷ d ∷ h.raw;
    value = e ∷ h.value;
    text_is = h.text_is ∙ append_assoc text (e ∷ []) h.value;
    denotes = escape esc v h.denotes;
    splits = ap (λ x. c ∷ d ∷ x) h.splits;
    located = h.located;
  }

  string_loop-Closes :
      (rest text : Bytes) (l : SourceLocation)
      → Ensures (Closes quote text rest l) (string_loop quote l0 text rest l)
  unfolding string_loop
  string_loop-Closes [] text l = throws
  string_loop-Closes (c ∷ []) text l =
      Ensures-if (c == quote) (λ e. holds (Closes-end text [] l c e))
        (λ _.
          Ensures-if (is_line_end c) (λ _. throws)
            (λ _. Ensures-if (quote == b'"' && c == b'\\') (λ _. throws) (λ _. throws)))
  string_loop-Closes (c ∷ d ∷ rest) text l =
      let plain_ih = string_loop-Closes (d ∷ rest) (text ++ c ∷ []) (step l c) in
      let escape_ih = λ (e : ℕ). string_loop-Closes rest (text ++ e ∷ []) (step (step l c) d) in
      Ensures-if (c == quote) (λ e. holds (Closes-end text (d ∷ rest) l c e))
        (λ ne.
          Ensures-if (is_line_end c) (λ _. throws)
            (λ nl.
              Ensures-if (quote == b'"' && c == b'\\')
                (λ esc. elim (Option-cases (escape_value d)) [
                  | inl none_e ↦ rw none_e throws
                  | inr (e, some_e) ↦ rw some_e (
                      Ensures-map (λ s. Closes-escape text rest l c d e s esc some_e) (escape_ih e))
                ])
                (λ esc. Ensures-map (λ s. Closes-plain text (d ∷ rest) l c s ne nl esc) plain_ih)))

-- What `scanString` reads: a quote, a denotation of the text, and the quote again.
pub record IsLiteral (quote : ℕ) (c : Cursor) (s : Scan) : Type 0 where
  pub raw : Bytes
  pub denotes : Denotes quote raw s.text
  pub valid : is_valid_utf8 s.text ≡ true
  pub reads : Reads c (quote ∷ (raw ++ quote ∷ [])) s.cursor

Closes-IsLiteral :
    (quote : ℕ) (c : Cursor) (s : Scan)
    → Reads c (quote ∷ []) (advance c)
    → Closes quote [] (advance c).rest (advance c).at s
    → is_valid_utf8 s.text ≡ true
    → IsLiteral quote c s
Closes-IsLiteral quote c s (r, l) h v = record {
  raw = h.raw;
  denotes = rw h.text_is h.denotes;
  valid = v;
  reads = (
    r ∙ ap (◌∷◌ quote) (h.splits ∙ sym (append_assoc h.raw (quote ∷ []) s.cursor.rest)),
    h.located
        ∙ ap (λ x. step (after x h.raw) quote) l
        ∙ sym (after-append (step c.at quote) h.raw (quote ∷ [])),
  );
}

pub scan_string-IsLiteral :
    (quote : ℕ) (c : Cursor)
    → peek 0 c ≡ quote
    → quote ≢ 0
    → Ensures (IsLiteral quote c) (scan_string quote c)
unfolding scan_string
scan_string-IsLiteral quote c e ne =
    let first : Reads c (quote ∷ []) (advance c) =
      subst (λ q. Reads c (q ∷ []) (advance c)) e (advance-Reads c (rw e ne)) in
    Ensures-bind (string_loop-Closes quote c.at (advance c).rest [] (advance c).at) λ s h.
      Ensures-if (is_valid_utf8 s.text) (λ v. holds (Closes-IsLiteral quote c s first h v))
        (λ _. throws)
