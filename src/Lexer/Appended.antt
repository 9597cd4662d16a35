-- ===== src/Lexer/Appended.antt =====
-- Strings and comments in an inline body of src/Lexer.cpp.
use simp.Base.{
  ℕ, ◌&&◌, some, [], ◌∷◌, ◌++◌, append_assoc, ◌≡◌, inl, inr, sym, ap, ◌∙◌, ◌==◌, Bool-cases, Bytes,
  SourceLocation,
}
use simp.Lexer.Cursor.{step, Scan}
use simp.Lexer.Blocks.{quoted_loop, c_comment_loop}
use simp.Lexer.Reads.{after}

-- A loop has put bytes of `rest` behind the text.
pub record Appended (text rest : Bytes) (l : SourceLocation) (s : Scan) : Type 0 where
  pub taken : Bytes
  pub text_is : s.text ≡ text ++ taken
  pub splits : rest ≡ taken ++ s.cursor.rest
  pub located : s.cursor.at ≡ after l taken

Appended-cons :
    (text rest : Bytes) (l : SourceLocation) (c : ℕ) (s : Scan)
    → Appended (text ++ c ∷ []) rest (step l c) s
    → Appended text (c ∷ rest) l s
Appended-cons text rest l c s a = record {
  taken = c ∷ a.taken;
  text_is = a.text_is ∙ append_assoc text (c ∷ []) a.taken;
  splits = ap (◌∷◌ c) a.splits;
  located = a.located;
}

Appended-two :
    (text rest : Bytes) (l : SourceLocation) (c d : ℕ) (s : Scan)
    → Appended (text ++ c ∷ d ∷ []) rest (step (step l c) d) s
    → Appended text (c ∷ d ∷ rest) l s
Appended-two text rest l c d s a = record {
  taken = c ∷ d ∷ a.taken;
  text_is = a.text_is ∙ append_assoc text (c ∷ d ∷ []) a.taken;
  splits = ap (λ x. c ∷ d ∷ x) a.splits;
  located = a.located;
}

Appended-all :
    (text taken rest : Bytes) (l : SourceLocation) (s : Scan)
    → record { text = text ++ taken; cursor = record { rest = rest; at = after l taken } } ≡ s
    → Appended text (taken ++ rest) l s
Appended-all text taken rest l s e = record {
  taken = taken;
  text_is = sym (ap (λ x. x.text) e);
  splits = ap (λ x. taken ++ x.cursor.rest) e;
  located = sym (ap (λ x. x.cursor.at) e);
}

pub quoted_loop-Appended :
    (quote : ℕ) (text rest : Bytes) (l : SourceLocation) (s : Scan)
    → quoted_loop quote text rest l ≡ some s
    → Appended text rest l s
unfolding quoted_loop
quoted_loop-Appended quote text [] l s e = cc
quoted_loop-Appended quote text (c ∷ []) l s e = elim (Bool-cases (c == quote)) [
  | inl q ↦ Appended-all text (c ∷ []) [] l s (cc (rw q at e))
  | inr q ↦ cc (rw q at e)
]
quoted_loop-Appended quote text (c ∷ d ∷ rest) l s e =
    let next = quoted_loop-Appended quote (text ++ c ∷ []) (d ∷ rest) (step l c) s in
    let escaped = quoted_loop-Appended quote (text ++ c ∷ d ∷ []) rest (step (step l c) d) s in
    elim (Bool-cases (c == b'\\')) [
      | inl b ↦ Appended-two text rest l c d s (escaped (rw b at e))
      | inr b ↦ elim (Bool-cases (c == quote)) [
        | inl q ↦ Appended-all text (c ∷ []) (d ∷ rest) l s (cc (rw (b, q) at e))
        | inr q ↦ Appended-cons text (d ∷ rest) l c s (next (rw (b, q) at e))
      ]
    ]

pub c_comment_loop-Appended :
    (text rest : Bytes) (l : SourceLocation) (s : Scan)
    → c_comment_loop text rest l ≡ some s
    → Appended text rest l s
unfolding c_comment_loop
c_comment_loop-Appended text [] l s e = cc
c_comment_loop-Appended text (c ∷ []) l s e = cc
c_comment_loop-Appended text (c ∷ d ∷ rest) l s e =
    let next = c_comment_loop-Appended (text ++ c ∷ []) (d ∷ rest) (step l c) s in
    elim (Bool-cases (c == b'*' && d == b'/')) [
      | inl q ↦ Appended-all text (c ∷ d ∷ []) rest l s (cc (rw q at e))
      | inr q ↦ Appended-cons text (d ∷ rest) l c s (next (rw q at e))
    ]
