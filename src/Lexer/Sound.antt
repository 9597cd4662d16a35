-- ===== src/Lexer/Sound.antt =====
-- `tokenize` accounts for every byte of the source, and its fuel suffices.
use native.Mathlib.Numerals.{add-one}
use simp.Base.{
  ℕ, zero, suc, ◌≤◌, Bool, true, false, List, [], ◌∷◌, ◌++◌, append-nil, ◌≡◌, inl, inr, refl, sym,
  ap, subst, ◌∙◌, arith, Bool-cases, Bytes, length, SourceLocation, Outcome, ok, ◌>>=◌, Ensures,
  holds, Ensures-bind,
}
use simp.Lexer.Token.{Token, end_of_file}
use simp.Lexer.Cursor.{at_end}
use simp.Lexer.Tokenize.{Lexing, lex_token, finish, tokenize_loop, initial, tokenize}
use simp.Lexer.Reads.{after, at_end→ne, at_end→eq}
use simp.Lexer.Grammar.{Lexed, begin}
use simp.Lexer.Trivia.{skip_trivia-Left}
use simp.Lexer.Progress.{Accounts, Progress, lex_token-Progress}

-- The tokens of a source that is read whole: those of its lexical structure, and `End` behind it.
pub record IsTokenization (l : SourceLocation) (source : Bytes) (ts : List Token) : Type 0 where
  pub tokens : List Token
  pub depth : ℕ
  pub header : Bool
  pub ends :
      ts
      ≡ tokens
        ++ (record {
          type_of = end_of_file;
          text = [];
          location = after l source;
          formatted_string = false;
        }
            ∷ [])
  pub lexed : Lexed l source depth header tokens

module _ (l : SourceLocation) (source : Bytes) where
  finish-IsTokenization :
      (s : Lexing)
      → Accounts l source s
      → at_end s.cursor ≡ true
      → IsTokenization l source (finish s)
  finish-IsTokenization s a e =
      let whole : a.read ≡ source =
        sym (a.splits ∙ ap (λ r. a.read ++ r) (at_end→eq s.cursor e) ∙ append-nil a.read) in
      record {
        tokens = s.tokens;
        depth = s.depth;
        header = s.inline_header;
        ends =
            ap
              (λ x.
                s.tokens
                ++ (record {
                  type_of = end_of_file;
                  text = [];
                  location = x;
                  formatted_string = false;
                }
                    ∷ []))
              (a.located ∙ ap (after l) whole);
        lexed = subst (λ r. Lexed l r s.depth s.inline_header s.tokens) whole a.lexed;
      }

  -- A round of the loop behind the trivia, with the rest of the loop.
  round-IsTokenization :
      (n : ℕ) (s : Lexing) (loop : Lexing → Outcome (List Token))
      → ((s' : Lexing) → Progress l source n s' → Ensures (IsTokenization l source) (loop s'))
      → Accounts l source s
      → length s.cursor.rest ≤ n
      → Ensures
          (IsTokenization l source)
          (elim (at_end s.cursor) [ true ↦ ok (finish s) | false ↦ lex_token s >>= loop ])
  round-IsTokenization n s loop ih a le = elim (Bool-cases (at_end s.cursor)) [
    | inl over ↦ rw over (holds (finish-IsTokenization s a over))
    | inr more ↦
        rw more (Ensures-bind (lex_token-Progress l source s n a le (at_end→ne s.cursor more)) ih)
  ]

  loop_step-IsTokenization :
      (n : ℕ) (s : Lexing)
      → ((s' : Lexing)
          → Progress l source n s'
          → Ensures (IsTokenization l source) (tokenize_loop n s'))
      → Accounts l source s
      → length s.cursor.rest ≤ n
      → Ensures (IsTokenization l source) (tokenize_loop (suc n) s)
  unfolding tokenize_loop
  loop_step-IsTokenization n s ih a le = elim (Bool-cases (at_end s.cursor)) [
    | inl over ↦ rw (over, tokenize_loop) (holds (finish-IsTokenization s a over))
    | inr more ↦
        rw (more, tokenize_loop)
          (rw add-one (
            Ensures-bind
              (skip_trivia-Left l source s.depth s.inline_header (length s.cursor.rest) s.tokens
                s.cursor (a, omega arith))
              λ (ts, c) (a', le').
                round-IsTokenization n (record s { cursor = c; tokens = ts }) (tokenize_loop n) ih
                  a' (omega arith)))
  ]

  tokenize_loop-IsTokenization :
      (n : ℕ) (s : Lexing)
      → Accounts l source s
      → length s.cursor.rest ≤ n
      → Ensures (IsTokenization l source) (tokenize_loop (suc n) s)
  tokenize_loop-IsTokenization zero s =
      loop_step-IsTokenization zero s (λ s' p. absurd (omega arith))
  tokenize_loop-IsTokenization (suc n) s =
      loop_step-IsTokenization (suc n) s
        (λ s' p. tokenize_loop-IsTokenization n s' p.0 (omega arith))

-- On every source `tokenize` ends, within its fuel, in a diagnostic or in a tokenization: every byte
-- belongs to the spelling of one token or to blanks and comments between them, each token has the
-- location at which its spelling begins, and `End` is last, at the end of the source.
pub tokenize-IsTokenization :
    (source file : Bytes)
    → Ensures
        (IsTokenization (record { file = file; line = 1; column = 1 }) source)
        (tokenize source file)
unfolding tokenize
tokenize-IsTokenization source file = rw add-one (
    tokenize_loop-IsTokenization (record { file = file; line = 1; column = 1 }) source
      (length source) (initial source file)
      (record { read = []; splits = refl; located = refl; lexed = begin refl refl }) (omega arith))
