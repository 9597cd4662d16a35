-- ===== src/Lexer/Trivia.antt =====
-- `skipTrivia`: what it passes over, and that the fuel suffices.
use simp.Base.{
  ℕ, zero, suc, ◌≤◌, ◌<◌, Bool, true, false, ◌&&◌, ◌||◌, List, [], ◌∷◌, ◌++◌, append_assoc, ◌≡◌,
  ◌≢◌, inl, inr, refl, sym, ap, subst, ap₂, ◌∙◌, arith, ◌==◌, Bool-cases, Option-cases, Bytes,
  codes, length, length-append, get_or, All, All-suffix, SourceLocation, ok, Ensures, holds, throws,
  Ensures-if, Ensures-bind, Ensures-map,
}
use simp.Lexer.Token.{Token}
use simp.Lexer.Cursor.{Cursor, peek, advance, scan_from, push_while, skip_while}
use simp.Lexer.Blocks.{in_line, comment_loop, trivia_round, skip_trivia}
use simp.Lexer.Reads.{
  after, after-append, Reads-trans, Pushed, push_loop-Pushed, read_two, length-Reads,
}
use simp.Lexer.Grammar.{line_comment, block_comment, newlines_onto, IsMark}
use simp.Lexer.Comments.{
  At, At-next, is_blank, Lexed-blanks, run_head, run_second, IsComment, comment_loop-IsComment,
}

IsMark-pos : (m : Bytes) → IsMark m → 0 < length m
IsMark-pos m (inl e) = omega (arith, ap length e)
IsMark-pos m (inr (inl e)) = omega (arith, ap length e)
IsMark-pos m (inr (inr e)) = omega (arith, ap length e)

-- The run to the end of the line from `c`.
abbrev to_line_end : (c : Cursor) → Pushed in_line [] c.rest c.at (push_while in_line (scan_from c))
to_line_end c = push_loop-Pushed in_line [] c.rest c.at

one_mark :
    (c : Cursor) (b : ℕ)
    → peek 0 c ≡ b
    → in_line b ≡ true
    → b ≢ 0
    → (t : Bytes) × ((to_line_end c).taken ≡ b ∷ t)
one_mark c b e h ne =
    let run = to_line_end c in
    let first = ap (λ cs. get_or cs 0 0) (sym run.splits) ∙ e in
    let (t, is) =
      run_head in_line run.taken (skip_while in_line c).rest run.stops (ap in_line first ∙ h)
        (λ z. ne (sym first ∙ z)) in
    (t, is ∙ ap (λ x. x ∷ t) first)

two_slashes :
    (c : Cursor)
    → peek 0 c ≡ b'/'
    → peek 1 c ≡ b'/'
    → (t : Bytes) × ((to_line_end c).taken ≡ codes "//" ++ t)
two_slashes c e e' =
    let run = to_line_end c in
    let first = ap (λ cs. get_or cs 0 0) (sym run.splits) ∙ e in
    let second = ap (λ cs. get_or cs 1 0) (sym run.splits) ∙ e' in
    let (t, is) =
      run_second in_line run.taken (skip_while in_line c).rest run.stops (ap in_line first)
        (ap in_line second) (λ z. ground arith) (λ z. ground arith) in
    (t, is ∙ ap₂ (λ x y. x ∷ y ∷ t) first second)

module _ (l : SourceLocation) (source : Bytes) (depth : ℕ) (header : Bool) where
  -- The tokens account for what is read up to `d`, which leaves `n` bytes at most.
  abbrev pub Left : ℕ → List Token → Cursor → Type 0
  Left n ts d = At l source depth header ts d × (length d.rest ≤ n)

  abbrev pub Shorter : ℕ → List Token → Cursor → Type 0
  Shorter n ts d = At l source depth header ts d × (length d.rest < n)

  -- A round passes over trivia; if it is to be repeated, bytes were read.
  abbrev Passes : ℕ → Bool × List Token × Cursor → Type 0
  Passes n (true, ts, d) = Shorter n ts d
  Passes n (false, ts, d) = Left n ts d

  blanks-Left :
      (n : ℕ) (ts : List Token) (c : Cursor) → Left n ts c → Left n ts (skip_while is_blank c)
  blanks-Left n ts c (a, le) =
      let run = push_loop-Pushed is_blank [] c.rest c.at in
      (
        At-next (skip_while is_blank c) a run.taken (run.splits, run.located)
            (Lexed-blanks run.taken _ a.lexed run.passed refl),
        omega (arith, length-Reads c (skip_while is_blank c) run.taken (run.splits, run.located)),
      )

  line-Shorter :
      (n : ℕ) (ts : List Token) (c : Cursor) (mark body : Bytes)
      → Left n ts c
      → IsMark mark
      → (to_line_end c).taken ≡ mark ++ body
      → Shorter n ts (skip_while in_line c)
  line-Shorter n ts c mark body (a, le) m e =
      let run = to_line_end c in
      (
        At-next (skip_while in_line c) a run.taken (run.splits, run.located)
            (line_comment mark body a.lexed m
              (All-suffix (λ x. in_line x ≡ true) mark body
                (subst (All (λ x. in_line x ≡ true)) e run.passed))
              (ap (λ t. a.read ++ t) e)),
        omega (
          arith,
          IsMark-pos mark m,
          ap length e,
          length-append mark body,
          length-Reads c (skip_while in_line c) run.taken (run.splits, run.located),
        ),
      )

  block-Shorter :
      (n : ℕ) (ts ts' : List Token) (c d : Cursor)
      → Left n ts c
      → peek 0 c ≡ b'/'
      → peek 1 c ≡ b'*'
      → IsComment depth ts (advance (advance c)).rest (advance (advance c)).at ts' d
      → Shorter n ts' d
  block-Shorter n ts ts' c d (a, le) e e' x =
      let start = advance (advance c) in
      let opens = read_two c b'/' b'*' e e' (λ z. ground arith) (λ z. ground arith) in
      let reads =
        Reads-trans c start d (codes "/*") (x.body ++ codes "*/") opens
          (x.splits ∙ sym (append_assoc x.body (codes "*/") d.rest), x.located) in
      let located : start.at ≡ after l (a.read ++ codes "/*") =
        opens.1
        ∙ ap (λ u. after u (codes "/*")) a.located
        ∙ sym (after-append l a.read (codes "/*")) in
      (
        At-next d a (codes "/*" ++ (x.body ++ codes "*/")) reads (
            block_comment x.body a.lexed x.open_body refl
              (x.tokens_are ∙ ap (λ u. newlines_onto depth ts u x.body) located)),
        omega (arith, length-Reads c d (codes "/*" ++ (x.body ++ codes "*/")) reads),
      )

  trivia_round-Passes :
      (n : ℕ) (ts : List Token) (c : Cursor)
      → Left n ts c
      → Ensures (Passes n) (trivia_round depth ts c)
  unfolding trivia_round
  trivia_round-Passes n ts c a =
      let here = skip_while is_blank c in
      let b = blanks-Left n ts c a in
      let body = advance (advance here) in
      let slash = peek 0 here == b'/' in
      Ensures-if (peek 0 here == b';' || peek 0 here == b'#')
        (λ h. elim (Bool-cases (peek 0 here == b';')) [
          | inl semicolon ↦
              let (t, e) = one_mark here b';' (ground arith) refl (λ z. ground arith) in
              holds (line-Shorter n ts here (codes ";") t b (inr (inl refl)) e)
          | inr other ↦
              let (t, e) = one_mark here b'#' (ground arith) refl (λ z. ground arith) in
              holds (line-Shorter n ts here (codes "#") t b (inl refl) e)
        ])
        (λ _.
          Ensures-if (slash && peek 1 here == b'/')
            (λ h.
              let (t, e) = two_slashes here (ground arith) (ground arith) in
              holds (line-Shorter n ts here (codes "//") t b (inr (inr refl)) e))
            (λ _.
              Ensures-if (slash && peek 1 here == b'*')
                (λ h. elim (Option-cases (comment_loop depth ts body.rest body.at)) [
                  | inl e ↦ rw e throws
                  | inr ((ts', d), e) ↦ rw e (
                      holds (
                        block-Shorter n ts ts' here d b (ground arith) (ground arith)
                          (comment_loop-IsComment depth ts body.rest body.at ts' d e)))
                ])
                (λ _. holds b)))

  continue-Left :
      (n : ℕ) (r : Bool × List Token × Cursor)
      → ((ts : List Token) (d : Cursor)
          → Shorter n ts d
          → Ensures (λ (ts', e). Left n ts' e) (skip_trivia n depth ts d))
      → Passes n r
      → Ensures
          (λ (ts', e). Left n ts' e)
          (elim r.0 [ true ↦ skip_trivia n depth r.1 r.2 | false ↦ ok (r.1, r.2) ])
  continue-Left n (true, ts, d) again p = again ts d p
  continue-Left n (false, ts, d) again p = holds p

  -- Behind the trivia the tokens still account for what is read, and the fuel suffices.
  pub skip_trivia-Left :
      (n : ℕ) (ts : List Token) (c : Cursor)
      → Left n ts c
      → Ensures (λ (ts', d). Left n ts' d) (skip_trivia (suc n) depth ts c)
  unfolding skip_trivia
  skip_trivia-Left zero ts c a =
      Ensures-bind (trivia_round-Passes zero ts c a)
        λ r. continue-Left zero r (λ ts' d s. absurd (omega arith))
  skip_trivia-Left (suc n) ts c a = Ensures-bind (trivia_round-Passes (suc n) ts c a) λ r.
      continue-Left (suc n) r λ ts' d s.
        Ensures-map (λ (ts'', e) q. (q.0, omega arith))
          (skip_trivia-Left n ts' d (s.0, omega arith))
