-- ===== src/Lexer/Inline.antt =====
-- `scanInlineBody`: what it reads, and that the fuel suffices.
use simp.Base.{
  ℕ, zero, suc, ◌-◌, ◌≤◌, ◌<◌, Bool, true, false, ◌&&◌, ◌||◌, [], ◌∷◌, ◌++◌, append_assoc, ◌≡◌, ◌≢◌,
  ◌⊎◌, inl, inr, sym, ap, subst, ◌∙◌, arith, ◌==◌, if◌then◌else◌, Bool-cases, Option-cases, length,
  length-append, SourceLocation, Ensures, holds, throws, Ensures-if, Ensures-bind,
}
use simp.Lexer.Cursor.{at_end, Cursor, peek, advance, Scan, scan_from, push, push_while}
use simp.Lexer.Blocks.{
  in_line, quoted_loop, c_comment_loop, inline_round, inline_loop, scan_inline_body,
}
use simp.Lexer.Reads.{
  after, after-append, Reads, Reads-trans, Scanned, advance-peek, push_while-Scanned,
  scan_from-Scanned, length-Reads, advance_ne-Reads, rest_ne, at_end→ne, length_pos, length-advance,
  push_loop-Pushed,
}
use simp.Lexer.Appended.{Appended, quoted_loop-Appended, c_comment_loop-Appended}

-- What is left of a scan that began at `c`: at most `n` bytes.
abbrev Goes : Cursor → ℕ → Scan → Type 0
Goes c n s = Scanned c s × (length s.cursor.rest ≤ n)

Appended-Goes :
    (c : Cursor) (n : ℕ) (s t : Scan)
    → Goes c n s
    → Appended s.text s.cursor.rest s.cursor.at t
    → Goes c n t
Appended-Goes c n s t ((r, l), le) a = (
  (
    r
        ∙ ap (λ x. s.text ++ x) a.splits
        ∙ sym (append_assoc s.text a.taken t.cursor.rest)
        ∙ ap (λ x. x ++ t.cursor.rest) (sym a.text_is),
    a.located
        ∙ ap (λ x. after x a.taken) l
        ∙ sym (after-append c.at s.text a.taken)
        ∙ ap (after c.at) (sym a.text_is),
  ),
  omega (arith, ap length a.splits, length-append a.taken t.cursor.rest),
)

-- A byte is left, so that a push reads it.
push-Goes :
    (c : Cursor) (n m : ℕ) (s : Scan)
    → Goes c n s
    → s.cursor.rest ≢ []
    → n ≤ suc m
    → Goes c m (push s)
push-Goes c n m s (h, le) ne lt =
    let first = advance_ne-Reads s.cursor ne in
    (
      Reads-trans c s.cursor (advance s.cursor) s.text (peek 0 s.cursor ∷ []) h first,
      omega (arith, length-Reads s.cursor (advance s.cursor) (peek 0 s.cursor ∷ []) first),
    )

push_while-Goes :
    (p : ℕ → Bool) (c : Cursor) (n : ℕ) (s : Scan) → Goes c n s → Goes c n (push_while p s)
push_while-Goes p c n s (h, le) =
    let run = push_loop-Pushed p s.text s.cursor.rest s.cursor.at in
    (
      push_while-Scanned p c s h,
      omega (arith, ap length run.splits, length-append run.taken (push_while p s).cursor.rest),
    )

-- A round closes the body, or goes on at a positive depth.
abbrev Round : Cursor → ℕ → ℕ × Scan → Type 0
Round c n (depth, t) =
    ((depth ≡ 0) × Reads c (t.text ++ b'}' ∷ []) t.cursor) ⊎ ((0 < depth) × Goes c n t)

close_brace-Round :
    (c : Cursor) (depth n : ℕ) (s : Scan)
    → 0 < depth
    → Goes c (suc n) s
    → s.cursor.rest ≢ []
    → (peek 0 s.cursor == b'}') ≡ true
    → Round c n (
      depth - 1,
      if depth == 1 then record { text = s.text; cursor = advance s.cursor } else push s,
    )
close_brace-Round c depth n s pos g ne v = elim (Bool-cases (depth == 1)) [
  | inl one ↦ rw one (
      inl (
        ground arith,
        subst (λ b. Reads c (s.text ++ b ∷ []) (advance s.cursor)) (ground arith)
            (push-Goes c (suc n) n s g ne (omega arith)).0,
      ))
  | inr more ↦ rw more (inr (ground arith, push-Goes c (suc n) n s g ne (omega arith)))
]

inline_round-Round :
    (c : Cursor) (l : SourceLocation) (depth n : ℕ) (s : Scan)
    → 0 < depth
    → Goes c (suc n) s
    → s.cursor.rest ≢ []
    → Ensures (Round c n) (inline_round l depth s)
unfolding inline_round
inline_round-Round c l depth n s pos g ne =
    let value = peek 0 s.cursor in
    let next = peek 1 s.cursor in
    let one = push s in
    let two = push one in
    let g1 = push-Goes c (suc n) n s g ne (omega arith) in
    let read_two = λ (h : next ≢ 0).
      push-Goes c n n one g1 (rest_ne one.cursor (rw (advance-peek s.cursor) h)) (omega arith) in
    Ensures-if (value == b'"' || value == b'\'')
      (λ _. elim (Option-cases (quoted_loop value one.text one.cursor.rest one.cursor.at)) [
        | inl e ↦ rw e throws
        | inr (t, e) ↦ rw e (
            holds (
              inr (
                pos,
                Appended-Goes c n one t g1
                    (quoted_loop-Appended value one.text one.cursor.rest one.cursor.at t e),
              )))
      ])
      (λ _.
        Ensures-if (value == b'/' && next == b'/')
          (λ slash. holds (inr (pos, push_while-Goes in_line c n two (read_two (ground arith)))))
          (λ _.
            Ensures-if (value == b'/' && next == b'*')
              (λ star. elim (Option-cases (c_comment_loop two.text two.cursor.rest two.cursor.at)) [
                | inl e ↦ rw e throws
                | inr (t, e) ↦ rw e (
                    holds (
                      inr (
                        pos,
                        Appended-Goes c n two t (read_two (ground arith))
                            (c_comment_loop-Appended two.text two.cursor.rest two.cursor.at t e),
                      )))
              ])
              (λ _.
                Ensures-if (value == b'{') (λ _. holds (inr (omega arith, g1)))
                  (λ _.
                    Ensures-if (value == b'}')
                      (λ v. holds (close_brace-Round c depth n s pos g ne v))
                      (λ _. holds (inr (pos, g1)))))))

-- A body is its text and a closing brace.
abbrev pub IsBody : Cursor → Scan → Type 0
IsBody c t = Reads c (t.text ++ b'}' ∷ []) t.cursor

inline_loop-IsBody :
    (fuel : ℕ) (c : Cursor) (l : SourceLocation) (depth : ℕ) (s : Scan)
    → 0 < depth
    → Goes c fuel s
    → Ensures (IsBody c) (inline_loop (suc fuel) l depth s)
unfolding inline_loop
inline_loop-IsBody zero c l depth s pos (h, le) = elim (Bool-cases (at_end s.cursor)) [
  | inl over ↦ rw (over, inline_loop) throws
  | inr more ↦ let left = length_pos s.cursor.rest (at_end→ne s.cursor more) in absurd (omega arith)
]
inline_loop-IsBody (suc n) c l depth s pos g = elim (Bool-cases (at_end s.cursor)) [
  | inl over ↦ rw (over, inline_loop) throws
  | inr more ↦
      rw (more, inline_loop)
        (Ensures-bind (inline_round-Round c l depth n s pos g (at_end→ne s.cursor more))
          λ (depth', t) r. elim r [
            | inl (z, h) ↦ let e : (depth' == 0) ≡ true = ground arith in rw e (holds h)
            | inr (p, g') ↦
                let e : (depth' == 0) ≡ false = ground arith in
                rw e (inline_loop-IsBody n c l depth' t p g')
          ])
]

-- An inline block is read up to the brace that closes it, and the fuel suffices.
pub scan_inline_body-IsBody :
    (fuel : ℕ) (c : Cursor)
    → length c.rest ≤ fuel
    → Ensures (IsBody (advance c)) (scan_inline_body (suc fuel) c)
unfolding scan_inline_body
scan_inline_body-IsBody fuel c h =
    inline_loop-IsBody fuel (advance c) c.at 1 (scan_from (advance c)) (omega arith)
      (scan_from-Scanned (advance c), length-advance c h)
