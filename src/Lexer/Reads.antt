-- ===== src/Lexer/Reads.antt =====
-- What a scan consumes: the bytes gathered are the bytes read, and the location counts them.
use simp.Base.{
  ℕ, ◌+◌, ◌≤◌, ◌<◌, Bool, true, false, [], ◌∷◌, ◌++◌, append-nil, append_assoc, ◌≡◌, ◌≢◌, ◌⊎◌, inl,
  inr, refl, sym, ap, subst, ◌∙◌, arith, Bool-cases, Bytes, length, length-append, All, get_or,
  SourceLocation,
}
use simp.Lexer.Cursor.{
  at_end, Cursor, step, peek, advance_from, advance, Scan, scan_from, push, push_loop, push_while,
}

-- The location behind `t`.
abbrev pub after : SourceLocation → Bytes → SourceLocation
after l [] = l
after l (c ∷ cs) = after (step l c) cs

pub after-append : (l : SourceLocation) (s t : Bytes) → after l (s ++ t) ≡ after (after l s) t
after-append l [] t = refl
after-append l (c ∷ s) t = after-append (step l c) s t

-- From `c` the bytes `t` are read, which leads to `d`.
abbrev pub Reads : Cursor → Bytes → Cursor → Type 0
Reads c t d = (c.rest ≡ t ++ d.rest) × (d.at ≡ after c.at t)

abbrev pub Scanned : Cursor → Scan → Type 0
Scanned c s = Reads c s.text s.cursor

pub Reads-trans : (c d e : Cursor) (s t : Bytes) → Reads c s d → Reads d t e → Reads c (s ++ t) e
Reads-trans c d e s t (r, l) (r', l') = (
  r ∙ ap (λ u. s ++ u) r' ∙ sym (append_assoc s t e.rest),
  l' ∙ ap (λ u. after u t) l ∙ sym (after-append c.at s t),
)

advance_from-Reads :
    (cs : Bytes) (l : SourceLocation)
    → get_or cs 0 0 ≢ 0
    → Reads (record { rest = cs; at = l }) (get_or cs 0 0 ∷ []) (advance_from cs l)
advance_from-Reads [] l h = absurd (h refl)
advance_from-Reads (c ∷ cs) l h = (refl, refl)

-- A byte that is not `'\0'` is there to be read.
pub advance-Reads : (c : Cursor) → peek 0 c ≢ 0 → Reads c (peek 0 c ∷ []) (advance c)
advance-Reads c h = advance_from-Reads c.rest c.at h

advance_from_ne-Reads :
    (cs : Bytes) (l : SourceLocation)
    → cs ≢ []
    → Reads (record { rest = cs; at = l }) (get_or cs 0 0 ∷ []) (advance_from cs l)
advance_from_ne-Reads [] l h = absurd (h refl)
advance_from_ne-Reads (c ∷ cs) l h = (refl, refl)

pub advance_ne-Reads : (c : Cursor) → c.rest ≢ [] → Reads c (peek 0 c ∷ []) (advance c)
advance_ne-Reads c h = advance_from_ne-Reads c.rest c.at h

pub rest_ne : (c : Cursor) → peek 0 c ≢ 0 → c.rest ≢ []
rest_ne c h e = h (ap (λ cs. get_or cs 0 0) e)

pub at_end→eq : (c : Cursor) → at_end c ≡ true → c.rest ≡ []
at_end→eq c h = ground arith

pub at_end→ne : (c : Cursor) → at_end c ≡ false → c.rest ≢ []
at_end→ne c h = ground arith

pub length_pos : (cs : Bytes) → cs ≢ [] → 0 < length cs
length_pos [] h = absurd (h refl)
length_pos (c ∷ cs) h = omega arith

length-advance_from :
    (cs : Bytes) (l : SourceLocation) → length (advance_from cs l).rest ≤ length cs
length-advance_from [] l = omega arith
length-advance_from (c ∷ cs) l = omega arith

pub length-advance : (c : Cursor) {n : ℕ} → length c.rest ≤ n → length (advance c).rest ≤ n
length-advance c h = omega (arith, length-advance_from c.rest c.at)

advance_from-peek :
    (cs : Bytes) (l : SourceLocation) → get_or (advance_from cs l).rest 0 0 ≡ get_or cs 1 0
advance_from-peek [] l = refl
advance_from-peek (c ∷ cs) l = refl

pub advance-peek : (c : Cursor) → peek 0 (advance c) ≡ peek 1 c
advance-peek c = advance_from-peek c.rest c.at

pub read_one : (c : Cursor) (x : ℕ) → peek 0 c ≡ x → x ≢ 0 → Reads c (x ∷ []) (advance c)
read_one c x e ne = subst (λ q. Reads c (q ∷ []) (advance c)) e (advance-Reads c (rw e ne))

pub read_two :
    (c : Cursor) (x y : ℕ)
    → peek 0 c ≡ x
    → peek 1 c ≡ y
    → x ≢ 0
    → y ≢ 0
    → Reads c (x ∷ y ∷ []) (advance (advance c))
read_two c x y e e' ne ne' =
    Reads-trans c (advance c) (advance (advance c)) (x ∷ []) (y ∷ []) (read_one c x e ne)
      (read_one (advance c) y (advance-peek c ∙ e') ne')

pub push-Scanned : (c : Cursor) (s : Scan) → Scanned c s → peek 0 s.cursor ≢ 0 → Scanned c (push s)
push-Scanned c s h ne = Reads-trans c s.cursor _ s.text _ h (advance-Reads s.cursor ne)

-- What `push_loop` does: it takes the longest run of bytes that pass the test.
pub record Pushed (p : ℕ → Bool) (text rest : Bytes) (l : SourceLocation) (s : Scan) : Type 0 where
  pub taken : Bytes
  pub text_is : s.text ≡ text ++ taken
  pub splits : rest ≡ taken ++ s.cursor.rest
  pub located : s.cursor.at ≡ after l taken
  pub passed : All (λ c. p c ≡ true) taken
  pub stops : (s.cursor.rest ≡ []) ⊎ (p (peek 0 s.cursor) ≡ false)

pub push_loop-Pushed :
    (p : ℕ → Bool) (text rest : Bytes) (l : SourceLocation)
    → Pushed p text rest l (push_loop p text rest l)
unfolding push_loop
push_loop-Pushed p text [] l = record {
  taken = [];
  text_is = sym (append-nil text);
  splits = refl;
  located = refl;
  passed = tt;
  stops = inl refl;
}
push_loop-Pushed p text (c ∷ cs) l = elim (Bool-cases (p c)) [
  | inl yes_c ↦ rw yes_c (
      let more = push_loop-Pushed p (text ++ c ∷ []) cs (step l c) in
      record {
        taken = c ∷ more.taken;
        text_is = more.text_is ∙ append_assoc text (c ∷ []) more.taken;
        splits = ap (◌∷◌ c) more.splits;
        located = more.located;
        passed = (yes_c, more.passed);
        stops = more.stops;
      })
  | inr no_c ↦ rw no_c (record {
    taken = [];
    text_is = sym (append-nil text);
    splits = refl;
    located = refl;
    passed = tt;
    stops = inr no_c;
  })
]

pub push_while-Scanned :
    (p : ℕ → Bool) (c : Cursor) (s : Scan) → Scanned c s → Scanned c (push_while p s)
push_while-Scanned p c s h =
    let run = push_loop-Pushed p s.text s.cursor.rest s.cursor.at in
    let both =
      Reads-trans c s.cursor (push_while p s).cursor s.text run.taken h (run.splits, run.located) in
    rw run.text_is both

pub scan_from-Scanned : (c : Cursor) → Scanned c (scan_from c)
scan_from-Scanned c = (refl, refl)

pub length-push_while : (p : ℕ → Bool) (s : Scan) → length s.text ≤ length (push_while p s).text
length-push_while p s =
    let run = push_loop-Pushed p s.text s.cursor.rest s.cursor.at in
    omega (arith, ap length run.text_is, length-append s.text run.taken)

length-push_loop_pos :
    (p : ℕ → Bool) (text cs : Bytes) (l : SourceLocation)
    → p (get_or cs 0 0) ≡ true
    → p 0 ≡ false
    → length text < length (push_loop p text cs l).text
unfolding push_loop
length-push_loop_pos p text [] l h z = cc
length-push_loop_pos p text (c ∷ cs) l h z = rw h (
    let run = push_loop-Pushed p (text ++ c ∷ []) cs (step l c) in
    omega (
      arith,
      ap length run.text_is,
      length-append (text ++ c ∷ []) run.taken,
      length-append text (c ∷ []),
    ))

-- A first byte that passes the test is taken.
pub length-push_while_pos :
    (p : ℕ → Bool) (s : Scan)
    → p (peek 0 s.cursor) ≡ true
    → p 0 ≡ false
    → length s.text < length (push_while p s).text
length-push_while_pos p s = length-push_loop_pos p s.text s.cursor.rest s.cursor.at

-- The bytes left are those not read.
pub length-Reads :
    (c d : Cursor) (t : Bytes) → Reads c t d → length c.rest ≡ length t + length d.rest
length-Reads c d t (r, _) = ap length r ∙ length-append t d.rest
