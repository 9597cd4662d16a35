-- ===== src/Lexer/Comments.antt =====
-- Blanks and block comments in `skipTrivia` of src/Lexer.cpp.
use mathlib.Core.Path.{subst₂}
use simp.Base.{
  ℕ, Bool, true, false, ◌&&◌, Option, some, List, [], ◌∷◌, ◌++◌, append-nil, append_assoc, ◌≡◌, ◌≢◌,
  ◌⊎◌, inl, inr, refl, sym, ap, subst, ◌∙◌, arith, ◌==◌, if◌then◌else◌, Bool-cases, Bytes, codes,
  get_or, All, SourceLocation,
}
use simp.Lexer.Token.{Token}
use simp.Lexer.Chars.{is_space}
use simp.Lexer.Cursor.{Cursor, step}
use simp.Lexer.Blocks.{in_line, add_newline, comment_loop}
use simp.Lexer.Reads.{after, after-append, Reads}
use simp.Lexer.Grammar.{Lexed, blank, has_close, newlines_onto}

-- The lexer has read a part of the source, which the tokens account for.
pub record At (l : SourceLocation) (source : Bytes) (depth : ℕ) (header : Bool) (ts : List Token)
    (c : Cursor) : Type 0 where
  pub read : Bytes
  pub splits : source ≡ read ++ c.rest
  pub located : c.at ≡ after l read
  pub lexed : Lexed l read depth header ts

module _ {l : SourceLocation} {source : Bytes} where
  pub At-next :
      {depth depth' : ℕ} {header header' : Bool} {ts ts' : List Token} {c : Cursor} (d : Cursor)
      (a : At l source depth header ts c) (t : Bytes)
      → Reads c t d
      → Lexed l (a.read ++ t) depth' header' ts'
      → At l source depth' header' ts' d
  At-next d a t (r, at) x = record {
    read = a.read ++ t;
    splits = a.splits ∙ ap (λ u. a.read ++ u) r ∙ sym (append_assoc a.read t d.rest);
    located = at ∙ ap (λ u. after u t) a.located ∙ sym (after-append l a.read t);
    lexed = x;
  }

abbrev pub is_blank : ℕ → Bool
is_blank c = in_line c && is_space c

pub Lexed-blanks :
    {l : SourceLocation} {read : Bytes} {depth : ℕ} {header : Bool} {ts : List Token}
    (g read' : Bytes)
    → Lexed l read depth header ts
    → All (λ c. is_blank c ≡ true) g
    → read' ≡ read ++ g
    → Lexed l read' depth header ts
Lexed-blanks {l} {read} {depth} {header} {ts} [] read' x h e =
    subst (λ r. Lexed l r depth header ts) (sym (e ∙ append-nil read)) x
Lexed-blanks {read} (c ∷ g) read' x (hc, h) e =
    Lexed-blanks {read = read ++ c ∷ []} g read'
      (blank c x (ground arith) (λ n. absurd (ground arith)) refl) h
      (e ∙ sym (append_assoc read (c ∷ []) g))

-- The first bytes of a run that stopped only where the test fails.
pub run_head :
    (p : ℕ → Bool) (taken left : Bytes)
    → (left ≡ []) ⊎ (p (get_or left 0 0) ≡ false)
    → p (get_or (taken ++ left) 0 0) ≡ true
    → get_or (taken ++ left) 0 0 ≢ 0
    → (t : Bytes) × (taken ≡ get_or (taken ++ left) 0 0 ∷ t)
run_head p [] left (inl e) h ne = absurd (ne (ap (λ cs. get_or cs 0 0) e))
run_head p [] left (inr f) h ne = cc
run_head p (c ∷ t) left s h ne = (t, refl)

pub run_second :
    (p : ℕ → Bool) (taken left : Bytes)
    → (left ≡ []) ⊎ (p (get_or left 0 0) ≡ false)
    → p (get_or (taken ++ left) 0 0) ≡ true
    → p (get_or (taken ++ left) 1 0) ≡ true
    → get_or (taken ++ left) 0 0 ≢ 0
    → get_or (taken ++ left) 1 0 ≢ 0
    → (t : Bytes) × (taken ≡ get_or (taken ++ left) 0 0 ∷ get_or (taken ++ left) 1 0 ∷ t)
run_second p [] left (inl e) h h' ne ne' = absurd (ne (ap (λ cs. get_or cs 0 0) e))
run_second p [] left (inr f) h h' ne ne' = cc
run_second p (c ∷ taken) left s h h' ne ne' =
    let (t, e) = run_head p taken left s h' ne' in (t, ap (◌∷◌ c) e)

-- A block comment behind its opening.
pub record IsComment (depth : ℕ) (ts : List Token) (rest : Bytes) (l : SourceLocation)
    (ts' : List Token) (c : Cursor) : Type 0 where
  pub body : Bytes
  pub open_body : has_close body ≡ false
  pub splits : rest ≡ body ++ (codes "*/" ++ c.rest)
  pub located : c.at ≡ after l (body ++ codes "*/")
  pub tokens_are : ts' ≡ newlines_onto depth ts l body

-- The byte before the rest of a comment does not close it.
abbrev NotClosing : ℕ → Bytes → Type 0
NotClosing c rest = (c == b'*' && get_or rest 0 0 == b'/') ≡ false

IsComment-cons :
    (depth : ℕ) (ts : List Token) (c : ℕ) (rest : Bytes) (l : SourceLocation) (ts' : List Token)
    (d : Cursor)
    → NotClosing c rest
    → IsComment depth (if c == b'\n' then add_newline depth ts l else ts) rest (step l c) ts' d
    → IsComment depth ts (c ∷ rest) l ts' d
IsComment-cons depth ts c rest l ts' d nc x = record {
  body = c ∷ x.body;
  open_body = has_close-cons c x.body rest (codes "*/" ++ d.rest) nc x.splits x.open_body;
  splits = ap (◌∷◌ c) x.splits;
  located = x.located;
  tokens_are = x.tokens_are;
}
  where
    has_close-cons :
        (c : ℕ) (body rest tail : Bytes)
        → NotClosing c rest
        → rest ≡ body ++ tail
        → has_close body ≡ false
        → has_close (c ∷ body) ≡ false
    has_close-cons c [] rest tail nc e h = refl
    has_close-cons c (b ∷ body) rest tail nc e h =
        let nc' = subst (λ q. (c == b'*' && q == b'/') ≡ false) (ap (λ cs. get_or cs 0 0) e) nc in
        rw nc' h

some_pair :
    {ts ts' : List Token} {c c' : Cursor}
    → ◌≡◌ {A = Option (List Token × Cursor)} (some (ts, c)) (some (ts', c'))
    → (ts ≡ ts') × (c ≡ c')
some_pair e = ground arith

pub comment_loop-IsComment :
    (depth : ℕ) (ts : List Token) (rest : Bytes) (l : SourceLocation) (ts' : List Token)
    (c : Cursor)
    → comment_loop depth ts rest l ≡ some (ts', c)
    → IsComment depth ts rest l ts' c
unfolding comment_loop
comment_loop-IsComment depth ts [] l ts' c e = cc
comment_loop-IsComment depth ts (x ∷ []) l ts' c e = cc
comment_loop-IsComment depth ts (x ∷ y ∷ rest) l ts' c e =
    elim (Bool-cases (x == b'*' && y == b'/')) [
      | inl close ↦
          let closed : IsComment depth ts (x ∷ y ∷ rest) l ts
              (record { rest = rest; at = after l (x ∷ y ∷ []) }) =
            record {
              body = [];
              open_body = refl;
              splits = ground arith;
              located = ground arith;
              tokens_are = refl;
            } in
          let (e1, e2) = some_pair (rw close at e) in
          subst₂ (λ a b. IsComment depth ts (x ∷ y ∷ rest) l a b) e1 e2 closed
      | inr more ↦ IsComment-cons depth ts x (y ∷ rest) l ts' c more (
          comment_loop-IsComment depth (if x == b'\n' then add_newline depth ts l else ts)
            (y ∷ rest) (step l x) ts' c (rw more at e))
    ]
