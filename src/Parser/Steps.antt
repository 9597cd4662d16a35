-- ===== src/Parser/Steps.antt =====
-- Rules by which a parser is shown to run within its fuel and its tokens: from a state whose
-- tokens end with the end of the file it returns or throws, and it never steps over the end.
use simp.Base.{
  ℕ, zero, suc, ◌+◌, ◌≡◌, refl, ap, ◌≢◌, subst, ◌-◌, Bool, true, false, List, [], ◌∷◌, Bytes, leb,
  String, if◌then◌else◌, length, arith,
}
use simp.Lexer.Token.{TokenType, Token, end_of_file, newline}
use simp.Lexer.Kinds.{same_type}
use simp.Parser.Verdict.{Verdict, accepted, refused}
use simp.Parser.State.{
  leave_nesting, consume_statement_terminator, maximum_nesting, ParserState, Reply, Parser,
  then_run, ◌>>=◌, branch, check, advance, advance_over, current, error, if_match, consume,
  skip_loop, skip_newlines, match, error_here, error_found, guarded, lift,
}
use simp.Parser.Rules.{
  IsEnded, Reads, Runs, further, Runs-zero, Runs-less, Runs-pure, Runs-test, Runs-branch,
  Reads-join, reads, throws, runs,
}

pub Runs-current : {n : ℕ} → Runs 0 n current
unfolding current
Runs-current = runs λ s he hn. reads s he (omega arith) refl

-- A token that is not the end of the file is not the last one.
over_one :
    (ts : List Token) (s : ParserState)
    → ts ≡ s.rest
    → IsEnded s.current ts
    → s.current.type_of ≢ end_of_file
    → Reads 1 s (advance_over ts s)
over_one [] s e he ne = absurd (ne he)
over_one (t ∷ ts) s e he ne =
    reads (record s { previous = s.current; current = t; rest = ts }) he
      (omega (arith, ap length e)) refl

advance_one :
    (s : ParserState)
    → IsEnded s.current s.rest
    → s.current.type_of ≢ end_of_file
    → Reads 1 s (advance s)
unfolding advance
advance_one s he ne = over_one s.rest s refl he ne

-- A condition that does not hold at the end of the file.
abbrev pub Excludes-end : (ParserState → Bool) → Type 0
Excludes-end test = (s : ParserState) → s.current.type_of ≡ end_of_file → test s ≡ false

-- `tokens_[current_++]` under such a condition.
pub Runs-advance :
    {n : ℕ} {test : ParserState → Bool} {q : Parser Token}
    → Excludes-end test
    → Runs 1 n q
    → Runs 1 n (branch test advance q)
Runs-advance ht hq = Runs-test (λ s e he hn. advance_one s he (λ ee. cc (e, ht s ee))) hq

pub Runs-token :
    {A : Type 0} {n : ℕ} {test : ParserState → Bool} {p : Token → Parser A} {q : Parser A}
    → Excludes-end test
    → ((t : Token) → Runs 0 n (p t))
    → Runs 1 (suc n) q
    → Runs 1 (suc n) (branch test (advance >>= p) q)
unfolding ◌>>=◌
Runs-token ht hp hq =
    Runs-test
      (λ s e he hn.
        Reads-join (omega arith) (omega arith) (advance_one s he (λ ee. cc (e, ht s ee))) hp)
      hq

-- The same where the other side may read nothing.
pub Runs-token_or :
    {A : Type 0} {n : ℕ} {test : ParserState → Bool} {p : Token → Parser A} {q : Parser A}
    → Excludes-end test
    → ((t : Token) → Runs 0 n (p t))
    → Runs 0 (suc n) q
    → Runs 0 (suc n) (branch test (advance >>= p) q)
unfolding ◌>>=◌
Runs-token_or ht hp hq =
    Runs-test
      (λ s e he hn.
        Reads-join (omega arith) (omega arith) (advance_one s he (λ ee. cc (e, ht s ee))) hp)
      hq

pub Runs-error_here : {A : Type 0} {k n : ℕ} (m : Bytes) → Runs {A = A} k n (error_here m)
unfolding error_here ◌>>=◌ current error
Runs-error_here m = runs λ s he hn. throws

pub Runs-error_found : {A : Type 0} {k n : ℕ} (m : Bytes) → Runs {A = A} k n (error_found m)
unfolding error_found ◌>>=◌ current error
Runs-error_found m = runs λ s he hn. throws

pub check-Excludes-end : (t : TokenType) → same_type end_of_file t ≡ false → Excludes-end (check t)
check-Excludes-end t h s e = rw e h

module _ (t : TokenType) (h : same_type end_of_file t ≡ false) where
  pub Runs-consume : {n : ℕ} (m : String) → Runs 1 n (consume t m)
  unfolding consume
  Runs-consume m = Runs-advance (check-Excludes-end t h) (Runs-error_found _)

  pub Runs-if_match :
      {A : Type 0} {n : ℕ} {p q : Parser A}
      → Runs 0 n p
      → Runs 0 (suc n) q
      → Runs 0 (suc n) (if_match t p q)
  unfolding if_match
  Runs-if_match hp hq = Runs-token_or (check-Excludes-end t h) (λ u. hp) hq

  pub Runs-match_first :
      {A : Type 0} {n : ℕ} {p q : Parser A}
      → Runs 0 n p
      → Runs 1 (suc n) q
      → Runs 1 (suc n) (if_match t p q)
  unfolding if_match
  Runs-match_first hp hq = Runs-token (check-Excludes-end t h) (λ u. hp) hq

  -- Either side may need all of the fuel.
  pub Runs-if_match_same :
      {A : Type 0} {p q : Parser A} (n : ℕ) → Runs 0 n p → Runs 0 n q → Runs 0 n (if_match t p q)
  Runs-if_match_same zero hp hq = Runs-zero
  Runs-if_match_same (suc n) hp hq = Runs-if_match (Runs-less hp) hq

  pub Runs-match : (n : ℕ) → Runs 0 n (match t)
  Runs-match n = Runs-if_match_same n (Runs-pure _) (Runs-pure _)

Reads-if :
    {A : Type 0} (b : Bool) {k : ℕ} {s : ParserState} {x y : Reply A}
    → (b ≡ true → Reads k s x)
    → (b ≡ false → Reads k s y)
    → Reads k s (if b then x else y)
Reads-if true hx hy = hx refl
Reads-if false hx hy = hy refl

newline_end : (s : ParserState) → s.current.type_of ≡ end_of_file → check newline s ≡ true → ⊥
newline_end s e h = cc (h, check-Excludes-end newline refl s e)

skip_loop-Reads :
    (ts : List Token) (s : ParserState)
    → ts ≡ s.rest
    → IsEnded s.current ts
    → Reads 0 s (skip_loop ts s)
skip_loop-Reads [] s e he =
    Reads-if (check newline s) (λ h. absurd (newline_end s he h))
      (λ _. reads s (subst (IsEnded s.current) e he) (omega arith) refl)
skip_loop-Reads (t ∷ ts) s e he =
    let s' = record s { previous = s.current; current = t; rest = ts } in
    Reads-if (check newline s)
      (λ _.
        further 0 s' (omega (arith, ap length e)) (omega arith) refl
          (skip_loop-Reads ts s' refl he))
      (λ _. reads s (subst (IsEnded s.current) e he) (omega arith) refl)

pub Runs-skip_newlines : {n : ℕ} → Runs 0 n skip_newlines
unfolding skip_newlines
Runs-skip_newlines = runs λ s he hn. skip_loop-Reads s.rest s refl he

pub Runs-terminator : (n : ℕ) → Runs 0 n consume_statement_terminator
Runs-terminator n =
    Runs-if_match_same newline refl n Runs-skip_newlines
      (Runs-branch _ (Runs-pure _) (Runs-error_here _))

left :
    {A : Type 0} {k : ℕ} (s : ParserState) {r : Reply A}
    → Reads k (record s { nesting_depth = s.nesting_depth + 1 }) r
    → Reads k s (then_run r leave_nesting)
left s (reads s' he hl hd) =
    reads (record s' { nesting_depth = s'.nesting_depth - 1 }) he hl (omega (arith, hd))
left s throws = throws

pub Runs-guarded : {A : Type 0} {k n : ℕ} {p : Parser A} → Runs k n p → Runs k n (guarded p)
unfolding guarded
Runs-guarded (runs hp) = runs λ s he hn.
    Reads-if (leb maximum_nesting s.nesting_depth) (λ _. throws)
      λ _. left s (hp (record s { nesting_depth = s.nesting_depth + 1 }) he hn)

pub Runs-lift : {A : Type 0} {n : ℕ} (v : Verdict A) → Runs 0 n (lift v)
unfolding lift
Runs-lift (accepted a) = runs λ s he hn. reads s he (omega arith) refl
Runs-lift (refused l m) = runs λ s he hn. throws

-- A token read inside a level of nesting that it opens.
pub Runs-guarded_token :
    {A : Type 0} {n : ℕ} {test : ParserState → Bool} {p : Token → Parser A} {q : Parser A}
    → Excludes-end test
    → ((t : Token) → Runs 0 n (p t))
    → Runs 1 (suc n) q
    → Runs 1 (suc n) (branch test (guarded (advance >>= p)) q)
unfolding guarded ◌>>=◌
Runs-guarded_token ht hp hq =
    Runs-test
      (λ s e he hn.
        Reads-if (leb maximum_nesting s.nesting_depth) (λ _. throws)
          λ _.
            let inner = record s { nesting_depth = s.nesting_depth + 1 } in
            left s (
              Reads-join (omega arith) (omega arith) (advance_one inner he (λ ee. cc (e, ht s ee)))
                hp))
      hq
