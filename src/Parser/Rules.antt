-- ===== src/Parser/Rules.antt =====
-- What it is for a parser to run within its fuel and its tokens, and the rules for its parts.
use simp.Base.{
  ℕ, suc, ◌+◌, ◌≤◌, ◌<◌, ◌≡◌, refl, Bool, true, false, List, [], ◌∷◌, Bytes, if◌then◌else◌, length,
  arith, SourceLocation, Bool-cases, inl, inr,
}
use simp.Lexer.Token.{Token, end_of_file}
use simp.Parser.State.{
  ParserState, Reply, parsed, failed, Parser, pure, then_run, ◌>>=◌, branch, error,
}

-- The last token is the end of the file.
abbrev pub IsEnded : Token → List Token → Type 0
IsEnded t [] = t.type_of ≡ end_of_file
IsEnded t (u ∷ us) = IsEnded u us

-- A value came with at least `k` tokens read, and the rest of the state is in order.
pub data Reads (k : ℕ) (s : ParserState) {A : Type 0} : Reply A → Type 0 where
  reads :
      {a : A} (s' : ParserState)
      → IsEnded s'.current s'.rest
      → length s'.rest + k ≤ length s.rest
      → s'.nesting_depth ≡ s.nesting_depth
      → Reads k s (parsed a s')
  throws : {l : SourceLocation} {m : Bytes} → Reads k s (failed l m)

-- Before fewer than `n` tokens behind the current one, the parser reads at least `k`.
pub data Runs {A : Type 0} (k n : ℕ) (p : Parser A) : Type 0 where
  runs :
      ((s : ParserState) → IsEnded s.current s.rest → length s.rest < n → Reads k s (p s))
      → Runs k n p

pub Runs-from :
    {A : Type 0} {k n : ℕ} {p : Parser A} (s : ParserState)
    → Runs k n p
    → IsEnded s.current s.rest
    → length s.rest < n
    → Reads k s (p s)
Runs-from s (runs h) he hn = h s he hn

weaken : {A : Type 0} {j k : ℕ} {s : ParserState} {r : Reply A} → k ≤ j → Reads j s r → Reads k s r
weaken h (reads s' he hl hd) = reads s' he (omega arith) hd
weaken h throws = throws

-- One read from the state that another read left.
pub further :
    {B : Type 0} {j k : ℕ} (i : ℕ) {s : ParserState} (s' : ParserState) {r : Reply B}
    → length s'.rest + i ≤ length s.rest
    → k ≤ i + j
    → s'.nesting_depth ≡ s.nesting_depth
    → Reads j s' r
    → Reads k s r
further i s' h hk hd (reads t he hl hd') = reads t he (omega arith) (cc)
further i s' h hk hd throws = throws

module _ {A : Type 0} where
  pub Runs-zero : {k : ℕ} {p : Parser A} → Runs k 0 p
  Runs-zero = runs λ s he hn. absurd (omega arith)

  -- Fewer tokens need less fuel.
  pub Runs-fewer : {k m n : ℕ} {p : Parser A} → m ≤ n → Runs k n p → Runs k m p
  Runs-fewer h (runs hp) = runs λ s he hn. hp s he (omega arith)

  pub Runs-less : {k n : ℕ} {p : Parser A} → Runs k (suc n) p → Runs k n p
  Runs-less hp = Runs-fewer (omega arith) hp

  pub Runs-any : {n : ℕ} {p : Parser A} → Runs 1 n p → Runs 0 n p
  Runs-any (runs hp) = runs λ s he hn. weaken (omega arith) (hp s he hn)

  pub Runs-pure : {n : ℕ} (a : A) → Runs 0 n (pure a)
  unfolding pure
  Runs-pure a = runs λ s he hn. reads s he (omega arith) refl

  pub Runs-error : {k n : ℕ} (l : SourceLocation) (m : Bytes) → Runs {A = A} k n (error l m)
  unfolding error
  Runs-error l m = runs λ s he hn. throws

  -- The test may be used on its true side.
  pub Runs-test :
      {k n : ℕ} {test : ParserState → Bool} {p q : Parser A}
      → ((s : ParserState)
          → test s ≡ true
          → IsEnded s.current s.rest
          → length s.rest < n
          → Reads k s (p s))
      → Runs k n q
      → Runs k n (branch test p q)
  unfolding branch
  Runs-test {test} hp (runs hq) = runs λ s he hn. elim (Bool-cases (test s)) [
    | inl e ↦ rw e (hp s e he hn)
    | inr e ↦ rw e (hq s he hn)
  ]

  pub Runs-branch :
      {k n : ℕ} (test : ParserState → Bool) {p q : Parser A}
      → Runs k n p
      → Runs k n q
      → Runs k n (branch test p q)
  Runs-branch test (runs hp) hq = Runs-test (λ s e. hp s) hq

  pub Runs-if :
      (b : Bool) {k n : ℕ} {p q : Parser A}
      → Runs k n p
      → Runs k n q
      → Runs k n (if b then p else q)
  Runs-if true hp hq = hp
  Runs-if false hp hq = hq

module _ {A B : Type 0} where
  pub Reads-join :
      {i j k m : ℕ} {s : ParserState} {r : Reply A} {f : A → Parser B}
      → k ≤ i + j
      → length s.rest < m + i
      → Reads i s r
      → ((a : A) → Runs j m (f a))
      → Reads k s (then_run r f)
  Reads-join {i} hk hm (reads {a} s' he hl hd) hf =
      further i s' hl hk hd (Runs-from s' (hf a) he (omega arith))
  Reads-join hk hm throws hf = throws

  Runs-join :
      {i j k m n : ℕ} {p : Parser A} {f : A → Parser B}
      → k ≤ i + j
      → n ≤ m + i
      → Runs i n p
      → ((a : A) → Runs j m (f a))
      → Runs k n (p >>= f)
  unfolding ◌>>=◌
  Runs-join hk hm (runs hp) hf = runs λ s he hn. Reads-join hk (omega arith) (hp s he hn) hf

  -- The first parser reads a token, and the fuel of the second may be less by one.
  pub Runs-after :
      {n : ℕ} {p : Parser A} {f : A → Parser B}
      → Runs 1 (suc n) p
      → ((a : A) → Runs 0 n (f a))
      → Runs 1 (suc n) (p >>= f)
  Runs-after hp hf = Runs-join (omega arith) (omega arith) hp hf

  pub Runs-bind :
      {k n : ℕ} {p : Parser A} {f : A → Parser B}
      → Runs k n p
      → ((a : A) → Runs 0 n (f a))
      → Runs k n (p >>= f)
  Runs-bind hp hf = Runs-join (omega arith) (omega arith) hp hf

  pub Runs-before :
      {n : ℕ} {p : Parser A} {f : A → Parser B}
      → Runs 0 n p
      → ((a : A) → Runs 1 n (f a))
      → Runs 1 n (p >>= f)
  Runs-before hp hf = Runs-join (omega arith) (omega arith) hp hf
