-- ===== src/Packages/Quoting.antt =====
-- Quoted values of a manifest in src/PackageRegistry.cpp are read back.
use simp.Base.{
  ℕ, Bool, true, false, Option, none, some, [], ◌∷◌, ◌++◌, ◌≡◌, ◌⊎◌, refl, sym, ap, ◌∙◌, arith,
  ◌==◌, ltb, if◌then◌else◌, Bytes, All, append_assoc,
}
use simp.Base.Attempts.{Attempt, done, ◌>>=◌}
use simp.Packages.Toml.{
  trim_back, trim, escaped_byte, split_last, unquote, parse_quoted_string, uncomment_loop,
  uncomment,
}

-- The letter that is escaped for a byte.
abbrev pub escape_letter : ℕ → Option ℕ
escape_letter c =
    if c == b'"'
    then some b'"'
    else if c == b'\\'
    then some b'\\'
    else if c == 8
    then some b'b'
    else if c == 9
    then some b't'
    else if c == 10
    then some b'n'
    else if c == 12
    then some b'f'
    else if c == 13
    then some b'r'
    else none

abbrev pub put_escaped : ℕ → Option ℕ → Bytes → Bytes
put_escaped c none text = c ∷ text
put_escaped c (some letter) text = b'\\' ∷ letter ∷ text

-- The text between the quotes for some bytes.
abbrev pub escape : Bytes → Bytes
escape [] = []
escape (c ∷ s) = put_escaped c (escape_letter c) (escape s)

-- A byte that a quoted string can have.
abbrev pub IsQuotable : ℕ → Type 0
IsQuotable c = (ltb c 32 ≡ false) ⊎ ((c ≡ 8) ⊎ ((c ≡ 9) ⊎ ((c ≡ 10) ⊎ ((c ≡ 12) ⊎ (c ≡ 13)))))

-- How a byte is written: by itself, or by an escape that stands for it.
pub data Written (c : ℕ) : Option ℕ → Type 0 where
  plain : (c == b'\\') ≡ false → (c == b'"') ≡ false → ltb c 32 ≡ false → Written c none
  escaped : (letter : ℕ) → escaped_byte letter ≡ some c → Written c (some letter)

Written-if :
    {c : ℕ} (b : Bool) (letter : ℕ) {rest : Option ℕ}
    → (b ≡ true → escaped_byte letter ≡ some c)
    → (b ≡ false → Written c rest)
    → Written c (if b then some letter else rest)
Written-if true letter f g = escaped letter (f refl)
Written-if false letter f g = g refl

eq_of_test : (c d : ℕ) → (c == d) ≡ true → d ≡ c
eq_of_test c d e = ground arith

pub escape_letter-Written : (c : ℕ) → IsQuotable c → Written c (escape_letter c)
unfolding escaped_byte
escape_letter-Written c h =
    let same = λ (d : ℕ) (e : (c == d) ≡ true). ap some (eq_of_test c d e) in
    Written-if (c == b'"') b'"' (same b'"') λ e0. Written-if (c == b'\\') b'\\' (same b'\\') λ e1.
      Written-if (c == 8) b'b' (same 8) λ e2. Written-if (c == 9) b't' (same 9) λ e3.
        Written-if (c == 10) b'n' (same 10) λ e4.
          Written-if (c == 12) b'f' (same 12)
            λ e5. Written-if (c == 13) b'r' (same 13) λ e6. plain e1 e0 (ground arith)

module _ (path : Bytes) (n : ℕ) where
  unquote-put :
      (c : ℕ) {letter : Option ℕ} (text s : Bytes)
      → Written c letter
      → unquote path n text ≡ done s
      → unquote path n (put_escaped c letter text) ≡ done (c ∷ s)
  unfolding unquote
  unquote-put c [] s (plain e1 e0 e2) h =
      rw (e1, e0, e2) (ap (λ (r : Attempt Bytes). r >>= λ t. done (c ∷ t)) h)
  unquote-put c (d ∷ text) s (plain e1 e0 e2) h = rw (e1, e0, e2, h) refl
  unquote-put c text s (escaped letter e) h = rw (e, h) refl

  unquote-escape : (s : Bytes) → All IsQuotable s → unquote path n (escape s) ≡ done s
  unfolding unquote
  unquote-escape [] h = refl
  unquote-escape (c ∷ s) (hc, h) =
      unquote-put c (escape s) s (escape_letter-Written c hc) (unquote-escape s h)

pub split_last-append : (c : ℕ) (t : Bytes) (x : ℕ) → split_last c (t ++ (x ∷ [])) ≡ (c ∷ t, x)
unfolding split_last
split_last-append c [] x = refl
split_last-append c (d ∷ t) x = ap (λ r. (c ∷ r.0, r.1)) (split_last-append d t x)

-- A comment is cut off behind the closing quote.
uncomment-put :
    (c : ℕ) {letter : Option ℕ} (text : Bytes)
    → Written c letter
    → uncomment_loop true false (put_escaped c letter text)
      ≡ put_escaped c letter (uncomment_loop true false text)
unfolding uncomment_loop
uncomment-put c text (plain e1 e0 e2) = rw (e1, e0) refl
uncomment-put c text (escaped letter e) = refl

pub put_escaped-append :
    (c : ℕ) (letter : Option ℕ) (text rest : Bytes)
    → put_escaped c letter text ++ rest ≡ put_escaped c letter (text ++ rest)
put_escaped-append c none text rest = refl
put_escaped-append c (some letter) text rest = refl

uncomment-escape :
    (s rest : Bytes)
    → All IsQuotable s
    → uncomment_loop true false (escape s ++ (b'"' ∷ rest))
      ≡ escape s ++ (b'"' ∷ uncomment_loop false false rest)
unfolding uncomment_loop
uncomment-escape [] rest h = refl
uncomment-escape (c ∷ s) rest (hc, h) =
    ap (uncomment_loop true false) (put_escaped-append c (escape_letter c) (escape s) (b'"' ∷ rest))
    ∙ uncomment-put c (escape s ++ (b'"' ∷ rest)) (escape_letter-Written c hc)
    ∙ ap (put_escaped c (escape_letter c)) (uncomment-escape s rest h)
    ∙ sym
        (put_escaped-append c (escape_letter c) (escape s) (b'"' ∷ uncomment_loop false false rest))

trim_back-quote : (t : Bytes) → trim_back (t ++ (b'"' ∷ b' ' ∷ [])) ≡ t ++ (b'"' ∷ [])
unfolding trim_back
trim_back-quote [] = refl
trim_back-quote (c ∷ []) = refl
trim_back-quote (c ∷ d ∷ t) = rw (trim_back-quote (d ∷ t)) refl

parse_quoted_string-unquote :
    (path : Bytes) (n : ℕ) (t : Bytes)
    → parse_quoted_string path n (b'"' ∷ t ++ (b'"' ∷ [])) ≡ unquote path n t
unfolding parse_quoted_string
parse_quoted_string-unquote path n [] = refl
parse_quoted_string-unquote path n (d ∷ t) = rw (split_last-append d t b'"') refl

-- The bytes as a quoted string.
abbrev pub quoted : Bytes → Bytes
quoted s = b'"' ∷ escape s ++ (b'"' ∷ [])

pub parse_quoted_string-alone :
    (path : Bytes) (n : ℕ) (s : Bytes)
    → All IsQuotable s
    → parse_quoted_string path n (quoted s) ≡ done s
parse_quoted_string-alone path n s h =
    parse_quoted_string-unquote path n (escape s) ∙ unquote-escape path n s h

-- A value of any bytes but control characters without an escape of their own, quoted with blanks
-- around it and a comment behind it, is read back from its line.
pub parse_quoted_string-quoted :
    (path : Bytes) (n : ℕ) (s comment : Bytes)
    → All IsQuotable s
    → parse_quoted_string path n (trim (uncomment (b' ' ∷ quoted s ++ (b' ' ∷ b'#' ∷ comment))))
      ≡ done s
unfolding trim uncomment parse_quoted_string
parse_quoted_string-quoted path n s comment h =
    ap (λ t. parse_quoted_string path n (trim (b' ' ∷ b'"' ∷ t)))
      (ap (uncomment_loop true false) (append_assoc (escape s) (b'"' ∷ []) (b' ' ∷ b'#' ∷ comment))
        ∙ uncomment-escape s (b' ' ∷ b'#' ∷ comment) h)
    ∙ ap (parse_quoted_string path n) (trim_back-quote (b'"' ∷ escape s))
    ∙ parse_quoted_string-unquote path n (escape s)
    ∙ unquote-escape path n s h
