-- ===== src/Lexer/Utf8.antt =====
-- The encodings that `isValidUtf8` of src/Lexer.cpp accepts, one by one.
use simp.Base.{
  ℕ, zero, suc, ◌+◌, ◌/◌, ◌%◌, ◌≤◌, ◌<◌, true, false, some, List, [], ◌∷◌, ◌++◌, ◌≡◌, ◌⊎◌, inl, inr,
  refl, ◌∙◌, arith, ◌==◌, leb, ltb, within, if◌then◌else◌, Bool-cases, Bytes, length, length-append,
  drop, All,
}
use simp.Lexer.Chars.{Sequence, sequence, sequence_ok, utf8_loop}

-- The Unicode scalar values: all code points but the surrogates.
abbrev pub IsScalar : ℕ → Type 0
IsScalar n = (n < 0xd800) ⊎ ((0xdfff < n) × (n < 0x110000))

-- RFC 3629, section 3.
unfoldable pub encode : ℕ → Bytes
encode n =
    if ltb n 0x80
    then n ∷ []
    else if ltb n 0x800
    then (0xc0 + n / 64) ∷ (0x80 + n % 64) ∷ []
    else if ltb n 0x10000
    then (0xe0 + n / 4096) ∷ (0x80 + n / 64 % 64) ∷ (0x80 + n % 64) ∷ []
    else (0xf0 + n / 262144) ∷ (0x80 + n / 4096 % 64) ∷ (0x80 + n / 64 % 64) ∷ (0x80 + n % 64) ∷ []

unfoldable pub encode_all : List ℕ → Bytes
encode_all [] = []
encode_all (n ∷ ns) = encode n ++ encode_all ns

-- What the lead byte of two, three or four bytes says.
abbrev pub two_bytes : Sequence
two_bytes = record { size = 2; second_minimum = 0x80; second_maximum = 0xbf }

abbrev pub three_bytes : ℕ → Sequence
three_bytes a = record {
  size = 3;
  second_minimum = if a == 0xe0 then 0xa0 else 0x80;
  second_maximum = if a == 0xed then 0x9f else 0xbf;
}

abbrev pub four_bytes : ℕ → Sequence
four_bytes a = record {
  size = 4;
  second_minimum = if a == 0xf0 then 0x90 else 0x80;
  second_maximum = if a == 0xf4 then 0x8f else 0xbf;
}

pub data Lead (a : ℕ) (s : Sequence) : Type 0 where
  two : 0xc2 ≤ a → a ≤ 0xdf → s ≡ two_bytes → Lead a s
  three : 0xe0 ≤ a → a ≤ 0xef → s ≡ three_bytes a → Lead a s
  four : 0xf0 ≤ a → a ≤ 0xf4 → s ≡ four_bytes a → Lead a s

pub sequence-Lead : (a : ℕ) (s : Sequence) → sequence a ≡ some s → Lead a s
unfolding sequence
sequence-Lead a s e = elim (Bool-cases (within 0xc2 0xdf a)) [
  | inl h ↦ two (ground arith) (ground arith) (ground arith)
  | inr n ↦ elim (Bool-cases (within 0xe0 0xef a)) [
    | inl h ↦ three (ground arith) (ground arith) (ground arith)
    | inr n' ↦ elim (Bool-cases (within 0xf0 0xf4 a)) [
      | inl h ↦ four (ground arith) (ground arith) (ground arith)
      | inr n'' ↦ cc (rw (n, n', n'') at e)
    ]
  ]
]

Lead-sequence : (a : ℕ) (s : Sequence) → Lead a s → (sequence a ≡ some s) × (leb a 0x7f ≡ false)
unfolding sequence
Lead-sequence a s (two lo hi e) = (ground arith, ground arith)
Lead-sequence a s (three lo hi e) = (ground arith, ground arith)
Lead-sequence a s (four lo hi e) = (ground arith, ground arith)

-- One round of the loop on a sequence that passes the checks.
utf8_round :
    (f a : ℕ) (rest : Bytes) (s : Sequence)
    → Lead a s
    → sequence_ok s (a ∷ rest) ≡ true
    → utf8_loop (suc f) (a ∷ rest) ≡ utf8_loop f (drop s.size (a ∷ rest))
unfolding utf8_loop
utf8_round f a rest s lead ok = let (e, h) = Lead-sequence a s lead in rw (h, e, ok, utf8_loop)

-- A byte that continues a sequence.
abbrev pub Continues : ℕ → Type 0
Continues b = (0x80 ≤ b) × (b ≤ 0xbf)

abbrev pub Second : Sequence → ℕ → Type 0
Second s b = (s.second_minimum ≤ b) × (b ≤ s.second_maximum)

two-ok : (a b : ℕ) (rest : Bytes) → Continues b → sequence_ok two_bytes (a ∷ b ∷ rest) ≡ true
unfolding sequence_ok
two-ok a b rest h = ground arith

three-ok :
    (a b c : ℕ) (rest : Bytes)
    → Second (three_bytes a) b
    → Continues c
    → sequence_ok (three_bytes a) (a ∷ b ∷ c ∷ rest) ≡ true
unfolding sequence_ok
three-ok a b c rest h k = ground arith

four-ok :
    (a b c d : ℕ) (rest : Bytes)
    → Second (four_bytes a) b
    → Continues c
    → Continues d
    → sequence_ok (four_bytes a) (a ∷ b ∷ c ∷ d ∷ rest) ≡ true
unfolding sequence_ok
four-ok a b c d rest h k m = ground arith

pub encode_two : (n : ℕ) → 0x80 ≤ n → n < 0x800 → encode n ≡ (0xc0 + n / 64) ∷ (0x80 + n % 64) ∷ []
unfolding encode
encode_two n lo hi = ground arith

pub encode_three :
    (n : ℕ)
    → 0x800 ≤ n
    → n < 0x10000
    → encode n ≡ (0xe0 + n / 4096) ∷ (0x80 + n / 64 % 64) ∷ (0x80 + n % 64) ∷ []
unfolding encode
encode_three n lo hi = ground arith

pub encode_four :
    (n : ℕ)
    → 0x10000 ≤ n
    → encode n
      ≡ (0xf0 + n / 262144) ∷ (0x80 + n / 4096 % 64) ∷ (0x80 + n / 64 % 64) ∷ (0x80 + n % 64) ∷ []
unfolding encode
encode_four n lo = ground arith

Second-three :
    (n : ℕ)
    → IsScalar n
    → 0x800 ≤ n
    → n < 0x10000
    → Second (three_bytes (0xe0 + n / 4096)) (0x80 + n / 64 % 64)
Second-three n s lo hi = (ground arith, ground arith)

Second-four :
    (n : ℕ)
    → 0x10000 ≤ n
    → n < 0x110000
    → Second (four_bytes (0xf0 + n / 262144)) (0x80 + n / 4096 % 64)
Second-four n lo hi = (ground arith, ground arith)

-- A scalar value that is encoded costs one round.
utf8_loop-encode :
    (f n : ℕ) (rest : Bytes) → IsScalar n → utf8_loop (suc f) (encode n ++ rest) ≡ utf8_loop f rest
utf8_loop-encode f n rest s = elim (Bool-cases (ltb n 0x80)) [
  | inl one ↦
      let e : encode n ≡ n ∷ [] = unfold encode in ground arith in
      rw e (unfold utf8_loop in ground arith)
  | inr a ↦ elim (Bool-cases (ltb n 0x800)) [
    | inl b ↦ rw (encode_two n (ground arith) (ground arith)) (
        utf8_round f (0xc0 + n / 64) _ two_bytes (two (ground arith) (ground arith) refl)
          (two-ok _ _ rest (omega arith, omega arith)))
    | inr b ↦ elim (Bool-cases (ltb n 0x10000)) [
      | inl c ↦ rw (encode_three n (ground arith) (ground arith)) (
          utf8_round f (0xe0 + n / 4096) _ (three_bytes (0xe0 + n / 4096))
            (three (omega arith) (ground arith) refl)
            (three-ok _ _ _ rest (Second-three n s (ground arith) (ground arith))
              (omega arith, omega arith)))
      | inr c ↦ rw (encode_four n (ground arith)) (
          utf8_round f (0xf0 + n / 262144) _ (four_bytes (0xf0 + n / 262144))
            (four (omega arith) (ground arith) refl)
            (four-ok _ _ _ _ rest (Second-four n (ground arith) (ground arith))
              (omega arith, omega arith) (omega arith, omega arith)))
    ]
  ]
]

length-encode_pos : (n : ℕ) → 0 < length (encode n)
unfolding encode
length-encode_pos n = ground arith

pub utf8_loop-encode_all :
    (f : ℕ) (ns : List ℕ)
    → All IsScalar ns
    → length (encode_all ns) ≤ f
    → utf8_loop f (encode_all ns) ≡ true
unfolding encode_all
utf8_loop-encode_all f [] s h = unfold utf8_loop in refl
utf8_loop-encode_all zero (n ∷ ns) s h =
    absurd (omega (arith, length-encode_pos n, length-append (encode n) (encode_all ns)))
utf8_loop-encode_all (suc f) (n ∷ ns) (s, ss) h =
    utf8_loop-encode f n (encode_all ns) s
    ∙ utf8_loop-encode_all f ns ss
        (omega (arith, length-encode_pos n, length-append (encode n) (encode_all ns)))
