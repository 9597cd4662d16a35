-- ===== src/Lexer/Unicode.antt =====
-- `isValidUtf8` of src/Lexer.cpp against the encoding of Unicode scalar values.
use simp.Base.{
  ℕ, zero, suc, ◌+◌, ◌-◌, ◌*◌, ◌≤◌, true, List, [], ◌∷◌, ◌++◌, ◌≡◌, ◌↔◌, inl, inr, refl, ap, ap₂,
  subst, ◌∙◌, arith, leb, Bool-cases, Option-cases, Bytes, length, drop, All,
}
use simp.Lexer.Chars.{Sequence, sequence, sequence_ok, utf8_loop, is_valid_utf8}
use simp.Lexer.Utf8.{
  IsScalar, encode, encode_all, two_bytes, three_bytes, four_bytes, Lead, sequence-Lead, Continues,
  Second, encode_two, encode_three, encode_four, utf8_loop-encode_all, two, three, four,
}

-- The first scalar value of bytes that pass, with the bytes behind it.
record Splits (f : ℕ) (bytes : Bytes) : Type 0 where
  scalar : ℕ
  rest : Bytes
  is_scalar : IsScalar scalar
  splits : bytes ≡ encode scalar ++ rest
  passes : utf8_loop f rest ≡ true

two-Splits :
    (f a b : ℕ) (rest : Bytes)
    → 0xc2 ≤ a
    → a ≤ 0xdf
    → Continues b
    → utf8_loop f rest ≡ true
    → Splits f (a ∷ b ∷ rest)
two-Splits f a b rest lo hi (k, k') h = record {
  scalar = (a - 0xc0) * 64 + (b - 0x80);
  rest = rest;
  is_scalar = inl (omega arith);
  splits =
      rw (encode_two ((a - 0xc0) * 64 + (b - 0x80)) (omega arith) (omega arith))
        (ap₂ (λ x y. x ∷ y ∷ rest) (omega arith) (omega arith));
  passes = h;
}

three-IsScalar :
    (a b c : ℕ)
    → 0xe0 ≤ a
    → a ≤ 0xef
    → Second (three_bytes a) b
    → b ≤ 0xbf
    → Continues c
    → IsScalar ((a - 0xe0) * 4096 + (b - 0x80) * 64 + (c - 0x80))
three-IsScalar a b c lo hi second m k = elim (Bool-cases (leb a 0xed)) [
  | inl low ↦ inl (ground arith)
  | inr high ↦ inr (ground arith, ground arith)
]

three-Splits :
    (f a b c : ℕ) (rest : Bytes)
    → 0xe0 ≤ a
    → a ≤ 0xef
    → Second (three_bytes a) b
    → b ≤ 0xbf
    → Continues c
    → utf8_loop f rest ≡ true
    → Splits f (a ∷ b ∷ c ∷ rest)
three-Splits f a b c rest lo hi second m k h =
    let n = (a - 0xe0) * 4096 + (b - 0x80) * 64 + (c - 0x80) in
    let low : 0x80 ≤ b = ground arith in
    let bound : 0x800 ≤ n = ground arith in
    record {
      scalar = n;
      rest = rest;
      is_scalar = three-IsScalar a b c lo hi second m k;
      splits = rw (encode_three n bound (omega arith)) (
          ap₂ (λ x (q : ℕ × ℕ). x ∷ q.0 ∷ q.1 ∷ rest) (omega arith)
            (ap₂ (λ x y. (x, y)) (omega arith) (omega arith)));
      passes = h;
    }

four-Splits :
    (f a b c d : ℕ) (rest : Bytes)
    → 0xf0 ≤ a
    → a ≤ 0xf4
    → Second (four_bytes a) b
    → b ≤ 0xbf
    → Continues c
    → Continues d
    → utf8_loop f rest ≡ true
    → Splits f (a ∷ b ∷ c ∷ d ∷ rest)
four-Splits f a b c d rest lo hi second m k j h =
    let n = (a - 0xf0) * 262144 + (b - 0x80) * 4096 + (c - 0x80) * 64 + (d - 0x80) in
    let low : 0x80 ≤ b = ground arith in
    let bound : 0x10000 ≤ n = ground arith in
    record {
      scalar = n;
      rest = rest;
      is_scalar = inr (omega arith, ground arith);
      splits = rw (encode_four n bound) (
          ap₂ (λ (p : ℕ × ℕ) (q : ℕ × ℕ). p.0 ∷ p.1 ∷ q.0 ∷ q.1 ∷ rest)
            (ap₂ (λ x y. (x, y)) (omega arith) (omega arith))
            (ap₂ (λ x y. (x, y)) (omega arith) (omega arith)));
      passes = h;
    }

two_more-Splits :
    (f a : ℕ) (rest : Bytes)
    → 0xc2 ≤ a
    → a ≤ 0xdf
    → sequence_ok two_bytes (a ∷ rest) ≡ true
    → utf8_loop f (drop 2 (a ∷ rest)) ≡ true
    → Splits f (a ∷ rest)
unfolding sequence_ok
two_more-Splits f a [] lo hi ok h = cc
two_more-Splits f a (b ∷ rest) lo hi ok h =
    two-Splits f a b rest lo hi (ground arith, ground arith) h

three_more-Splits :
    (f a : ℕ) (rest : Bytes)
    → 0xe0 ≤ a
    → a ≤ 0xef
    → sequence_ok (three_bytes a) (a ∷ rest) ≡ true
    → utf8_loop f (drop 3 (a ∷ rest)) ≡ true
    → Splits f (a ∷ rest)
unfolding sequence_ok
three_more-Splits f a [] lo hi ok h = cc
three_more-Splits f a (b ∷ []) lo hi ok h = cc
three_more-Splits f a (b ∷ c ∷ rest) lo hi ok h =
    let second : Second (three_bytes a) b = (ground arith, ground arith) in
    three-Splits f a b c rest lo hi second (ground arith) (ground arith, ground arith) h

four_more-Splits :
    (f a : ℕ) (rest : Bytes)
    → 0xf0 ≤ a
    → a ≤ 0xf4
    → sequence_ok (four_bytes a) (a ∷ rest) ≡ true
    → utf8_loop f (drop 4 (a ∷ rest)) ≡ true
    → Splits f (a ∷ rest)
unfolding sequence_ok
four_more-Splits f a [] lo hi ok h = cc
four_more-Splits f a (b ∷ []) lo hi ok h = cc
four_more-Splits f a (b ∷ c ∷ []) lo hi ok h = cc
four_more-Splits f a (b ∷ c ∷ d ∷ rest) lo hi ok h =
    let second : Second (four_bytes a) b = (ground arith, ground arith) in
    four-Splits f a b c d rest lo hi second (ground arith) (ground arith, ground arith)
      (ground arith, ground arith) h

Lead-Splits :
    (f a : ℕ) (rest : Bytes) (s : Sequence)
    → Lead a s
    → sequence_ok s (a ∷ rest) ≡ true
    → utf8_loop f (drop s.size (a ∷ rest)) ≡ true
    → Splits f (a ∷ rest)
Lead-Splits f a rest s (two lo hi e) ok h =
    two_more-Splits f a rest lo hi (subst (λ q. sequence_ok q (a ∷ rest) ≡ true) e ok)
      (subst (λ q. utf8_loop f (drop q.size (a ∷ rest)) ≡ true) e h)
Lead-Splits f a rest s (three lo hi e) ok h =
    three_more-Splits f a rest lo hi (subst (λ q. sequence_ok q (a ∷ rest) ≡ true) e ok)
      (subst (λ q. utf8_loop f (drop q.size (a ∷ rest)) ≡ true) e h)
Lead-Splits f a rest s (four lo hi e) ok h =
    four_more-Splits f a rest lo hi (subst (λ q. sequence_ok q (a ∷ rest) ≡ true) e ok)
      (subst (λ q. utf8_loop f (drop q.size (a ∷ rest)) ≡ true) e h)

utf8_loop-Splits :
    (f a : ℕ) (rest : Bytes) → utf8_loop (suc f) (a ∷ rest) ≡ true → Splits f (a ∷ rest)
unfolding utf8_loop
utf8_loop-Splits f a rest h = elim (Bool-cases (leb a 0x7f)) [
  | inl one ↦ record {
    scalar = a;
    rest = rest;
    is_scalar = inl (ground arith);
    splits = unfold encode in ground arith;
    passes = rw (one, utf8_loop) at h;
  }
  | inr more ↦ elim (Option-cases (sequence a)) [
    | inl e ↦ cc (rw (more, e, utf8_loop) at h)
    | inr (s, e) ↦ elim (Bool-cases (sequence_ok s (a ∷ rest))) [
      | inl ok ↦ Lead-Splits f a rest s (sequence-Lead a s e) ok (rw (more, e, ok, utf8_loop) at h)
      | inr bad ↦ cc (rw (more, e, bad, utf8_loop) at h)
    ]
  ]
]

utf8_loop-encoded :
    (f : ℕ) (bytes : Bytes)
    → utf8_loop f bytes ≡ true
    → (ns : List ℕ) × All IsScalar ns × (bytes ≡ encode_all ns)
unfolding encode_all
utf8_loop-encoded f [] h = ([], tt, refl)
utf8_loop-encoded zero (a ∷ rest) h = unfold utf8_loop in cc
utf8_loop-encoded (suc f) (a ∷ rest) h =
    let x = utf8_loop-Splits f a rest h in
    let (ns, all, e) = utf8_loop-encoded f x.rest x.passes in
    (x.scalar ∷ ns, (x.is_scalar, all), x.splits ∙ ap (λ r. encode x.scalar ++ r) e)

-- `isValidUtf8` accepts exactly the encodings of sequences of Unicode scalar values: no surrogate,
-- no overlong form, nothing above U+10FFFF and nothing cut short passes, and all else does.
pub is_valid_utf8_iff :
    (bytes : Bytes)
    → (is_valid_utf8 bytes ≡ true) ↔ ((ns : List ℕ) × All IsScalar ns × (bytes ≡ encode_all ns))
unfolding is_valid_utf8
is_valid_utf8_iff bytes = (
  utf8_loop-encoded (length bytes) bytes,
  λ (ns, all, e). rw e (utf8_loop-encode_all (length (encode_all ns)) ns all (omega arith)),
)
