-- ===== src/Packages/Numbers.antt =====
-- `compareNumeric` of src/PackageRegistry.cpp compares numbers by their texts.
use Prim.Native.Nat.{compare, lt, eq, gt}
use simp.Base.{
  ℕ, ◌+◌, ◌*◌, ◌-◌, ◌≤◌, ◌<◌, Bool, true, false, not, ◌&&◌, [], ◌∷◌, ◌≡◌, inl, inr, refl, sym,
  subst, arith, Bytes, length, all_of, All,
}
use simp.Packages.Order.{Ordering-cases}
use simp.Packages.Version.{
  is_digit, is_empty, leading_zero, valid_core_number, compare_text, compare_numeric,
}
use simp.Packages.Best.{and-true}

abbrev value_onto : ℕ → Bytes → ℕ
value_onto n [] = n
value_onto n (c ∷ s) = value_onto (n * 10 + (c - b'0')) s

-- The number that decimal digits are.
abbrev pub value : Bytes → ℕ
value = value_onto 0

abbrev IsDigits : Bytes → Type 0
IsDigits s = All (λ c. is_digit c ≡ true) s

-- The digits in front decide, if no more digits follow the smaller ones.
value_onto-lt :
    (s t : Bytes) (a b : ℕ)
    → IsDigits s
    → IsDigits t
    → length s ≤ length t
    → a < b
    → value_onto a s < value_onto b t
value_onto-lt [] [] a b hs ht l h = h
value_onto-lt [] (d ∷ t) a b hs (hd, ht) l h =
    value_onto-lt [] t a (b * 10 + (d - b'0')) tt ht (omega arith) (omega (arith, h))
value_onto-lt (c ∷ s) [] a b hs ht l h = ground arith
value_onto-lt (c ∷ s) (d ∷ t) a b (hc, hs) (hd, ht) l h =
    value_onto-lt s t (a * 10 + (c - b'0')) (b * 10 + (d - b'0')) hs ht (omega (arith, l))
      (ground (arith, hc, hd, h))

compare-lt : (a b : ℕ) → a < b → compare a b ≡ lt
compare-lt a b h = ground arith

compare-gt : (a b : ℕ) → b < a → compare a b ≡ gt
compare-gt a b h = ground arith

lt_of_compare : (a b : ℕ) → compare a b ≡ lt → a < b
lt_of_compare a b h = ground arith

eq_of_compare : (a b : ℕ) → compare a b ≡ eq → a ≡ b
eq_of_compare a b h = ground arith

gt_of_compare : (a b : ℕ) → compare a b ≡ gt → b < a
gt_of_compare a b h = ground arith

smaller_digit : (a c d : ℕ) → is_digit c ≡ true → c < d → a * 10 + (c - b'0') < a * 10 + (d - b'0')
smaller_digit a c d hc h = ground (arith, hc, h)

-- Texts of one size compare as their numbers.
compare_text-value :
    (s t : Bytes) (a : ℕ)
    → IsDigits s
    → IsDigits t
    → length s ≡ length t
    → compare_text s t ≡ compare (value_onto a s) (value_onto a t)
compare_text-value [] [] a hs ht l = ground arith
compare_text-value [] (d ∷ t) a hs ht l = ground arith
compare_text-value (c ∷ s) [] a hs ht l = ground arith
compare_text-value (c ∷ s) (d ∷ t) a (hc, hs) (hd, ht) l =
    let same : length s ≡ length t = omega (arith, l) in
    elim (Ordering-cases (compare c d)) [
      | inl h ↦ rw h (
          sym (
            compare-lt _ _ (
              value_onto-lt s t _ _ hs ht (omega (arith, same))
                (smaller_digit a c d hc (lt_of_compare c d h)))))
      | inr (inl h) ↦ rw h (
          subst
            (λ e.
              compare_text s t
              ≡ compare (value_onto (a * 10 + (c - b'0')) s) (value_onto (a * 10 + (e - b'0')) t))
            (eq_of_compare c d h) (compare_text-value s t (a * 10 + (c - b'0')) hs ht same))
      | inr (inr h) ↦ rw h (
          sym (
            compare-gt _ _ (
              value_onto-lt t s _ _ ht hs (omega (arith, same))
                (smaller_digit a d c hd (gt_of_compare c d h)))))
    ]

-- Without leading zeros the shorter text is the smaller number.
longer :
    (s t : Bytes)
    → IsDigits s
    → IsDigits t
    → is_empty s ≡ false
    → leading_zero t ≡ false
    → length s < length t
    → value s < value t
longer [] t hs ht e z l = cc
longer (c ∷ s) [] hs ht e z l = ground arith
longer (c ∷ s) (d ∷ []) hs ht e z l = ground arith
longer (c ∷ s) (d ∷ f ∷ t) hs (hd, ht) e z l =
    value_onto-lt (c ∷ s) (f ∷ t) 0 (0 * 10 + (d - b'0')) hs ht (omega (arith, l))
      (ground (arith, hd, z))

IsDigits-all_of : (s : Bytes) → all_of is_digit s ≡ true → IsDigits s
IsDigits-all_of [] h = tt
IsDigits-all_of (c ∷ s) h =
    let (h0, h1) = and-true (is_digit c) (all_of is_digit s) h in (h0, IsDigits-all_of s h1)

valid_core_number-parts :
    (s : Bytes)
    → valid_core_number s ≡ true
    → (is_empty s ≡ false) × (leading_zero s ≡ false) × IsDigits s
unfolding valid_core_number
valid_core_number-parts s h =
    let (h0, digits) = and-true (not (is_empty s) && not (leading_zero s)) (all_of is_digit s) h in
    let (e, z) = and-true (not (is_empty s)) (not (leading_zero s)) h0 in
    (not-true (is_empty s) e, not-true (leading_zero s) z, IsDigits-all_of s digits)
  where
    not-true : (b : Bool) → not b ≡ true → b ≡ false
    not-true true k = cc
    not-true false k = refl

-- The texts of two valid numbers of a version compare as the numbers, however large they are.
pub compare_numeric-value :
    (s t : Bytes)
    → valid_core_number s ≡ true
    → valid_core_number t ≡ true
    → compare_numeric s t ≡ compare (value s) (value t)
unfolding compare_numeric
compare_numeric-value s t hs ht =
    let (es, zs, ds) = valid_core_number-parts s hs in
    let (et, zt, dt) = valid_core_number-parts t ht in
    elim (Ordering-cases (compare (length s) (length t))) [
      | inl h ↦ rw h (
          sym (
            compare-lt (value s) (value t)
              (longer s t ds dt es zt (lt_of_compare (length s) (length t) h))))
      | inr (inl h) ↦ rw h (compare_text-value s t 0 ds dt (eq_of_compare (length s) (length t) h))
      | inr (inr h) ↦ rw h (
          sym (
            compare-gt (value s) (value t)
              (longer t s dt ds et zs (gt_of_compare (length s) (length t) h))))
    ]
