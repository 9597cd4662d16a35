-- ===== src/Mangling/Prefixes.antt =====
-- Hexadecimal and decimal texts in the codes of include/cwhip/Mangling.hpp.
use simp.Base.{
  ℕ, zero, suc, ◌+◌, ◌-◌, ◌*◌, ◌/◌, ◌%◌, ◌<◌, Bool, true, false, [], ◌∷◌, ◌++◌, ◌≡◌, inl, inr, refl,
  sym, ap, ap₂, subst, ◌∙◌, arith, ltb, ltb→lt, within, Bool-cases, Bytes, length, get_or, drop,
  All, All-concat, append_assoc,
}
use simp.Base.Decimal.{decimal, decimal_loop}
use simp.Mangling.Types.{hex_digit, hex_text}

pub clash : {A : Type 0} {b : Bool} → b ≡ true → b ≡ false → A
clash h k = let no : true ≡ false = sym h ∙ k in cc

-- No low hexadecimal digit comes first.
abbrev pub IsHigh : Bytes → Type 0
IsHigh [] = Unit
IsHigh (c ∷ _) = within b'0' b'7' c ≡ false

-- Digits of hexadecimal numbers tell their values apart.
hex_digit-same : (a b : ℕ) → a < 16 → b < 16 → hex_digit a ≡ hex_digit b → a ≡ b
unfolding hex_digit
hex_digit-same a b la lb e = ground arith

hex_digit-low : (a : ℕ) → a < 8 → within b'0' b'7' (hex_digit a) ≡ true
unfolding hex_digit
hex_digit-low a la = ground arith

abbrev pub IsAscii : Bytes → Type 0
IsAscii s = All (λ c. ltb c 128 ≡ true) s

pub hex_text-prefix :
    (s t x y : Bytes)
    → IsAscii s
    → IsAscii t
    → IsHigh x
    → IsHigh y
    → hex_text s ++ x ≡ hex_text t ++ y
    → (s ≡ t) × (x ≡ y)
unfolding hex_text
hex_text-prefix [] [] x y hs ht hx hy e = (refl, e)
hex_text-prefix [] (d ∷ t) x y hs (hd, ht) hx hy e =
    clash (hex_digit-low (d / 16) (omega (arith, ltb→lt d 128 hd))) (subst IsHigh e hx)
hex_text-prefix (c ∷ s) [] x y (hc, hs) ht hx hy e =
    clash (hex_digit-low (c / 16) (omega (arith, ltb→lt c 128 hc))) (subst IsHigh (sym e) hy)
hex_text-prefix (c ∷ s) (d ∷ t) x y (hc, hs) (hd, ht) hx hy e =
    let high : c / 16 ≡ d / 16 =
      hex_digit-same (c / 16) (d / 16) (omega (arith, ltb→lt c 128 hc))
        (omega (arith, ltb→lt d 128 hd)) (ap (λ r. get_or r 0 0) e) in
    let low : c % 16 ≡ d % 16 =
      hex_digit-same (c % 16) (d % 16) (omega arith) (omega arith) (ap (λ r. get_or r 1 0) e) in
    let (same, rest) = hex_text-prefix s t x y hs ht hx hy (ap (drop 2) e) in
    (ap₂ (λ b r. b ∷ r) (omega (arith, high, low)) same, rest)

-- Decimal texts.
abbrev is_digit : ℕ → Bool
is_digit c = within b'0' b'9' c

abbrev IsDigits : Bytes → Type 0
IsDigits s = All (λ c. is_digit c ≡ true) s

abbrev IsNoDigit : Bytes → Type 0
IsNoDigit [] = Unit
IsNoDigit (c ∷ _) = is_digit c ≡ false

digits-prefix :
    (s t x y : Bytes)
    → IsDigits s
    → IsDigits t
    → IsNoDigit x
    → IsNoDigit y
    → s ++ x ≡ t ++ y
    → (s ≡ t) × (x ≡ y)
digits-prefix [] [] x y hs ht hx hy e = (refl, e)
digits-prefix [] (d ∷ t) x y hs (hd, ht) hx hy e = clash hd (subst IsNoDigit e hx)
digits-prefix (c ∷ s) [] x y (hc, hs) ht hx hy e = clash hc (subst IsNoDigit (sym e) hy)
digits-prefix (c ∷ s) (d ∷ t) x y (hc, hs) (hd, ht) hx hy e =
    let (same, rest) = digits-prefix s t x y hs ht hx hy (ap (drop 1) e) in
    (ap₂ (λ b r. b ∷ r) (ap (λ r. get_or r 0 0) e) same, rest)

abbrev value_onto : ℕ → Bytes → ℕ
value_onto n [] = n
value_onto n (c ∷ s) = value_onto (n * 10 + (c - b'0')) s

value-snoc :
    (n : ℕ) (s : Bytes) (c : ℕ) → value_onto n (s ++ (c ∷ [])) ≡ value_onto n s * 10 + (c - b'0')
value-snoc n [] c = refl
value-snoc n (d ∷ s) c = value-snoc (n * 10 + (d - b'0')) s c

decimal_loop-value : (fuel n : ℕ) → n < fuel → value_onto 0 (decimal_loop fuel n) ≡ n
unfolding decimal_loop
decimal_loop-value zero n h = ground arith
decimal_loop-value (suc fuel) n h = elim (Bool-cases (ltb n 10)) [
  | inl e ↦ rw e (ground arith)
  | inr e ↦
      rw
        (
          e,
          value-snoc 0 (decimal_loop fuel (n / 10)) (b'0' + n % 10),
          decimal_loop-value fuel (n / 10) (ground arith),
        )
        (omega arith)
]

decimal_loop-IsDigits : (fuel n : ℕ) → IsDigits (decimal_loop fuel n)
unfolding decimal_loop
decimal_loop-IsDigits zero n = tt
decimal_loop-IsDigits (suc fuel) n = elim (Bool-cases (ltb n 10)) [
  | inl e ↦ rw e (last, tt)
  | inr e ↦ rw e (
      All-concat (λ c. is_digit c ≡ true) (decimal_loop fuel (n / 10)) (b'0' + n % 10)
        (decimal_loop-IsDigits fuel (n / 10)) last)
]
  where
    last : is_digit (b'0' + n % 10) ≡ true
    last = ground arith

-- Texts of the same size in front of a text.
same_size-prefix : (s t x y : Bytes) → length s ≡ length t → s ++ x ≡ t ++ y → (s ≡ t) × (x ≡ y)
same_size-prefix [] [] x y h e = (refl, e)
same_size-prefix [] (d ∷ t) x y h e = ground arith
same_size-prefix (c ∷ s) [] x y h e = ground arith
same_size-prefix (c ∷ s) (d ∷ t) x y h e =
    let (same, rest) = same_size-prefix s t x y (omega (arith, h)) (ap (drop 1) e) in
    (ap₂ (λ b r. b ∷ r) (ap (λ r. get_or r 0 0) e) same, rest)

-- A type's text is ASCII and does not begin with a digit.
abbrev pub IsTypeName : Bytes → Type 0
IsTypeName [] = ⊥
IsTypeName (c ∷ s) = (is_digit c ≡ false) × IsAscii (c ∷ s)

pub IsTypeName-IsAscii : (t : Bytes) → IsTypeName t → IsAscii t
IsTypeName-IsAscii [] h = elim h [ ]
IsTypeName-IsAscii (c ∷ s) h = h.1

IsTypeName-IsNoDigit : (t x : Bytes) → IsTypeName t → IsNoDigit (t ++ x)
IsTypeName-IsNoDigit [] x h = elim h [ ]
IsTypeName-IsNoDigit (c ∷ s) x h = h.0

pub class-prefix :
    (s t x y : Bytes)
    → IsTypeName s
    → IsTypeName t
    → (decimal (length s) ++ s) ++ x ≡ (decimal (length t) ++ t) ++ y
    → (s ≡ t) × (x ≡ y)
unfolding decimal
class-prefix s t x y hs ht e =
    let n = length s in
    let m = length t in
    let (same, rest) =
      digits-prefix (decimal_loop (suc n) n) (decimal_loop (suc m) m) (s ++ x) (t ++ y)
        (decimal_loop-IsDigits (suc n) n) (decimal_loop-IsDigits (suc m) m)
        (IsTypeName-IsNoDigit s x hs) (IsTypeName-IsNoDigit t y ht)
        (sym (append_assoc (decimal_loop (suc n) n) s x)
          ∙ e
          ∙ append_assoc (decimal_loop (suc m) m) t y) in
    let size : n ≡ m =
      sym (decimal_loop-value (suc n) n (omega arith))
      ∙ ap (value_onto 0) same
      ∙ decimal_loop-value (suc m) m (omega arith) in
    same_size-prefix s t x y size rest
