-- ===== src/Mangling/Distinct.antt =====
-- The codes of include/cwhip/Mangling.hpp tell lists of types apart.
use simp.Base.{
  ℕ, Bool, true, false, not, ◌&&◌, Option, none, some, List, [], ◌∷◌, ◌++◌, ◌≡◌, inl, inr, refl,
  sym, ap, ap₂, ◌∙◌, arith, ◌==◌, within, if◌then◌else◌, Bool-cases, Bytes, codes, equal, equal_iff,
  length, get_or, drop, All,
}
use simp.Base.Decimal.{decimal}
use simp.Mangling.Types.{is_callback_type, callback_symbol}
use simp.Mangling.Codes.{
  builtin_letter, letter_or_class, mangle_type_code, mangle_codes, mangle_argument_types,
}
use simp.Mangling.Prefixes.{IsHigh, hex_text-prefix, IsTypeName, IsTypeName-IsAscii, class-prefix}

-- The type of a letter.
abbrev letter_name : ℕ → Bytes
letter_name l =
    if l == b'i'
    then codes "int"
    else if l == b'u'
    then codes "unsigned"
    else if l == b'f'
    then codes "float"
    else if l == b'b'
    then codes "bool"
    else if l == b'y'
    then codes "any"
    else if l == b'v'
    then codes "void"
    else if l == b'a'
    then codes "list"
    else if l == b'm'
    then codes "dict"
    else if l == b'B'
    then codes "buffer"
    else codes "handle"

-- A letter begins neither the code of a class nor that of a callback type, nor is it a low digit.
abbrev is_letter : ℕ → Bool
is_letter l = not (l == b'C') && not (l == b'c') && not (within b'0' b'7' l)

abbrev Letter : Bytes → Option ℕ → Type 0
Letter t none = Unit
Letter t (some l) = (t ≡ letter_name l) × (is_letter l ≡ true)

Letter-if :
    (t name : Bytes) (l : ℕ) (rest : Option ℕ)
    → name ≡ letter_name l
    → is_letter l ≡ true
    → Letter t rest
    → Letter t (if equal t name then some l else rest)
Letter-if t name l rest hn hl h = elim (Bool-cases (equal t name)) [
  | inl e ↦ rw e ((equal_iff t name).0 e ∙ hn, hl)
  | inr e ↦ rw e h
]

builtin_letter-Letter : (t : Bytes) → Letter t (builtin_letter t)
unfolding builtin_letter
builtin_letter-Letter t = Letter-if t (codes "int") b'i' _ refl refl (
    Letter-if t (codes "unsigned") b'u' _ refl refl (
      Letter-if t (codes "float") b'f' _ refl refl (
        Letter-if t (codes "bool") b'b' _ refl refl (
          Letter-if t (codes "any") b'y' _ refl refl (
            Letter-if t (codes "void") b'v' _ refl refl (
              Letter-if t (codes "list") b'a' _ refl refl (
                Letter-if t (codes "dict") b'm' _ refl refl (
                  Letter-if t (codes "buffer") b'B' _ refl refl
                    (Letter-if t (codes "handle") b'h' none refl refl tt)))))))))

-- The three kinds of codes.
data Code (t : Bytes) : Bytes → Type 0 where
  callback : Code t (callback_symbol t)
  letter : (l : ℕ) → t ≡ letter_name l → is_letter l ≡ true → Code t (l ∷ [])
  class : Code t (b'C' ∷ decimal (length t) ++ t)

letter_or_class-Code : (t : Bytes) (l : Option ℕ) → Letter t l → Code t (letter_or_class t l)
letter_or_class-Code t none h = class
letter_or_class-Code t (some l) (h, k) = letter l h k

mangle_type_code-Code : (t : Bytes) → Code t (mangle_type_code t)
unfolding mangle_type_code
mangle_type_code-Code t = elim (Bool-cases (is_callback_type t)) [
  | inl e ↦ rw e callback
  | inr e ↦ rw e (letter_or_class-Code t (builtin_letter t) (builtin_letter-Letter t))
]

letter_ne_class : {A : Type 0} (l : ℕ) → is_letter l ≡ true → l ≡ b'C' → A
letter_ne_class l h e = ground arith

letter_ne_callback : {A : Type 0} (l : ℕ) → is_letter l ≡ true → l ≡ b'c' → A
letter_ne_callback l h e = ground arith

class_ne_callback : {A : Type 0} → ◌≡◌ {A = ℕ} b'C' b'c' → A
class_ne_callback e = ground arith

letter-high : (l : ℕ) → is_letter l ≡ true → within b'0' b'7' l ≡ false
letter-high l h = ground arith

Code-IsHigh : (t : Bytes) {code : Bytes} (rest : Bytes) → Code t code → IsHigh (code ++ rest)
unfolding callback_symbol
Code-IsHigh t rest callback = refl
Code-IsHigh t rest (letter l e h) = letter-high l h
Code-IsHigh t rest class = refl

abbrev first : Bytes → ℕ
first s = get_or s 0 0

-- A code ends where it ends, whatever stands behind it.
Code-prefix :
    (s t x y : Bytes) {a b : Bytes}
    → IsTypeName s
    → IsTypeName t
    → IsHigh x
    → IsHigh y
    → Code s a
    → Code t b
    → a ++ x ≡ b ++ y
    → (s ≡ t) × (x ≡ y)
unfolding callback_symbol
Code-prefix s t x y hs ht hx hy callback callback e =
    hex_text-prefix s t x y (IsTypeName-IsAscii s hs) (IsTypeName-IsAscii t ht) hx hy
      (ap (drop 15) e)
Code-prefix s t x y hs ht hx hy callback (letter l k h) e =
    letter_ne_callback l h (sym (ap first e))
Code-prefix s t x y hs ht hx hy callback class e = class_ne_callback (sym (ap first e))
Code-prefix s t x y hs ht hx hy (letter l k h) callback e = letter_ne_callback l h (ap first e)
Code-prefix s t x y hs ht hx hy (letter l k h) (letter m k' h') e =
    (k ∙ ap letter_name (ap first e) ∙ sym k', ap (drop 1) e)
Code-prefix s t x y hs ht hx hy (letter l k h) class e = letter_ne_class l h (ap first e)
Code-prefix s t x y hs ht hx hy class callback e = class_ne_callback (ap first e)
Code-prefix s t x y hs ht hx hy class (letter l k h) e = letter_ne_class l h (sym (ap first e))
Code-prefix s t x y hs ht hx hy class class e = class-prefix s t x y hs ht (ap (drop 1) e)

mangle_codes-IsHigh : (ts : List Bytes) → IsHigh (mangle_codes ts)
unfolding mangle_codes
mangle_codes-IsHigh [] = tt
mangle_codes-IsHigh (t ∷ ts) = Code-IsHigh t (mangle_codes ts) (mangle_type_code-Code t)

Code-IsCons : (t : Bytes) {code : Bytes} (rest : Bytes) → Code t code → code ++ rest ≡ [] → ⊥
unfolding callback_symbol
Code-IsCons t rest callback e = cc
Code-IsCons t rest (letter l h k) e = cc
Code-IsCons t rest class e = cc

mangle_codes-injective :
    (ts us : List Bytes)
    → All IsTypeName ts
    → All IsTypeName us
    → mangle_codes ts ≡ mangle_codes us
    → ts ≡ us
unfolding mangle_codes
mangle_codes-injective [] [] hs ht e = refl
mangle_codes-injective [] (u ∷ us) hs ht e =
    elim (Code-IsCons u (mangle_codes us) (mangle_type_code-Code u) (sym e)) [ ]
mangle_codes-injective (t ∷ ts) [] hs ht e =
    elim (Code-IsCons t (mangle_codes ts) (mangle_type_code-Code t) e) [ ]
mangle_codes-injective (t ∷ ts) (u ∷ us) (h, hs) (k, ks) e =
    let (same, rest) =
      Code-prefix t u (mangle_codes ts) (mangle_codes us) h k (mangle_codes-IsHigh ts)
        (mangle_codes-IsHigh us) (mangle_type_code-Code t) (mangle_type_code-Code u) e in
    ap₂ (λ v vs. v ∷ vs) same (mangle_codes-injective ts us hs ks rest)

-- Two lists of types whose texts are ASCII and do not begin with a digit have the same encoding
-- only if they are the same.
pub mangle_argument_types-injective :
    (ts us : List Bytes)
    → All IsTypeName ts
    → All IsTypeName us
    → mangle_argument_types ts ≡ mangle_argument_types us
    → ts ≡ us
unfolding mangle_argument_types
mangle_argument_types-injective [] [] hs ht e = refl
mangle_argument_types-injective [] (u ∷ us) hs ht e = cc
mangle_argument_types-injective (t ∷ ts) [] hs ht e = cc
mangle_argument_types-injective (t ∷ ts) (u ∷ us) hs ht e =
    mangle_codes-injective (t ∷ ts) (u ∷ us) hs ht (ap (drop 1) e)
