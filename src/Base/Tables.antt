-- ===== src/Base/Tables.antt =====
-- Maps and sets of strings as lists, and tests for values that may be missing.
use mathlib.Core.List.{List, [], ◌∷◌, ◌++◌, map}
use mathlib.Core.Option.{Option, none, some}
use mathlib.Core.Path.{◌≡◌, refl, sym, ap, subst, ◌∙◌}
use mathlib.Core.Logic.{◌≢◌, ◌⊎◌, inl, inr}
use mathlib.Core.Bool.{Bool, true, false}
use simp.Base.Tests.{if◌then◌else◌, Bytes, equal, equal_iff, equal_self, Bool-cases}
use simp.Base.Lists.{In}

-- `std::unordered_map` of strings.
abbrev pub Table : Type 0 → Type 0
Table A = List (Bytes × A)

unfoldable pub find : {A : Type 0} → Bytes → Table A → Option A
find name [] = none
find name ((key, a) ∷ table) = let rest = find name table in if equal key name then some a else rest

-- Whether `name` is in a `std::unordered_set`.
unfoldable pub is_member : Bytes → List Bytes → Bool
unfolding equal
is_member name [] = false
is_member name (x ∷ xs) = let rest = is_member name xs in if equal x name then true else rest

-- `table[name] = a`.
unfoldable pub assign : {A : Type 0} → Bytes → A → Table A → Table A
assign name a [] = (name, a) ∷ []
assign name a ((key, b) ∷ table) =
    let rest = assign name a table in if equal key name then (key, a) ∷ table else (key, b) ∷ rest

-- A test for `nullptr` or `std::nullopt`.
abbrev pub case_option {ℓ} : {A : Type 0} {B : Type ℓ} → Option A → B → (A → B) → B
case_option none b f = b
case_option (some a) b f = f a

pub is_member→In : (name : Bytes) (names : List Bytes) → is_member name names ≡ true → In name names
unfolding is_member
is_member→In name [] e = absurd (cc e)
is_member→In name (x ∷ xs) e = elim (Bool-cases (equal x name)) [
  | inl same ↦ inl (sym ((equal_iff x name).0 same))
  | inr other ↦ inr (is_member→In name xs (rw other at e))
]

pub In→is_member : (name : Bytes) (names : List Bytes) → In name names → is_member name names ≡ true
unfolding is_member
In→is_member name [] h = elim h [ ]
In→is_member name (x ∷ xs) (inl e) = rw ((equal_iff x name).1 (sym e)) refl
In→is_member name (x ∷ xs) (inr h) = elim (Bool-cases (equal x name)) [
  | inl same ↦ rw same refl
  | inr other ↦ rw other (In→is_member name xs h)
]

pub equal-cases : (s t : Bytes) → (s ≡ t) ⊎ (s ≢ t)
equal-cases s t = elim (Bool-cases (equal s t)) [
  | inl e ↦ inl ((equal_iff s t).0 e)
  | inr e ↦ inr λ same. cc ((equal_iff s t).1 same, e)
]

module _ {A : Type 0} (name : Bytes) (a : A) where
  pub find-assign_self : (table : Table A) → find name (assign name a table) ≡ some a
  unfolding find assign
  find-assign_self [] = rw (equal_self name) refl
  find-assign_self ((key, b) ∷ table) = elim (Bool-cases (equal key name)) [
    | inl e ↦ rw (e, e) refl
    | inr e ↦ rw (e, e) (find-assign_self table)
  ]

  pub find-assign_other :
      (other : Bytes) (table : Table A)
      → name ≢ other
      → find other (assign name a table) ≡ find other table
  unfolding find assign
  find-assign_other other [] n = elim (Bool-cases (equal name other)) [
    | inl e ↦ absurd (n ((equal_iff name other).0 e))
    | inr e ↦ rw e refl
  ]
  find-assign_other other ((key, b) ∷ table) n = elim (Bool-cases (equal key name)) [
    | inl e ↦ elim (Bool-cases (equal key other)) [
      | inl e' ↦ absurd (n (sym ((equal_iff key name).0 e) ∙ (equal_iff key other).0 e'))
      | inr e' ↦ rw (e, e') refl
    ]
    | inr e ↦
        rw e (ap (λ r. if equal key other then some b else r) (find-assign_other other table n))
  ]

  -- A new key is the last one.
  pub assign-new :
      (table : Table A) → find name table ≡ none → assign name a table ≡ table ++ (name, a) ∷ []
  unfolding find assign
  assign-new [] h = refl
  assign-new ((key, b) ∷ table) h = elim (Bool-cases (equal key name)) [
    | inl e ↦ absurd (cc (rw e at h))
    | inr e ↦ rw e (ap (λ t. (key, b) ∷ t) (assign-new table (rw e at h)))
  ]

-- Only one of two names is in the table.
pub apart_of :
    {A : Type 0} {n x : Bytes} {a : A} (table : Table A)
    → find n table ≡ none
    → find x table ≡ some a
    → n ≢ x
apart_of table h o e = cc (subst (λ y. find y table ≡ none) e h, o)

-- A name that is found is a key.
pub find-In :
    {A : Type 0} (name : Bytes) (a : A) (table : Table A)
    → find name table ≡ some a
    → In name (map (λ e. e.0) table)
unfolding find
find-In name a [] h = absurd (cc h)
find-In name a ((k, b) ∷ table) h = elim (Bool-cases (equal k name)) [
  | inl e ↦ inl (sym ((equal_iff k name).0 e))
  | inr e ↦ inr (find-In name a table (rw e at h))
]
