-- ===== src/Packages/Missing.antt =====
-- The fuel of a search that enters each of some names once.
use simp.Base.{
  ℕ, ◌+◌, ◌≤◌, ◌≡◌, refl, sym, none, some, List, [], ◌∷◌, inl, inr, Bytes, In, Option-cases, arith,
  length,
}
use simp.Base.Tables.{Table, find, case_option}

-- The names that the table does not have.
abbrev pub missing : {A : Type 0} → List Bytes → Table A → ℕ
missing [] table = 0
missing (n ∷ ns) table = case_option (find n table) 1 (λ _. 0) + missing ns table

-- The names of the first table are in the second one.
abbrev pub Keeps : {A : Type 0} → Table A → Table A → Type 0
Keeps {A} g h = (x : Bytes) (a : A) → find x g ≡ some a → (b : A) × (find x h ≡ some b)

module _ {A : Type 0} where
  pub missing-Keeps :
      (names : List Bytes) (g h : Table A) → Keeps g h → missing names h ≤ missing names g
  missing-Keeps [] g h k = omega arith
  missing-Keeps (n ∷ ns) g h k =
      let rest = missing-Keeps ns g h k in
      elim (Option-cases (find n g)) [
        | inl o ↦ elim (Option-cases (find n h)) [
          | inl o' ↦ rw (o, o') (omega (arith, rest))
          | inr (q, o') ↦ rw (o, o') (omega (arith, rest))
        ]
        | inr (p, o) ↦ let (q, o') = k n p o in rw (o, o') (omega (arith, rest))
      ]

  pub missing-found :
      (names : List Bytes) (g h : Table A) (x : Bytes) (p : A)
      → Keeps g h
      → In x names
      → find x g ≡ none
      → find x h ≡ some p
      → missing names h + 1 ≤ missing names g
  missing-found [] g h x p k i o o' = absurd i
  missing-found (n ∷ ns) g h x p k (inl e) o o' =
      let rest = missing-Keeps ns g h k in rw (sym e, o, o') (omega (arith, rest))
  missing-found (n ∷ ns) g h x p k (inr i) o o' =
      let rest = missing-found ns g h x p k i o o' in
      elim (Option-cases (find n g)) [
        | inl c ↦ elim (Option-cases (find n h)) [
          | inl c' ↦ rw (c, c') (omega (arith, rest))
          | inr (q, c') ↦ rw (c, c') (omega (arith, rest))
        ]
        | inr (q, c) ↦ let (r, c') = k n q c in rw (c, c') (omega (arith, rest))
      ]

-- All names are missing from an empty table.
pub missing_all : (A : Type 0) (names : List Bytes) → missing {A = A} names [] ≡ length names
unfolding find
missing_all A [] = refl
missing_all A (n ∷ ns) = omega (arith, missing_all A ns)
