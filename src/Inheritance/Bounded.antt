-- ===== src/Inheritance/Bounded.antt =====
-- How far the classes of a table without cycles go up.
use simp.Base.{
  ℕ, zero, suc, ◌+◌, ◌≤◌, ◌≡◌, ◌≢◌, sym, ◌∙◌, List, [], ◌∷◌, Bytes, some, equal, equal_iff, length,
  Bool-cases, inl, inr, if◌then◌else◌, arith, In, subst,
}
use simp.Base.Tables.{Table, find}
use simp.Ast.Declarations.{ClassDeclaration}
use simp.Inheritance.Classes.{IsNamed}
use simp.Inheritance.Above.{Above, direct, along}

-- No path of bases from the class is longer than `k`.
pub data Bounded (classes : Table ClassDeclaration) : ℕ → ClassDeclaration → Type 0 where
  bounded :
      {k : ℕ} {c : ClassDeclaration}
      → ((name : Bytes) (d : ClassDeclaration)
          → In name c.base_class_names
          → find name classes ≡ some d
          → Bounded classes k d)
      → Bounded classes (suc k) c

abbrev pub IsAcyclic : Table ClassDeclaration → Type 0
IsAcyclic classes = (name : Bytes) → ¬ Above classes name name

-- A table without the entries of one key.
abbrev without : {A : Type 0} → Bytes → Table A → Table A
without name [] = []
without name ((key, x) ∷ table) =
    let rest = without name table in if equal key name then rest else (key, x) ∷ rest

without-length :
    {A : Type 0} (name : Bytes) (table : Table A) → length (without name table) ≤ length table
without-length name [] = omega arith
without-length name ((key, x) ∷ table) = elim (Bool-cases (equal key name)) [
  | inl e ↦ rw e (omega (arith, without-length name table))
  | inr e ↦ rw e (omega (arith, without-length name table))
]

without-shorter :
    {A : Type 0} (name : Bytes) (table : Table A) (x : A)
    → find name table ≡ some x
    → length (without name table) + 1 ≤ length table
unfolding find
without-shorter name [] x h = cc
without-shorter name ((key, y) ∷ table) x h = elim (Bool-cases (equal key name)) [
  | inl e ↦ rw e (omega (arith, without-length name table))
  | inr e ↦ rw e (omega (arith, without-shorter name table x (rw e at h)))
]

find-without :
    {A : Type 0} (name other : Bytes) (table : Table A) (x : A)
    → name ≢ other
    → find other table ≡ some x
    → find other (without name table) ≡ some x
unfolding find
find-without name other [] x n h = h
find-without name other ((key, y) ∷ table) x n h = elim (Bool-cases (equal key name)) [
  | inl e ↦ elim (Bool-cases (equal key other)) [
    | inl e' ↦ absurd (n (sym ((equal_iff key name).0 e) ∙ (equal_iff key other).0 e'))
    | inr e' ↦ rw e (find-without name other table x n (rw e' at h))
  ]
  | inr e ↦ elim (Bool-cases (equal key other)) [
    | inl e' ↦ rw (e, e') (rw e' at h)
    | inr e' ↦ rw (e, e') (find-without name other table x n (rw e' at h))
  ]
]

-- The names of a path without a class that comes twice.
abbrev IsPath : {A : Type 0} → List Bytes → Table A → Type 0
IsPath [] table = Unit
IsPath {A} (x ∷ xs) table = (¬ In x xs) × ((y : A) × (find x table ≡ some y)) × IsPath xs table

IsPath-without :
    {A : Type 0} (name : Bytes) (xs : List Bytes) (table : Table A)
    → ¬ In name xs
    → IsPath xs table
    → IsPath xs (without name table)
IsPath-without name [] table n h = tt
IsPath-without name (x ∷ xs) table n (hx, (y, hy), h) = (
  hx,
  (y, find-without name x table y (λ e. n (inl e)) hy),
  IsPath-without name xs table (λ k. n (inr k)) h,
)

-- No path is longer than the table.
path-length :
    {A : Type 0} (xs : List Bytes) (table : Table A) → IsPath xs table → length xs ≤ length table
path-length [] table h = omega arith
path-length (x ∷ xs) table (hx, (y, hy), h) = omega (
  arith,
  path-length xs (without x table) (IsPath-without x xs table hx h),
  without-shorter x table y hy,
)

module _ (classes : Table ClassDeclaration) (h : IsNamed classes) (ha : IsAcyclic classes) where
  Bounded-path :
      (k : ℕ) (c : ClassDeclaration) (xs : List Bytes)
      → find c.name classes ≡ some c
      → length classes ≤ k + length xs
      → IsPath (c.name ∷ xs) classes
      → ((x : Bytes) → In x xs → Above classes x c.name)
      → Bounded classes k c
  Bounded-path zero c xs hc l p hx = absurd (omega (arith, l, path-length (c.name ∷ xs) classes p))
  Bounded-path (suc k) c xs hc l p hx = bounded λ name d hb o.
      let named : d.name ≡ name = h name d o in
      let found = subst (λ x. find x classes ≡ some d) (sym named) o in
      let hb' = subst (λ x. In x c.base_class_names) (sym named) hb in
      let up = λ (x : Bytes) (k : In x (c.name ∷ xs)). above-next c d xs hc hb' hx x k in
      Bounded-path k d (c.name ∷ xs) found (omega (arith, l))
        ((λ k. ha d.name (up d.name k)), (d, found), p) up
    where
      above-next :
          (c d : ClassDeclaration) (xs : List Bytes)
          → find c.name classes ≡ some c
          → In d.name c.base_class_names
          → ((x : Bytes) → In x xs → Above classes x c.name)
          → (x : Bytes) → In x (c.name ∷ xs)
          → Above classes x d.name
      above-next c d xs hc hb hx x (inl e) =
          subst (λ y. Above classes y d.name) (sym e) (direct hc hb)
      above-next c d xs hc hb hx x (inr k) = along x (hx x k) hc hb

  pub named-Bounded :
      (name : Bytes) (c : ClassDeclaration)
      → find name classes ≡ some c
      → Bounded classes (length classes) c
  named-Bounded name c o =
      let found = subst (λ x. find x classes ≡ some c) (sym (h name c o)) o in
      Bounded-path (length classes) c [] found (omega arith) ((λ k. k), (c, found), tt)
        λ x k. absurd k
