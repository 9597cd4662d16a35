-- ===== src/Naming/Visible.antt =====
-- The classes that a name may resolve to.
use simp.Base.{
  ℕ, zero, suc, ◌≡◌, refl, sym, ap, ◌∙◌, Bool, true, false, ◌&&◌, ◌||◌, List, [], ◌∷◌, ◌++◌, Bytes,
  codes, Option, none, some, equal, equal_iff, take, length, Bool-cases, Option-cases, ◌⊎◌, inl,
  inr, arith, subst,
}
use simp.Base.Tables.{find}
use simp.Ast.Declarations.{ClassDeclaration}
use simp.Naming.Resolve.{
  ImportBinding, Names, is_empty, qualify, components_of, active_imports, visible, first_candidate,
  descend, resolved, lookup_components, lookup_class_name,
}

-- A class of the compiler, or of the given module.
abbrev pub IsOwned : ClassDeclaration → Bytes → Type 0
IsOwned c owner =
    (c.builtin ≡ true)
    ⊎ ((c.module_name ≡ []) × (c.name ≡ codes "String"))
    ⊎ (c.module_name ≡ owner)

-- A class that the code of the current module may name: one of the compiler or of the module
-- itself, and, through one of its imports, the exported class or one of the imported module.
abbrev pub IsReachable : Names → Bytes → ClassDeclaration → Type 0
IsReachable n whole c =
    IsOwned c n.current_module
    ⊎ ((alias : Bytes) × (b : ImportBinding) × (find alias (active_imports n) ≡ some b)
        × ((whole ≡ b.qualified_name) ⊎ IsOwned c b.module_name))

empty→eq : (s : Bytes) → is_empty s ≡ true → s ≡ []
empty→eq [] e = refl
empty→eq (c ∷ s) e = absurd (cc e)

or-true : (a b : Bool) → a || b ≡ true → (a ≡ true) ⊎ (b ≡ true)
or-true true b e = inl refl
or-true false b e = inr e

and-true : (a b : Bool) → a && b ≡ true → (a ≡ true) × (b ≡ true)
and-true a b h = ground arith

abbrev pair_of : Bytes × Bytes → Option (Bytes × Bytes) → Bytes × Bytes
pair_of p none = p
pair_of p (some q) = q

parts :
    {a b c d : Bytes}
    → ◌≡◌ {A = Option (Bytes × Bytes)} (some (a, b)) (some (c, d))
    → (a ≡ c) × (b ≡ d)
parts {a = a} {b = b} e = (ap (λ o. (pair_of (a, b) o).0) e, ap (λ o. (pair_of (a, b) o).1) e)

module _ (n : Names) where
  visible-IsOwned :
      (candidate owner : Bytes) (c : ClassDeclaration)
      → visible n candidate owner ≡ true
      → find candidate n.classes ≡ some c
      → IsOwned c owner
  unfolding visible
  visible-IsOwned candidate owner c e o =
      elim (or-true c.builtin
        ((is_empty c.module_name && equal c.name (codes "String")) || equal c.module_name owner)
        (rw o at e)) [
          | inl b ↦ inl b
          | inr rest ↦
              elim (or-true (is_empty c.module_name && equal c.name (codes "String"))
                (equal c.module_name owner) rest) [
                  | inl s ↦
                      let (m, k) =
                        and-true (is_empty c.module_name) (equal c.name (codes "String")) s in
                      inr (inl (empty→eq c.module_name m, (equal_iff c.name (codes "String")).0 k))
                  | inr m ↦ inr (inr ((equal_iff c.module_name owner).0 m))
                ]
        ]

  -- Where the first component may lead.
  abbrev IsCandidate : Bytes → Bytes → Type 0
  IsCandidate candidate owner =
      ((visible n candidate owner ≡ true) × (owner ≡ n.current_module))
      ⊎ ((alias : Bytes) × (b : ImportBinding) × (find alias (active_imports n) ≡ some b)
          × (candidate ≡ b.qualified_name)
          × (owner ≡ b.module_name))

  first-IsCandidate :
      (first : Bytes) (path : List Bytes) (k : ℕ) (candidate owner : Bytes)
      → first_candidate n first path k ≡ some (candidate, owner)
      → IsCandidate candidate owner
  unfolding first_candidate
  first-IsCandidate first path zero candidate owner e =
      elim (Bool-cases (visible n (qualify [] first) n.current_module)) [
        | inl v ↦ let (same, here) = parts (rw v at e) in inl (rw (sym same, sym here) v, sym here)
        | inr v ↦ elim (Option-cases (find first (active_imports n))) [
          | inl o ↦ absurd (cc (rw (v, o) at e))
          | inr (b, o) ↦
              let (same, here) = parts (rw (v, o) at e) in inr (first, b, o, sym same, sym here)
        ]
      ]
  first-IsCandidate first path (suc k) candidate owner e =
      elim (Bool-cases (visible n (qualify (take (suc k) path) first) n.current_module)) [
        | inl v ↦ let (same, here) = parts (rw v at e) in inl (rw (sym same, sym here) v, sym here)
        | inr v ↦ first-IsCandidate first path k candidate owner (rw v at e)
      ]

  descend-visible :
      (owner candidate whole : Bytes) (components : List Bytes)
      → descend n owner candidate components ≡ some whole
      → (candidate ≡ whole) ⊎ (visible n whole owner ≡ true)
  unfolding descend
  descend-visible owner candidate whole [] e = inl (cc e)
  descend-visible owner candidate whole (part ∷ parts) e =
      elim (Bool-cases (visible n (candidate ++ b'.' ∷ part) owner)) [
        | inl v ↦ elim (descend-visible owner (candidate ++ b'.' ∷ part) whole parts (rw v at e)) [
          | inl same ↦ inr (subst (λ x. visible n x owner ≡ true) same v)
          | inr v' ↦ inr v'
        ]
        | inr v ↦ absurd (cc (rw v at e))
      ]

  candidate-IsReachable :
      (candidate owner whole : Bytes) (c : ClassDeclaration) (components : List Bytes)
      → IsCandidate candidate owner
      → descend n owner candidate components ≡ some whole
      → find whole n.classes ≡ some c
      → IsReachable n whole c
  candidate-IsReachable candidate owner whole c components (inl (v, here)) e o =
      let v' : visible n whole owner ≡ true =
        elim (descend-visible owner candidate whole components e) [
          | inl same ↦ subst (λ x. visible n x owner ≡ true) same v
          | inr v' ↦ v'
        ] in
      inl (subst (IsOwned c) here (visible-IsOwned whole owner c v' o))
  candidate-IsReachable candidate owner whole c components (inr (alias, b, found, q, m)) e o = inr (
    alias,
    b,
    found,
    elim (descend-visible owner candidate whole components e) [
      | inl same ↦ inl (sym same ∙ q)
      | inr v ↦ inr (subst (IsOwned c) m (visible-IsOwned whole owner c v o))
    ],
  )

  lookup-IsReachable :
      (name whole : Bytes) (path components : List Bytes)
      → lookup_components n name path components ≡ resolved whole
      → (c : ClassDeclaration) × (find whole n.classes ≡ some c) × IsReachable n whole c
  unfolding lookup_components
  lookup-IsReachable name whole path [] e = absurd (cc e)
  lookup-IsReachable name whole path (first ∷ components) e =
      elim (Option-cases (first_candidate n first path (length path))) [
        | inl o ↦ absurd (cc (rw o at e))
        | inr ((candidate, owner), o) ↦ elim (Option-cases (descend n owner candidate components)) [
          | inl d ↦ absurd (cc (rw (o, d) at e))
          | inr (whole', d) ↦ elim (Option-cases (find whole' n.classes)) [
            | inl w ↦ absurd (cc (rw (o, d, w) at e))
            | inr (c, w) ↦
                let same : whole' ≡ whole = inner (rw (o, d, w) at e) in
                (
                  c,
                  subst (λ x. find x n.classes ≡ some c) same w,
                  subst (λ x. IsReachable n x c) same
                      (candidate-IsReachable candidate owner whole' c components
                        (first-IsCandidate first path (length path) candidate owner o) d w),
                )
          ]
        ]
      ]
    where
      inner : {a b : Bytes} → resolved a ≡ resolved b → a ≡ b
      inner e = cc e

-- A name resolves only to a class of the table that the current module may name: a class of the
-- compiler or of the module itself, or, by one of its imports, the class that the import exports or
-- a class of the imported module.
pub lookup_class_name-IsReachable :
    (n : Names) (name : Bytes) (path : List Bytes) (whole : Bytes)
    → lookup_class_name n name path ≡ resolved whole
    → (c : ClassDeclaration) × (find whole n.classes ≡ some c) × IsReachable n whole c
unfolding lookup_class_name
lookup_class_name-IsReachable n name path whole e =
    lookup-IsReachable n name whole path (components_of name) e
