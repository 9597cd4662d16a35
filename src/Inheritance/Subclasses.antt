-- ===== src/Inheritance/Subclasses.antt =====
-- About `isSubclassOf` of src/SemanticInheritance.cpp: the loop over pending classes.
use simp.Base.{
  ℕ, zero, suc, ◌+◌, ◌<◌, ◌≡◌, ◌↔◌, refl, sym, ◌∙◌, Bool, true, false, List, [], ◌∷◌, Bytes, some,
  equal, equal_iff, length, Bool-cases, Option-cases, ◌⊎◌, inl, inr, if◌then◌else◌, arith, In, All,
  subst,
}
use simp.Base.Tables.{Table, find, is_member, is_member→In}
use simp.Ast.Declarations.{ClassDeclaration}
use simp.Inheritance.Classes.{IsNamed}
use simp.Inheritance.Above.{Above, direct, through, IsSubclass}
use simp.Inheritance.Subclass.{scan_bases, subclass_loop, unvisited_bases, is_subclass_of}
use simp.Inheritance.Unvisited.{unvisited-visit}
use simp.Inheritance.Scanned.{names_of, IsFound, IsKnown, Scanned, scan-none, scan-some}

module _ (classes : Table ClassDeclaration) (base : Bytes) where
  -- The bases of what was visited are no `base`, and are visited or pending.
  abbrev IsClosed : List Bytes → List ClassDeclaration → Type 0
  IsClosed visited pending =
      (v : Bytes) (c : ClassDeclaration)
      → In v visited
      → find v classes ≡ some c
      → (¬ In base c.base_class_names)
        × ((m : Bytes)
            → In m c.base_class_names
            → IsKnown classes m
            → In m visited ⊎ In m (names_of pending))

  Above-IsKnown : {a : Bytes} → Above classes a base → IsKnown classes a
  Above-IsKnown (direct {c} o h) = (c, o)
  Above-IsKnown (through {c} o h k) = (c, o)

  closed-end :
      {a : Bytes} (visited : List Bytes)
      → IsClosed visited []
      → In a visited
      → ¬ Above classes a base
  closed-end visited hc hv (direct {c} o h) = (hc _ c hv o).0 h
  closed-end visited hc hv (through {m} {c} o h k) = elim ((hc _ c hv o).1 m h (Above-IsKnown k)) [
    | inl hv' ↦ closed-end visited hc hv' k
    | inr none_left ↦ none_left
  ]

  module _ (h : IsNamed classes) where
    loop-true :
        (f : ℕ) (pending : List ClassDeclaration) (visited : List Bytes)
        → All (IsFound classes) pending
        → subclass_loop classes base f pending visited ≡ true
        → (n : Bytes) × In n (names_of pending) × Above classes n base
    unfolding subclass_loop
    loop-true zero pending visited hp e = absurd (cc e)
    loop-true (suc f) [] visited hp e = absurd (cc e)
    loop-true (suc f) (c ∷ pending) visited hp e = elim (Bool-cases (is_member c.name visited)) [
      | inl m ↦ let (n, k, a) = loop-true f pending visited hp.1 (rw m at e) in (n, inr k, a)
      | inr m ↦ elim (Option-cases (scan_bases classes base c.base_class_names pending)) [
        | inl o ↦ (c.name, inl refl, direct hp.0 (scan-none classes base _ _ o))
        | inr (next, o) ↦
            let s = scan-some classes base h c.base_class_names pending next hp.1 o in
            let (n, k, a) = loop-true f next (c.name ∷ visited) s.found (rw (m, o) at e) in
            elim (s.comes n k) [
              | inl k' ↦ (n, inr k', a)
              | inr k' ↦ (c.name, inl refl, through hp.0 k' a)
            ]
      ]
    ]

    IsClosed-skip :
        (c : ClassDeclaration) (pending : List ClassDeclaration) (visited : List Bytes)
        → In c.name visited
        → IsClosed visited (c ∷ pending)
        → IsClosed visited pending
    IsClosed-skip c pending visited hm hc v d hv o =
        let (apart, all) = hc v d hv o in
        (
          apart,
          λ m hb k. elim (all m hb k) [
            | inl hv' ↦ inl hv'
            | inr (inl e) ↦ inl (subst (λ x. In x visited) (sym e) hm)
            | inr (inr hp) ↦ inr hp
          ],
        )

    IsClosed-visit :
        (c : ClassDeclaration) (pending next : List ClassDeclaration) (visited : List Bytes)
        → IsFound classes c
        → Scanned classes base c.base_class_names pending next
        → IsClosed visited (c ∷ pending)
        → IsClosed (c.name ∷ visited) next
    IsClosed-visit c pending next visited hf s hc v d (inl e) o =
        let same : c ≡ d = cc (subst (λ x. find x classes ≡ some d) e o, hf) in
        (
          subst (λ x. ¬ In base x.base_class_names) same s.without,
          λ m hb k. inr (s.pushed m (subst (λ x. In m x.base_class_names) (sym same) hb) k),
        )
    IsClosed-visit c pending next visited hf s hc v d (inr hv) o =
        let (apart, all) = hc v d hv o in
        (
          apart,
          λ m hb k. elim (all m hb k) [
            | inl hv' ↦ inl (inr hv')
            | inr (inl e) ↦ inl (inl e)
            | inr (inr hp) ↦ inr (s.kept m hp)
          ],
        )

    loop-false :
        (f : ℕ) (pending : List ClassDeclaration) (visited : List Bytes)
        → All (IsFound classes) pending
        → length pending + unvisited_bases classes visited < f
        → IsClosed visited pending
        → subclass_loop classes base f pending visited ≡ false
        → (n : Bytes) → In n visited ⊎ In n (names_of pending)
        → ¬ Above classes n base
    unfolding subclass_loop
    loop-false zero pending visited hp hf hc e n k = absurd (omega (arith, hf))
    loop-false (suc f) [] visited hp hf hc e n (inl k) = closed-end visited hc k
    loop-false (suc f) [] visited hp hf hc e n (inr k) = absurd k
    loop-false (suc f) (c ∷ pending) visited hp hf hc e n k =
        elim (Bool-cases (is_member c.name visited)) [
          | inl m ↦
              let hm = is_member→In c.name visited m in
              loop-false f pending visited hp.1 (omega (arith, hf))
                (IsClosed-skip c pending visited hm hc) (rw m at e) n
                (elim k [
                  | inl k' ↦ inl k'
                  | inr (inl e') ↦ inl (subst (λ x. In x visited) (sym e') hm)
                  | inr (inr k') ↦ inr k'
                ])
          | inr m ↦ elim (Option-cases (scan_bases classes base c.base_class_names pending)) [
            | inl o ↦ absurd (cc (rw (m, o) at e))
            | inr (next, o) ↦
                let s = scan-some classes base h c.base_class_names pending next hp.1 o in
                loop-false f next (c.name ∷ visited) s.found
                  (omega (arith, hf, s.size, unvisited-visit classes c.name c visited hp.0 m))
                  (IsClosed-visit c pending next visited hp.0 s hc) (rw (m, o) at e) n
                  (elim k [
                    | inl k' ↦ inl (inr k')
                    | inr (inl e') ↦ inl (inl e')
                    | inr (inr k') ↦ inr (s.kept n k')
                  ])
          ]
        ]

    start-loop :
        (type : Bytes) (c : ClassDeclaration) (b : Bool)
        → find type classes ≡ some c
        → subclass_loop classes base (suc (suc (unvisited_bases classes []))) (c ∷ []) [] ≡ b
        → (if b then Above classes type base else ¬ Above classes type base)
    start-loop type c true o e =
        let named : c.name ≡ type = h type c o in
        let found = subst (λ x. find x classes ≡ some c) (sym named) o in
        let (n, k, a) = loop-true _ (c ∷ []) [] (found, tt) e in
        elim k [ inl e' ↦ subst (λ x. Above classes x base) (e' ∙ named) a | inr k' ↦ absurd k' ]
    start-loop type c false o e =
        let named : c.name ≡ type = h type c o in
        let found = subst (λ x. find x classes ≡ some c) (sym named) o in
        loop-false _ (c ∷ []) [] (found, tt) (omega arith) (λ v d hv _. absurd hv) e type
          (inr (inl (sym named)))

-- In a table in which each class stands under its own name, `isSubclassOf` holds of two names
-- exactly when the first is that of a class, and the second is the same or is named as a base on a
-- path of classes that begins there. The search ends on cyclic tables too.
pub is_subclass_of_iff :
    (classes : Table ClassDeclaration) (type base : Bytes)
    → IsNamed classes
    → (is_subclass_of classes type base ≡ true) ↔ IsSubclass classes type base
unfolding is_subclass_of
is_subclass_of_iff classes type base h = elim (Option-cases (find type classes)) [
  | inl o ↦ (λ e. absurd (cc (rw o at e)), λ ((c, o'), _). absurd (cc (o, o')))
  | inr (c, o) ↦ elim (Bool-cases (equal type base)) [
    | inl same ↦ (λ _. ((c, o), inl ((equal_iff type base).0 same)), λ _. rw (o, same) refl)
    | inr other ↦ (
      λ e. ((c, o), inr (start-loop classes base h type c true o (rw (o, other) at e))),
      λ (_, k). elim k [
        | inl e ↦ absurd (cc ((equal_iff type base).1 e, other))
        | inr a ↦
            rw (o, other)
              (elim (Bool-cases
                (subclass_loop classes base (suc (suc (unvisited_bases classes []))) (c ∷ []) [])) [
                  | inl e ↦ e
                  | inr e ↦ absurd (start-loop classes base h type c false o e a)
                ])
      ],
    )
  ]
]
