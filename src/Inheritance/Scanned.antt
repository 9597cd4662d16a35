-- ===== src/Inheritance/Scanned.antt =====
-- The loop of `isSubclassOf` over the bases of one class.
use simp.Base.{
  ◌+◌, ◌≤◌, ◌≡◌, sym, ◌∙◌, false, List, [], ◌∷◌, map, Bytes, some, none, equal, equal_iff, length,
  Bool-cases, Option-cases, ◌⊎◌, inl, inr, arith, In, All, subst,
}
use simp.Base.Tables.{Table, find}
use simp.Ast.Declarations.{ClassDeclaration}
use simp.Inheritance.Classes.{IsNamed}
use simp.Inheritance.Subclass.{scan_bases}

abbrev pub names_of : List ClassDeclaration → List Bytes
names_of cs = map (λ c. c.name) cs

module _ (classes : Table ClassDeclaration) where
  abbrev pub IsFound : ClassDeclaration → Type 0
  IsFound c = find c.name classes ≡ some c

  abbrev pub IsKnown : Bytes → Type 0
  IsKnown name = (c : ClassDeclaration) × (find name classes ≡ some c)

  module _ (base : Bytes) where
    pub scan-none :
        (names : List Bytes) (pending : List ClassDeclaration)
        → scan_bases classes base names pending ≡ none
        → In base names
    unfolding scan_bases
    scan-none [] pending e = absurd (cc e)
    scan-none (n ∷ ns) pending e = elim (Bool-cases (equal n base)) [
      | inl same ↦ inl (sym ((equal_iff n base).0 same))
      | inr other ↦ inr (scan-none ns _ (rw other at e))
    ]

    -- What is pending behind the loop.
    pub record Scanned (names : List Bytes) (pending next : List ClassDeclaration) : Type 0 where
      pub without : ¬ In base names
      pub found : All IsFound next
      pub size : length next ≤ length names + length pending
      pub comes : (n : Bytes) → In n (names_of next) → In n (names_of pending) ⊎ In n names
      pub kept : (n : Bytes) → In n (names_of pending) → In n (names_of next)
      pub pushed : (n : Bytes) → In n names → IsKnown n → In n (names_of next)

    scan-step :
        (n : Bytes) (ns : List Bytes) (pending pending' next : List ClassDeclaration)
        → equal n base ≡ false
        → length pending' ≤ 1 + length pending
        → ((m : Bytes) → In m (names_of pending') → In m (names_of pending) ⊎ (m ≡ n))
        → ((m : Bytes) → In m (names_of pending) → In m (names_of pending'))
        → (IsKnown n → In n (names_of pending'))
        → Scanned ns pending' next
        → Scanned (n ∷ ns) pending next
    scan-step n ns pending pending' next other l comes kept pushed s = record {
      without = λ h. elim h [
        | inl e ↦ absurd (cc ((equal_iff n base).1 (sym e), other))
        | inr h' ↦ s.without h'
      ];
      found = s.found;
      size = omega (arith, l, s.size);
      comes = λ m h. elim (s.comes m h) [
        | inl h' ↦ elim (comes m h') [ inl k ↦ inl k | inr k ↦ inr (inl k) ]
        | inr h' ↦ inr (inr h')
      ];
      kept = λ m h. s.kept m (kept m h);
      pushed = λ m h k. elim h [
        | inl e ↦
            s.kept m (subst (λ x. In x (names_of pending')) (sym e) (pushed (subst IsKnown e k)))
        | inr h' ↦ s.pushed m h' k
      ];
    }

    module _ (h : IsNamed classes) where
      pub scan-some :
          (names : List Bytes) (pending next : List ClassDeclaration)
          → All IsFound pending
          → scan_bases classes base names pending ≡ some next
          → Scanned names pending next
      unfolding scan_bases
      scan-some [] pending next hp e = subst (Scanned [] pending) (cc e) (record {
        without = λ k. k;
        found = hp;
        size = omega arith;
        comes = λ n k. inl k;
        kept = λ n k. k;
        pushed = λ n k. absurd k;
      })
      scan-some (n ∷ ns) pending next hp e = elim (Bool-cases (equal n base)) [
        | inl same ↦ absurd (cc (rw same at e))
        | inr other ↦ elim (Option-cases (find n classes)) [
          | inl o ↦
              scan-step n ns pending pending next other (omega arith) (λ m k. inl k) (λ m k. k)
                (λ (c, k). absurd (cc (o, k))) (scan-some ns pending next hp (rw (other, o) at e))
          | inr (c, o) ↦
              let named : c.name ≡ n = h n c o in
              scan-step n ns pending (c ∷ pending) next other (omega arith)
                (λ m k. elim k [ inl k' ↦ inr (k' ∙ named) | inr k' ↦ inl k' ]) (λ m k. inr k)
                (λ _. inl (sym named))
                (scan-some ns (c ∷ pending) next
                  (subst (λ x. find x classes ≡ some c) (sym named) o, hp) (rw (other, o) at e))
        ]
      ]
