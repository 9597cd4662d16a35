-- ===== src/Packages/LockOrder.antt =====
-- The search for cycles in a lock, `visit` in `readLockedPolicy` of src/PackageRegistry.cpp.
use simp.Base.{
  ℕ, ◌≡◌, ◌≢◌, sym, ap, ◌∙◌, subst, false, Option, none, some, List, [], ◌∷◌, ◌⊎◌, inl, inr, Bytes,
  In, map, Option-cases, arith, ◌==◌,
}
use simp.Base.Tables.{
  Table, find, assign, case_option, find-assign_self, find-assign_other, apart_of, equal-cases,
}
use simp.Packages.Missing.{Keeps}
use simp.Packages.LockChecks.{target}

-- Names in the order in which their visits ended, the last one first: the dependencies of each
-- stand behind it.
pub data IsOrdered (dependencies : Table (List Bytes)) : List Bytes → Type 0 where
  bottom : IsOrdered dependencies []
  above :
      {n : Bytes} {order : List Bytes} (ds : List Bytes)
      → find n dependencies ≡ some ds
      → ¬ In n order
      → ((d : Bytes) → In d ds → In (target d) order)
      → IsOrdered dependencies order
      → IsOrdered dependencies (n ∷ order)

number_same : {j k : ℕ} → ◌≡◌ {A = Option ℕ} (some j) (some k) → j ≡ k
number_same e = cc

module _ (dependencies : Table (List Bytes)) where
  pub record AreStates (states : Table ℕ) (order : List Bytes) : Type 0 where
    pub ordered : IsOrdered dependencies order
    pub left : (x : Bytes) → In x order → find x states ≡ some 2
    pub either : (x : Bytes) (k : ℕ) → find x states ≡ some k → In x order ⊎ (k ≡ 1)

  -- What a visit leaves behind.
  pub record After (states : Table ℕ) (order : List Bytes) (after : Table ℕ) (order' : List Bytes)
      : Type 0 where
    pub sound : AreStates after order'
    pub more : (x : Bytes) → In x order → In x order'
    pub begun : (x : Bytes) → find x states ≡ some 1 → find x after ≡ some 1
    pub keeps : Keeps states after

  pub After-same :
      (states : Table ℕ) (order : List Bytes)
      → AreStates states order
      → After states order states order
  After-same states order s = record {
    sound = s;
    more = λ x i. i;
    begun = λ x e. e;
    keeps = λ x k e. (k, e);
  }

  pub After-chain :
      (s t u : Table ℕ) (o p q : List Bytes) → After s o t p → After t p u q → After s o u q
  After-chain s t u o p q a b = record {
    sound = b.sound;
    more = λ x i. b.more x (a.more x i);
    begun = λ x e. b.begun x (a.begun x e);
    keeps = λ x k e. let (l, e') = a.keeps x k e in b.keeps x l e';
  }

  pub ended :
      (x : Bytes) (states : Table ℕ) (order : List Bytes)
      → AreStates states order
      → case_option (find x states) 0 (λ k. k) ≡ 2
      → In x order
  ended x states order s e = elim (Option-cases (find x states)) [
    | inl o ↦ absurd (omega (arith, rw o at e))
    | inr (k, o) ↦ elim (s.either x k o) [
      | inl i ↦ i
      | inr one ↦ let two : k ≡ 2 = rw o at e in absurd (omega (arith, one, two))
    ]
  ]

  pub unseen :
      (x : Bytes) (states : Table ℕ) (order : List Bytes)
      → AreStates states order
      → (case_option (find x states) 0 (λ k. k) == 1) ≡ false
      → (case_option (find x states) 0 (λ k. k) == 2) ≡ false
      → find x states ≡ none
  unseen x states order s n1 n2 = elim (Option-cases (find x states)) [
    | inl o ↦ o
    | inr (k, o) ↦ elim (s.either x k o) [ inl i ↦ cc (n2, s.left x i) | inr one ↦ cc (n1, o, one) ]
  ]

  -- The names were visited.
  abbrev pub Visits : Table ℕ → List Bytes → List Bytes → Table ℕ → Type 0
  Visits states order names after =
      (order' : List Bytes) × After states order after order'
      × ((x : Bytes) → In x names → In x order')

  module _ (name : Bytes) (states : Table ℕ) (new : find name states ≡ none) where
    pub entered-AreStates :
        (order : List Bytes) → AreStates states order → AreStates (assign name 1 states) order
    entered-AreStates order s = record {
      ordered = s.ordered;
      left =
          λ x i. find-assign_other name 1 x states (apart_of states new (s.left x i)) ∙ s.left x i;
      either = λ x k e. elim (equal-cases name x) [
        | inl same ↦ inr cc (e, same, find-assign_self name 1 states)
        | inr n ↦ s.either x k (sym (find-assign_other name 1 x states n) ∙ e)
      ];
    }

    pub entered-Keeps : Keeps states (assign name 1 states)
    entered-Keeps x k e = (k, find-assign_other name 1 x states (apart_of states new e) ∙ e)

    pub left-After :
        (order : List Bytes) (after : Table ℕ) (order' ds : List Bytes)
        → AreStates states order
        → find name dependencies ≡ some ds
        → After (assign name 1 states) order after order'
        → ((x : Bytes) → In x (map target ds) → In x order')
        → After states order (assign name 2 after) (name ∷ order')
    left-After order after order' ds s hd a visited =
        let other = λ (x : Bytes) (n : name ≢ x). find-assign_other name 2 x after n in
        let self = find-assign_self name 2 after in
        record {
          sound = record {
            ordered =
                above ds hd
                  (λ i. absurd (
                    omega (
                      arith,
                      number_same (
                          sym (a.sound.left name i)
                          ∙ a.begun name (find-assign_self name 1 states)),
                    )))
                  (λ d i. visited (target d) (map-In d ds i)) a.sound.ordered;
            left = λ x i. elim i [
              | inl e ↦ subst (λ y. find y (assign name 2 after) ≡ some 2) (sym e) self
              | inr i' ↦ elim (equal-cases name x) [
                | inl e ↦ subst (λ y. find y (assign name 2 after) ≡ some 2) e self
                | inr n ↦ other x n ∙ a.sound.left x i'
              ]
            ];
            either = λ x k e. elim (equal-cases name x) [
              | inl same ↦ inl (inl (sym same))
              | inr n ↦ elim (a.sound.either x k (sym (other x n) ∙ e)) [
                | inl i ↦ inl (inr i)
                | inr one ↦ inr one
              ]
            ];
          };
          more = λ x i. inr (a.more x i);
          begun = λ x e.
              let n = apart_of states new e in
              other x n ∙ a.begun x (find-assign_other name 1 x states n ∙ e);
          keeps = λ x k e.
              let n = apart_of states new e in
              let (l, e') = a.keeps x k (find-assign_other name 1 x states n ∙ e) in
              (l, other x n ∙ e');
        }
      where
        map-In : (d : Bytes) (ds : List Bytes) → In d ds → In (target d) (map target ds)
        map-In d [] i = absurd i
        map-In d (c ∷ ds) (inl e) = inl (ap target e)
        map-In d (c ∷ ds) (inr i) = inr (map-In d ds i)
