-- ===== src/Inheritance/CycleSteps.antt =====
-- One ancestor in the search for inheritance cycles.
use simp.Base.{
  ℕ, ◌+◌, ◌≤◌, ◌≡◌, ◌≢◌, refl, sym, ◌∙◌, true, false, List, [], ◌∷◌, Bytes, some, equal, equal_iff,
  length, drop, Bool-cases, ◌⊎◌, inl, inr, if◌then◌else◌, arith, In, All, subst, SourceLocation,
}
use simp.Base.Tables.{Table, find, is_member, is_member→In, In→is_member}
use simp.Ast.Declarations.{ClassDeclaration}
use simp.Parser.Verdict.{Verdict, accepted, refused}
use simp.Naming.Resolve.{Names, find_class}
use simp.Inheritance.Classes.{IsNamed}
use simp.Inheritance.Cycles.{first_location, cycle_message, Search, cycle_bases}
use simp.Inheritance.Scanned.{names_of, IsFound, IsKnown}

-- The classes whose names are not on the path.
unfoldable pub unseen : Table ClassDeclaration → List Bytes → ℕ
unseen [] path = 0
unseen ((key, c) ∷ classes) path =
    let rest = unseen classes path in if is_member key path then rest else 1 + rest

pub unseen-most :
    (classes : Table ClassDeclaration) (path : List Bytes) → unseen classes path ≤ length classes
unfolding unseen
unseen-most [] path = omega arith
unseen-most ((key, c) ∷ classes) path = elim (Bool-cases (is_member key path)) [
  | inl e ↦ rw e (omega (arith, unseen-most classes path))
  | inr e ↦ rw e (omega (arith, unseen-most classes path))
]

member_more :
    (key v : Bytes) (path : List Bytes)
    → is_member key path ≡ true
    → is_member key (v ∷ path) ≡ true
member_more key v path h = In→is_member key (v ∷ path) (inr (is_member→In key path h))

unseen-fewer :
    (classes : Table ClassDeclaration) (v : Bytes) (path : List Bytes)
    → unseen classes (v ∷ path) ≤ unseen classes path
unfolding unseen
unseen-fewer [] v path = omega arith
unseen-fewer ((key, c) ∷ classes) v path =
    let rest = unseen-fewer classes v path in
    elim (Bool-cases (is_member key path)) [
      | inl e ↦ rw (e, member_more key v path e) rest
      | inr e ↦ elim (Bool-cases (is_member key (v ∷ path))) [
        | inl e' ↦ rw (e, e') (omega (arith, rest))
        | inr e' ↦ rw (e, e') (omega (arith, rest))
      ]
    ]

unseen-see :
    (classes : Table ClassDeclaration) (v : Bytes) (c : ClassDeclaration) (path : List Bytes)
    → find v classes ≡ some c
    → is_member v path ≡ false
    → unseen classes (v ∷ path) + 1 ≤ unseen classes path
unfolding unseen find
unseen-see [] v c path h e = absurd (cc h)
unseen-see ((key, d) ∷ classes) v c path h e = elim (Bool-cases (equal key v)) [
  | inl same ↦
      let fewer = unseen-fewer classes v path in
      rw ((equal_iff key v).0 same, e, In→is_member v (v ∷ path) (inl refl)) (omega (arith, fewer))
  | inr other ↦
      let rest = unseen-see classes v c path (rw other at h) e in
      elim (Bool-cases (is_member key path)) [
        | inl m ↦ rw (m, member_more key v path m) (omega (arith, rest))
        | inr m ↦ elim (Bool-cases (is_member key (v ∷ path))) [
          | inl m' ↦ rw (m, m') (omega (arith, rest))
          | inr m' ↦ rw (m, m') (omega (arith, rest))
        ]
      ]
]

module _ (n : Names) (h : IsNamed n.classes) (name : Bytes) where
  -- What the loop over the bases leaves.
  pub record Passed (bases : List Bytes) (pending : List ClassDeclaration) (path : List Bytes)
      (s : Search) : Type 0 where
    pub found : All (IsFound n.classes) s.0
    pub size : length s.0 + unseen n.classes s.1 ≤ length pending + unseen n.classes path
    pub comes : (x : Bytes) → In x (names_of s.0) → In x (names_of pending) ⊎ In x bases
    pub kept : (x : Bytes) → In x (names_of pending) → In x (names_of s.0)
    pub longer : (x : Bytes) → In x path → In x s.1
    pub fresh : (x : Bytes) → In x s.1 → In x path ⊎ In x (names_of s.0)
    pub all : (x : Bytes) → In x bases → In x s.1 × (x ≢ name)

  -- A verdict on the bases: they pass, or one of them is `name`.
  abbrev pub Judged : List Bytes → List ClassDeclaration → List Bytes → Verdict Search → Type 0
  Judged bases pending path v =
      ((s : Search) × (v ≡ accepted s) × Passed bases pending path s)
      ⊎ ((l : SourceLocation) × (m : Bytes) × (v ≡ refused l m) × In name bases)

  abbrev pub AreKnown : List Bytes → Type 0
  AreKnown = All (IsKnown n.classes)

  Passed-known :
      (b : Bytes) (bases path : List Bytes) (pending : List ClassDeclaration) (s : Search)
      → In b path
      → b ≢ name
      → Passed bases pending path s
      → Passed (b ∷ bases) pending path s
  Passed-known b bases path pending s hb hn p = record {
    found = p.found;
    size = p.size;
    comes = λ x k. elim (p.comes x k) [ inl k' ↦ inl k' | inr k' ↦ inr (inr k') ];
    kept = p.kept;
    longer = p.longer;
    fresh = p.fresh;
    all = λ x k. elim k [
      | inl e ↦ (subst (λ y. In y s.1) (sym e) (p.longer b hb), λ e'. hn (sym e ∙ e'))
      | inr k' ↦ p.all x k'
    ];
  }

  Passed-new :
      (b : Bytes) (c : ClassDeclaration) (bases path : List Bytes) (pending : List ClassDeclaration)
      (s : Search)
      → find b n.classes ≡ some c
      → is_member b path ≡ false
      → b ≢ name
      → Passed bases (c ∷ pending) (b ∷ path) s
      → Passed (b ∷ bases) pending path s
  Passed-new b c bases path pending s o m hn p =
      let named : c.name ≡ b = h b c o in
      record {
        found = p.found;
        size = omega (arith, p.size, unseen-see n.classes b c path o m);
        comes = λ x k. elim (p.comes x k) [
          | inl (inl e) ↦ inr (inl (e ∙ named))
          | inl (inr k') ↦ inl k'
          | inr k' ↦ inr (inr k')
        ];
        kept = λ x k. p.kept x (inr k);
        longer = λ x k. p.longer x (inr k);
        fresh = λ x k. elim (p.fresh x k) [
          | inl (inl e) ↦ inr (p.kept x (inl (e ∙ sym named)))
          | inl (inr k') ↦ inl k'
          | inr k' ↦ inr k'
        ];
        all = λ x k. elim k [
          | inl e ↦ (p.longer x (inl e), λ e'. hn (sym e ∙ e'))
          | inr k' ↦ p.all x k'
        ];
      }

  pub bases-Judged :
      (bases : List Bytes) (locations : List SourceLocation) (pending : List ClassDeclaration)
      (path : List Bytes)
      → AreKnown bases
      → All (IsFound n.classes) pending
      → In name path
      → Judged bases pending path (cycle_bases n name bases locations pending path)
  unfolding cycle_bases find_class
  bases-Judged [] locations pending path hk hp hn = inl (
    (pending, path),
    refl,
    record {
      found = hp;
      size = omega arith;
      comes = λ x k. inl k;
      kept = λ x k. k;
      longer = λ x k. k;
      fresh = λ x k. inl k;
      all = λ x k. absurd k;
    },
  )
  bases-Judged (b ∷ bases) locations pending path ((c, o), hk) hp hn =
      elim (Bool-cases (is_member b path)) [
        | inl m ↦ elim (Bool-cases (equal b name)) [
          | inl e ↦ inr (
            first_location locations,
            cycle_message b,
            rw (m, e) refl,
            inl (sym ((equal_iff b name).0 e)),
          )
          | inr e ↦ elim (bases-Judged bases (drop 1 locations) pending path hk hp hn) [
            | inl (s, r, p) ↦ inl (
              s,
              rw (m, e) r,
              Passed-known b bases path pending s (is_member→In b path m) (apart e) p,
            )
            | inr (l, t, r, k) ↦ inr (l, t, rw (m, e) r, inr k)
          ]
        ]
        | inr m ↦
            let found = subst (λ x. find x n.classes ≡ some c) (sym (h b c o)) o in
            elim (bases-Judged bases (drop 1 locations) (c ∷ pending) (b ∷ path) hk (found, hp)
              (inr hn)) [
                | inl (s, r, p) ↦ inl (
                  s,
                  rw (m, o) r,
                  Passed-new b c bases path pending s o m
                      (λ e.
                        absurd (cc (In→is_member b path (subst (λ x. In x path) (sym e) hn), m)))
                      p,
                )
                | inr (l, t, r, k) ↦ inr (l, t, rw (m, o) r, inr k)
              ]
      ]
    where
      apart : {b : Bytes} → equal b name ≡ false → b ≢ name
      apart {b} e same = cc (e, (equal_iff b name).1 same)
