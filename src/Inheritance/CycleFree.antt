-- ===== src/Inheritance/CycleFree.antt =====
-- About the search for inheritance cycles in src/SemanticAnalyzer.cpp: the loop over pending classes.
use simp.Base.{
  ℕ, zero, suc, ◌+◌, ◌<◌, ◌≡◌, ◌≢◌, refl, sym, List, [], ◌∷◌, Bytes, some, length, equal,
  Bool-cases, ◌⊎◌, inl, inr, arith, In, All, subst, SourceLocation,
}
use simp.Base.Tables.{Table, find}
use simp.Base.Loaded.{Loaded, loaded, rejected}
use simp.Ast.Declarations.{ClassDeclaration}
use simp.Naming.Resolve.{Names}
use simp.Inheritance.Classes.{IsNamed}
use simp.Inheritance.Above.{Above, direct, through, along}
use simp.Inheritance.Bounded.{IsAcyclic}
use simp.Inheritance.Cycles.{Search, cycle_loop, check_cycles}
use simp.Inheritance.Scanned.{names_of, IsFound, IsKnown}
use simp.Inheritance.CycleSteps.{unseen, unseen-most, Passed, bases-Judged}

-- The bases of every class are classes.
abbrev pub HasKnownBases : Table ClassDeclaration → Type 0
HasKnownBases classes =
    (name : Bytes) (c : ClassDeclaration)
    → find name classes ≡ some c
    → All (IsKnown classes) c.base_class_names

module _ (n : Names) (h : IsNamed n.classes) (hk : HasKnownBases n.classes) (name : Bytes) where
  -- What is seen is pending, or its bases are seen and are not `name`.
  abbrev IsClosed : List ClassDeclaration → List Bytes → Type 0
  IsClosed pending path =
      (v : Bytes)
      → In v path
      → In v (names_of pending)
        ⊎ ((c : ClassDeclaration)
            → find v n.classes ≡ some c
            → (b : Bytes) → In b c.base_class_names
            → In b path × (b ≢ name))

  -- A pending class is `name` or above it.
  abbrev IsReached : List ClassDeclaration → Type 0
  IsReached pending = (x : Bytes) → In x (names_of pending) → (x ≡ name) ⊎ Above n.classes name x

  closed-end :
      {v : Bytes} (path : List Bytes) → IsClosed [] path → In v path → ¬ Above n.classes v name
  closed-end {v} path hc hv (direct {c} o k) = elim (hc v hv) [
    | inl none_left ↦ none_left
    | inr all ↦ (all c o name k).1 refl
  ]
  closed-end {v} path hc hv (through {m} {c} o k r) = elim (hc v hv) [
    | inl none_left ↦ none_left
    | inr all ↦ closed-end path hc (all c o m k).0 r
  ]

  -- The search accepts a class that is not above itself, and rejects one that is.
  abbrev Decided : Loaded Unit → Type 0
  Decided r =
      ((r ≡ loaded tt) × (¬ Above n.classes name name))
      ⊎ ((l : SourceLocation) × (m : Bytes) × (r ≡ rejected l m) × Above n.classes name name)

  reach-next :
      (c : ClassDeclaration) (pending : List ClassDeclaration) (path : List Bytes) (s : Search)
      → IsFound n.classes c
      → IsReached (c ∷ pending)
      → Passed n h name c.base_class_names pending path s
      → IsReached s.0
  reach-next c pending path s hf hr p x k = elim (p.comes x k) [
    | inl k' ↦ hr x (inr k')
    | inr k' ↦ inr (step-up c x hf (hr c.name (inl refl)) k')
  ]
    where
      step-up :
          (c : ClassDeclaration) (x : Bytes)
          → IsFound n.classes c
          → (c.name ≡ name) ⊎ Above n.classes name c.name
          → In x c.base_class_names
          → Above n.classes name x
      step-up c x hf (inl e) k = direct (subst (λ y. find y n.classes ≡ some c) e hf) k
      step-up c x hf (inr r) k = along name r hf k

  same :
      (c d : ClassDeclaration) (v : Bytes)
      → IsFound n.classes c
      → v ≡ c.name
      → find v n.classes ≡ some d
      → c ≡ d
  same c d v hf e o = cc (hf, subst (λ x. find x n.classes ≡ some d) e o)

  IsClosed-next :
      (c : ClassDeclaration) (pending : List ClassDeclaration) (path : List Bytes) (s : Search)
      → IsFound n.classes c
      → IsClosed (c ∷ pending) path
      → Passed n h name c.base_class_names pending path s
      → IsClosed s.0 s.1
  IsClosed-next c pending path s hf hc p v hv = elim (p.fresh v hv) [
    | inr k ↦ inl k
    | inl k ↦ elim (hc v k) [
      | inl (inl e) ↦
          inr
            λ d o b hb. p.all b (subst (λ x. In b x.base_class_names) (sym (same c d v hf e o)) hb)
      | inl (inr k') ↦ inl (p.kept v k')
      | inr all ↦ inr λ d o b hb. (p.longer b (all d o b hb).0, (all d o b hb).1)
    ]
  ]

  loop-Decided :
      (f : ℕ) (pending : List ClassDeclaration) (path : List Bytes)
      → All (IsFound n.classes) pending
      → length pending + unseen n.classes path < f
      → In name path
      → IsReached pending
      → IsClosed pending path
      → Decided (cycle_loop n name f (pending, path))
  unfolding cycle_loop
  loop-Decided zero pending path hp hf hn hr hc = absurd (omega (arith, hf))
  loop-Decided (suc f) [] path hp hf hn hr hc = inl (refl, closed-end path hc hn)
  loop-Decided (suc f) (c ∷ pending) path hp hf hn hr hc =
      elim (bases-Judged n h name c.base_class_names c.base_locations pending path
        (hk c.name c hp.0) hp.1 hn) [
          | inl ((next, path'), e, p) ↦ rw e (
              loop-Decided f next path' p.found (omega (arith, hf, p.size)) (p.longer name hn)
                (reach-next c pending path (next, path') hp.0 hr p)
                (IsClosed-next c pending path (next, path') hp.0 hc p))
          | inr (l, m, e, k) ↦ inr (
            l,
            m,
            rw e refl,
            elim (hr c.name (inl refl)) [
              | inl e' ↦ direct (subst (λ y. find y n.classes ≡ some c) e' hp.0) k
              | inr r ↦ along name r hp.0 k
            ],
          )
        ]

-- In a table in which each class stands under its own name and every base is a class, the check of
-- a class for inheritance cycles ends: it passes and the class is not above itself, or it throws and
-- the class is above itself.
pub check_cycles-decides :
    (n : Names) (name : Bytes) (c : ClassDeclaration)
    → IsNamed n.classes
    → HasKnownBases n.classes
    → find name n.classes ≡ some c
    → ((check_cycles n c ≡ loaded tt) × (¬ Above n.classes name name))
      ⊎ ((l : SourceLocation) × (m : Bytes) × (check_cycles n c ≡ rejected l m)
          × Above n.classes name name)
unfolding check_cycles
check_cycles-decides n name c h hk o =
    let named : c.name ≡ name = h name c o in
    let found = subst (λ x. find x n.classes ≡ some c) (sym named) o in
    subst
      (λ x.
        Decided n h hk x (cycle_loop n c.name (suc (suc (length n.classes))) (c ∷ [], c.name ∷ [])))
      named
      (loop-Decided n h hk c.name (suc (suc (length n.classes))) (c ∷ []) (c.name ∷ []) (found, tt)
        (omega (arith, unseen-most n.classes (c.name ∷ []))) (inl refl)
        (λ x k. elim k [ inl e ↦ inl e | inr k' ↦ absurd k' ]) λ v k. inl k)

find-All :
    {A : Type 0} (P : A → Type 0) (name : Bytes) (table : Table A) (x : A)
    → All (λ e. P e.1) table
    → find name table ≡ some x
    → P x
unfolding find
find-All P name [] x h e = absurd (cc e)
find-All P name ((key, y) ∷ table) x h e = elim (Bool-cases (equal key name)) [
  | inl here ↦ subst P (cc (rw here at e)) h.0
  | inr other ↦ find-All P name table x h.1 (rw other at e)
]

known : {classes : Table ClassDeclaration} {a b : Bytes} → Above classes a b → IsKnown classes a
known (direct {c} o k) = (c, o)
known (through {c} o k r) = (c, o)

-- A table of classes that all pass the check has no cycle.
pub checked-IsAcyclic :
    (n : Names)
    → IsNamed n.classes
    → HasKnownBases n.classes
    → All (λ e. check_cycles n e.1 ≡ loaded tt) n.classes
    → IsAcyclic n.classes
checked-IsAcyclic n h hk ha name up =
    let (c, o) = known up in
    elim (check_cycles-decides n name c h hk o) [
      | inl (e, apart) ↦ apart up
      | inr (l, m, e, _) ↦
          absurd (cc (find-All (λ d. check_cycles n d ≡ loaded tt) name n.classes c ha o, e))
    ]

-- It is enough to look at each entry.
pub table-HasKnownBases :
    (classes : Table ClassDeclaration)
    → All (λ e. All (IsKnown classes) e.1.base_class_names) classes
    → HasKnownBases classes
table-HasKnownBases classes h name c o =
    find-All (λ d. All (IsKnown classes) d.base_class_names) name classes c h o
