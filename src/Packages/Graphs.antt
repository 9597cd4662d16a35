-- ===== src/Packages/Graphs.antt =====
-- What the graph of `Resolver::visit` of src/PackageRegistry.cpp keeps.
use simp.Base.{
  ℕ, ◌≡◌, ◌≢◌, refl, sym, ap, ◌∙◌, Option, none, some, List, [], ◌∷◌, ◌++◌, ◌⊎◌, inl, inr, Bytes,
  map, In, arith, subst,
}
use simp.Base.Tables.{
  Table, find, case_option, find-assign_self, find-assign_other, assign-new, equal-cases, apart_of,
}
use simp.Packages.Manifest.{PackageDependency, ResolvedPackage}
use simp.Packages.Resolver.{Graph, enter, leave}

-- The package has the version that the dependency requires.
abbrev pub IsMet : PackageDependency → ResolvedPackage → Type 0
IsMet d p = (d.version ≡ []) ⊎ (p.version ≡ d.version)

-- The dependency is one of the names, and its package has the required version.
abbrev pub IsServed : Table ResolvedPackage → List Bytes → PackageDependency → Type 0
IsServed packages order d =
    In d.name order × ((p : ResolvedPackage) × (find d.name packages ≡ some p) × IsMet d p)

-- Packages in the order in which their visits ended, the last one first: the dependencies of each
-- stand behind it.
pub data IsLayered (packages : Table ResolvedPackage) : List Bytes → Type 0 where
  bottom : IsLayered packages []
  above :
      {n : Bytes} {order : List Bytes} (p : ResolvedPackage)
      → find n packages ≡ some p
      → ¬ In n order
      → ((d : PackageDependency) → In d p.dependencies → IsServed packages order d)
      → IsLayered packages order
      → IsLayered packages (n ∷ order)

pub record IsSound (g : Graph) (order : List Bytes) : Type 0 where
  pub layered : IsLayered g.packages order
  pub left : (x : Bytes) → In x order → find x g.state ≡ some 2
  pub either :
      (x : Bytes) (p : ResolvedPackage)
      → find x g.packages ≡ some p
      → In x order ⊎ (find x g.state ≡ some 1)
  pub entered :
      (x : Bytes) → find x g.state ≡ some 1 → (p : ResolvedPackage) × (find x g.packages ≡ some p)
  pub listed : map (λ e. e.1) g.packages ≡ g.preorder

abbrev pub Grows : Graph → Graph → Type 0
Grows g h =
    (x : Bytes) (p : ResolvedPackage) → find x g.packages ≡ some p → find x h.packages ≡ some p

-- What a visit leaves behind of a sound graph.
pub record Later (g : Graph) (order : List Bytes) (h : Graph) (order' : List Bytes) : Type 0 where
  pub sound : IsSound h order'
  pub more : (x : Bytes) → In x order → In x order'
  pub begun : (x : Bytes) → find x g.state ≡ some 1 → find x h.state ≡ some 1
  pub pending : (x : Bytes) → find x h.state ≡ some 1 → find x g.state ≡ some 1

IsServed-Grows :
    (g h : Graph) (order order' : List Bytes) (d : PackageDependency)
    → Grows g h
    → ((x : Bytes) → In x order → In x order')
    → IsServed g.packages order d
    → IsServed h.packages order' d
IsServed-Grows g h order order' d k m (i, (p, o, v)) = (m d.name i, (p, k d.name p o, v))

pub Later-IsServed :
    (g h : Graph) (order order' : List Bytes) (d : PackageDependency)
    → Grows g h
    → Later g order h order'
    → IsServed g.packages order d
    → IsServed h.packages order' d
Later-IsServed g h order order' d k l s = IsServed-Grows g h order order' d k l.more s

IsLayered-Grows :
    (g h : Graph) (order : List Bytes)
    → Grows g h
    → IsLayered g.packages order
    → IsLayered h.packages order
IsLayered-Grows g h [] k bottom = bottom
IsLayered-Grows g h (n ∷ order) k (above p o apart deps rest) =
    above p (k n p o) apart (λ d i. IsServed-Grows g h order order d k (λ x m. m) (deps d i))
      (IsLayered-Grows g h order k rest)

layered-found :
    (packages : Table ResolvedPackage) (order : List Bytes) (x : Bytes)
    → IsLayered packages order
    → In x order
    → (p : ResolvedPackage) × (find x packages ≡ some p)
layered-found packages [] x bottom i = absurd i
layered-found packages (n ∷ order) x (above p o apart deps rest) (inl e) =
    (p, subst (λ y. find y packages ≡ some p) (sym e) o)
layered-found packages (n ∷ order) x (above p o apart deps rest) (inr i) =
    layered-found packages order x rest i

map-append-last :
    (table : Table ResolvedPackage) (n : Bytes) (p : ResolvedPackage)
    → map (λ e. e.1) (table ++ (n, p) ∷ []) ≡ map (λ e. e.1) table ++ p ∷ []
map-append-last [] n p = refl
map-append-last ((k, q) ∷ table) n p = ap (λ l. q ∷ l) (map-append-last table n p)

module _ (g : Graph) (name : Bytes) (p : ResolvedPackage) (new : find name g.packages ≡ none) where
  pub enter-Grows : Grows g (enter name p g)
  unfolding enter
  enter-Grows x q o = find-assign_other name p x g.packages (apart_of g.packages new o) ∙ o

  pub state_other : (x : Bytes) → name ≢ x → find x (enter name p g).state ≡ find x g.state
  unfolding enter
  state_other x n = find-assign_other name 1 x g.state n

  pub enter-entered : find name (enter name p g).state ≡ some 1
  unfolding enter
  enter-entered = find-assign_self name 1 g.state

  pub enter-found : find name (enter name p g).packages ≡ some p
  unfolding enter
  enter-found = find-assign_self name p g.packages

  pub name-cases : (x : Bytes) → (name ≡ x) ⊎ (name ≢ x)
  name-cases x = equal-cases name x

  pub enter-IsSound : {order : List Bytes} → IsSound g order → IsSound (enter name p g) order
  unfolding enter
  enter-IsSound {order} s = record {
    layered = IsLayered-Grows g (enter name p g) order enter-Grows s.layered;
    left = λ x i.
        let (q, o) = layered-found g.packages order x s.layered i in
        state_other x (apart_of g.packages new o) ∙ s.left x i;
    either = λ x q o. elim (name-cases x) [
      | inl e ↦ inr (subst (λ y. find y (enter name p g).state ≡ some 1) e enter-entered)
      | inr n ↦ elim (s.either x q (sym (find-assign_other name p x g.packages n) ∙ o)) [
        | inl i ↦ inl i
        | inr e ↦ inr (state_other x n ∙ e)
      ]
    ];
    entered = λ x e. elim (name-cases x) [
      | inl same ↦ (p, subst (λ y. find y (enter name p g).packages ≡ some p) same enter-found)
      | inr n ↦ let (q, o) = s.entered x (sym (state_other x n) ∙ e) in (q, enter-Grows x q o)
    ];
    listed =
        ap (map (λ e. e.1)) (assign-new name p g.packages new)
        ∙ map-append-last g.packages name p
        ∙ ap (λ l. l ++ p ∷ []) s.listed;
  }

  -- The visit of a new package: its dependencies are visited, and then it is left.
  pub leave-Later :
      {order : List Bytes} (h : Graph) (order' : List Bytes)
      → IsSound g order
      → Grows (enter name p g) h
      → Later (enter name p g) order h order'
      → ((d : PackageDependency) → In d p.dependencies → IsServed h.packages order' d)
      → Later g order (leave name h) (name ∷ order')
  unfolding leave
  leave-Later {order} h order' s k l deps =
      let apart = λ (i : In name order').
        two-ne-one (sym (l.sound.left name i) ∙ l.begun name enter-entered) in
      let other = λ (x : Bytes) (n : name ≢ x). find-assign_other name 2 x h.state n in
      record {
        sound = record {
          layered = above p (k name p enter-found) apart deps l.sound.layered;
          left = λ x i. elim i [
            | inl e ↦
                subst (λ y. find y (leave name h).state ≡ some 2) (sym e)
                  (find-assign_self name 2 h.state)
            | inr i' ↦
                other x (λ e. apart (subst (λ y. In y order') (sym e) i')) ∙ l.sound.left x i'
          ];
          either = λ x q o. elim (name-cases x) [
            | inl e ↦ inl (inl (sym e))
            | inr n ↦ elim (l.sound.either x q o) [
              | inl i ↦ inl (inr i)
              | inr e ↦ inr (other x n ∙ e)
            ]
          ];
          entered = λ x e. elim (name-cases x) [
            | inl same ↦ (p, subst (λ y. find y h.packages ≡ some p) same (k name p enter-found))
            | inr n ↦ l.sound.entered x (sym (other x n) ∙ e)
          ];
          listed = l.sound.listed;
        };
        more = λ x i. inr (l.more x i);
        begun = λ x e.
            let (q, o) = s.entered x e in
            let n = apart_of g.packages new o in other x n ∙ l.begun x (state_other x n ∙ e);
        pending = λ x e. elim (name-cases x) [
          | inl same ↦ absurd (
              two-ne-one (
                sym (find-assign_self name 2 h.state)
                ∙ subst (λ y. find y (leave name h).state ≡ some 1) (sym same) e))
          | inr n ↦ sym (state_other x n) ∙ l.pending x (sym (other x n) ∙ e)
        ];
      }
    where
      two-ne-one : ¬ ◌≡◌ {A = Option ℕ} (some 2) (some 1)
      two-ne-one e = absurd (omega (arith, ap (λ o. case_option o 0 (λ k. k)) e))
