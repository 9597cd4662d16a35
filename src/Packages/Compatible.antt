-- ===== src/Packages/Compatible.antt =====
-- Two runs of `Resolver::visit` of src/PackageRegistry.cpp side by side, with different pins.
use simp.Base.{
  ℕ, ◌<◌, ◌≡◌, ◌≢◌, refl, sym, subst, Bool, false, some, List, [], ◌∷◌, ◌⊎◌, inl, inr, Bytes, In,
}
use simp.Base.Attempts.{Attempt, done}
use simp.Base.Tables.{find}
use simp.Packages.Searches.{Search, walked}
use simp.Packages.Manifest.{PackageDependency, ResolvedPackage, PackageManifest}
use simp.Packages.Resolver.{Graph, Pins, Visited, each_dependency}
use simp.Packages.SortedPins.{pinned, ArePinned}
use simp.Packages.Pinned.{Pinned}

-- The required version is the one of the package.
abbrev pub Fits : (Bytes → PackageManifest) → Bytes → Bytes → Type 0
Fits manifest name required = (required ≡ []) ⊎ ((manifest name).resolved.version ≡ required)

-- Each of the names has one package that fits all requirements, and no package depends on itself.
pub record IsCompatible (choose : Bytes → Bytes → Attempt PackageManifest) (names : List Bytes)
    (manifest : Bytes → PackageManifest) (rank : Bytes → ℕ) : Type 0 where
  pub chosen :
      (x required : Bytes)
      → In x names
      → Fits manifest x required
      → choose x required ≡ done (manifest x)
  pub closed :
      (x : Bytes) (d : PackageDependency)
      → In x names
      → In d (manifest x).resolved.dependencies
      → In d.name names × Fits manifest d.name d.version
  pub lower :
      (x : Bytes) (d : PackageDependency)
      → In x names
      → In d (manifest x).resolved.dependencies
      → rank d.name < rank x

pub record IsCalm (manifest : Bytes → PackageManifest) (g : Graph) : Type 0 where
  pub steady : g.restart ≡ false
  pub same :
      (x : Bytes) (p : ResolvedPackage) → find x g.packages ≡ some p → p ≡ (manifest x).resolved

-- The second map has the names of the first one, and more of them only in `D`.
pub record Twins (version : Bytes → Bytes) (D : Bytes → Type 0) (p q : Pins) : Type 0 where
  pub first : ArePinned version p
  pub second : ArePinned version q
  pub covered : (x : Bytes) → In x (pinned p) → In x (pinned q)
  pub extra : (x : Bytes) → In x (pinned q) → In x (pinned p) ⊎ D x

-- Both searches end with the same graph.
pub record Together (manifest : Bytes → PackageManifest) (D : Bytes → Type 0) (g : Graph)
    (r s : Search Visited) : Type 0 where
  pub graph : Graph
  pub one : Pins
  pub two : Pins
  pub one_ends : r ≡ walked (graph, one)
  pub two_ends : s ≡ walked (graph, two)
  pub calm : IsCalm manifest graph
  pub pending : (x : Bytes) → find x graph.state ≡ some 1 → find x g.state ≡ some 1
  pub twins : Twins (λ x. (manifest x).resolved.version) D one two

-- What two dependencies on the same package have in common.
pub record Alike (manifest : Bytes → PackageManifest) (D : Bytes → Type 0) (names : List Bytes)
    (d e : PackageDependency) : Type 0 where
  pub name : e.name ≡ d.name
  pub known : In d.name names
  pub fits : Fits manifest d.name d.version
  pub fits_too : Fits manifest d.name e.version
  pub less : e.version ≡ [] → d.version ≡ []
  pub more : e.version ≢ [] → (d.version ≢ []) ⊎ D d.name

-- No package that is being visited has the rank or a lower one.
abbrev pub IsAbove : (Bytes → ℕ) → ℕ → Graph → Type 0
IsAbove rank r g = (x : Bytes) → find x g.state ≡ some 1 → r < rank x

module _ (choose : Bytes → Bytes → Attempt PackageManifest) (locked : Bool) (names : List Bytes)
    (manifest : Bytes → PackageManifest) (rank : Bytes → ℕ)
    (c : IsCompatible choose names manifest rank) (D : Bytes → Type 0) where
  abbrev manifest_version : Bytes → Bytes
  manifest_version x = (manifest x).resolved.version

  pub pins-Twins :
      (name r s : Bytes) (p q p' q' : Pins)
      → Twins manifest_version D p q
      → (s ≡ [] → r ≡ [])
      → (s ≢ [] → (r ≢ []) ⊎ D name)
      → Pinned manifest_version name r p p'
      → Pinned manifest_version name s q q'
      → Twins manifest_version D p' q'
  pins-Twins name r s p q p' q' t less more u v = record {
    first = u.are;
    second = v.are;
    covered = λ x i. elim (u.only x i) [
      | inl (e, n) ↦ elim v.present [
        | inl k ↦ absurd (n (less k))
        | inr j ↦ subst (λ y. In y (pinned q')) (sym e) j
      ]
      | inr i' ↦ v.kept x (t.covered x i')
    ];
    extra = λ x i. elim (v.only x i) [
      | inl (e, n) ↦ elim (more n) [
        | inl n' ↦ elim u.present [
          | inl k ↦ absurd (n' k)
          | inr j ↦ inl (subst (λ y. In y (pinned p')) (sym e) j)
        ]
        | inr here ↦ inr (subst D (sym e) here)
      ]
      | inr i' ↦ elim (t.extra x i') [ inl j ↦ inl (u.kept x j) | inr here ↦ inr here ]
    ];
  }

  -- What is asked of the visits of single dependencies.
  abbrev pub VisitTogether : (Bytes → Bytes → Visited → Search Visited) → ℕ → Type 0
  VisitTogether visit_one f =
      (d e : PackageDependency) (g : Graph) (p q : Pins)
      → Alike manifest D names d e
      → rank d.name < f
      → IsAbove rank (rank d.name) g
      → IsCalm manifest g
      → Twins manifest_version D p q
      → Together manifest D g (visit_one d.name d.version (g, p))
          (visit_one e.name e.version (g, q))

  abbrev pub AllAlike : ℕ → Graph → List PackageDependency → List PackageDependency → Type 0
  AllAlike f g [] [] = Unit
  AllAlike f g [] (e ∷ es) = ⊥
  AllAlike f g (d ∷ ds) [] = ⊥
  AllAlike f g (d ∷ ds) (e ∷ es) =
      Alike manifest D names d e
      × (rank d.name < f)
      × IsAbove rank (rank d.name) g
      × AllAlike f g ds es

  AllAlike-later :
      (f : ℕ) (g h : Graph) (ds es : List PackageDependency)
      → ((x : Bytes) → find x h.state ≡ some 1 → find x g.state ≡ some 1)
      → AllAlike f g ds es
      → AllAlike f h ds es
  AllAlike-later f g h [] [] k a = tt
  AllAlike-later f g h [] (e ∷ es) k a = absurd a
  AllAlike-later f g h (d ∷ ds) [] k a = absurd a
  AllAlike-later f g h (d ∷ ds) (e ∷ es) k (a, l, u, rest) =
      (a, l, λ x o. u x (k x o), AllAlike-later f g h ds es k rest)

  pub each-Together :
      (visit_one : Bytes → Bytes → Visited → Search Visited) (f : ℕ)
      → VisitTogether visit_one f
      → (ds es : List PackageDependency) (g : Graph) (p q : Pins) → AllAlike f g ds es
      → IsCalm manifest g
      → Twins manifest_version D p q
      → Together manifest D g
          (each_dependency visit_one ds (g, p))
          (each_dependency visit_one es (g, q))
  unfolding each_dependency
  each-Together visit_one f vt [] [] g p q a k t = record {
    graph = g;
    one = p;
    two = q;
    one_ends = refl;
    two_ends = refl;
    calm = k;
    pending = λ x o. o;
    twins = t;
  }
  each-Together visit_one f vt [] (e ∷ es) g p q a k t = absurd a
  each-Together visit_one f vt (d ∷ ds) [] g p q a k t = absurd a
  each-Together visit_one f vt (d ∷ ds) (e ∷ es) g p q (a, l, u, rest) k t =
      let v = vt d e g p q a l u k t in
      let w =
        each-Together visit_one f vt ds es v.graph v.one v.two
          (AllAlike-later f g v.graph ds es v.pending rest) v.calm v.twins in
      record {
        graph = w.graph;
        one = w.one;
        two = w.two;
        one_ends = rw (v.one_ends) w.one_ends;
        two_ends = rw (v.two_ends) w.two_ends;
        calm = w.calm;
        pending = λ x o. v.pending x (w.pending x o);
        twins = w.twins;
      }
