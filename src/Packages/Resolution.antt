-- ===== src/Packages/Resolution.antt =====
-- `Resolver::resolve` of src/PackageRegistry.cpp: the attempts, and the packages of the last one.
use simp.Base.{
  ℕ, zero, suc, ◌<◌, ◌≡◌, refl, sym, subst, Bool, false, Option, none, some, List, [], ◌∷◌, ◌⊎◌,
  inl, inr, Bytes, In, map, length, arith, ◌==◌, if◌then◌else◌,
}
use simp.Base.Attempts.{Attempt, done}
use simp.Base.Tables.{find, is_member}
use simp.Packages.Searches.{Ends, ends, throws, Ends-bind, Ends-map, Ends-if, Ends-attempt}
use simp.Packages.Manifest.{
  PackageDependency, ResolvedPackage, PackageManifest, ModuleVersionPolicy,
}
use simp.Packages.Select.{select}
use simp.Packages.Resolver.{
  PackageResolution, Graph, Pins, same_pins, visit, pinned_roots, state_text, no_graph, no_limit,
  is_some, is_none_found, attempt_loop, package_roots, resolution_of, resolve_roots, resolve,
}
use simp.Packages.Missing.{missing_all}
use simp.Packages.Graphs.{IsLayered, bottom, IsSound}
use simp.Packages.Visits.{Visits, each-Ends}
use simp.Packages.Descent.{visit-Ends}
use simp.Packages.Chosen.{select-Chosen}

-- The packages can be put in an order in which each stands before its dependencies.
pub record IsResolution (Root : Bytes → Type 0) (r : PackageResolution) : Type 0 where
  pub order : List Bytes
  pub layered : IsLayered r.packages order
  pub complete : (x : Bytes) (p : ResolvedPackage) → find x r.packages ≡ some p → In x order
  pub rooted : (x : Bytes) → Root x → In x order
  pub listed : map (λ e. e.1) r.packages ≡ r.link_order

no_graph-IsSound : IsSound no_graph []
unfolding find
no_graph-IsSound = record {
  layered = bottom;
  left = λ x i. absurd i;
  either = λ x p o. cc;
  entered = λ x e. cc;
  listed = refl;
}

pinned-In :
    (pins : Pins) (names : List Bytes) (x : Bytes)
    → In x names
    → (d : PackageDependency) × In d (pinned_roots pins names) × (d.name ≡ x)
pinned-In pins [] x i = absurd i
pinned-In pins (n ∷ names) x (inl e) = (_, inl refl, sym e)
pinned-In pins (n ∷ names) x (inr i) = let (d, j, e) = pinned-In pins names x i in (d, inr j, e)

visited-IsResolution :
    (pins : Pins) (names : List Bytes) (g : Graph)
    → Visits no_graph [] (pinned_roots pins names) g
    → g.restart ≡ false
    → IsResolution (λ x. In x names) (resolution_of g)
unfolding find
visited-IsResolution pins names g v e = elim v.result [
  | inl r ↦ cc (r, e)
  | inr (order, l, served) ↦ record {
    order = order;
    layered = l.sound.layered;
    complete = λ x p o. elim (l.sound.either x p o) [ inl i ↦ i | inr s ↦ cc (l.pending x s) ];
    rooted = λ x i.
        let (d, j, same) = pinned-In pins names x i in subst (λ y. In y order) same (served d j).0;
    listed = l.sound.listed;
  }
]

module _ (choose : Bytes → Bytes → Attempt PackageManifest) (locked : Bool) (installed : List Bytes)
    (chosen : (name required : Bytes) (m : PackageManifest)
      → choose name required ≡ done m
      → In name installed × ((required ≡ []) ⊎ (m.resolved.version ≡ required))) where
  one_attempt :
      (f k : ℕ) (names : List Bytes) (pins : Pins) (previous : List Bytes)
      → length installed < f
      → ((pins' : Pins) (previous' : List Bytes)
          → Ends
              (λ g. IsResolution (λ x. In x names) (resolution_of g))
              (if k == 0 then no_limit else attempt_loop choose locked f k names pins' previous'))
      → Ends
          (λ g. IsResolution (λ x. In x names) (resolution_of g))
          (attempt_loop choose locked f (suc k) names pins previous)
  unfolding attempt_loop
  one_attempt f k names pins previous hf again =
      Ends-bind
        (each-Ends installed (visit choose locked f) f (visit-Ends choose locked installed chosen f)
          (pinned_roots pins names) (no_graph, []) []
          (omega (arith, hf, missing_all ResolvedPackage installed)) (inr no_graph-IsSound))
        λ (g, discovered) v.
          Ends-if g.restart (λ _. again discovered previous)
            λ e.
              Ends-if (same_pins discovered pins)
                (λ _. ends (visited-IsResolution pins names g v e))
                λ _.
                  Ends-if (is_member (state_text discovered) previous) (λ _. throws)
                    λ _. again discovered (state_text discovered ∷ previous)

  -- There is an attempt left.
  attempts-Ends :
      (f k : ℕ) (names : List Bytes) (pins : Pins) (previous : List Bytes)
      → length installed < f
      → Ends
          (λ g. IsResolution (λ x. In x names) (resolution_of g))
          (attempt_loop choose locked f (suc k) names pins previous)
  attempts-Ends f zero names pins previous hf = one_attempt f 0 names pins previous hf λ _ _. throws
  attempts-Ends f (suc k) names pins previous hf =
      one_attempt f (suc k) names pins previous hf λ pins' previous'.
        Ends-if (suc k == 0) (λ _. throws) λ _. attempts-Ends f k names pins' previous' hf

-- A list that has every name with a candidate.
abbrev pub HasInstalled : (Bytes → Attempt (List PackageManifest)) → List Bytes → Type 0
HasInstalled discover installed =
    (name : Bytes) (m : PackageManifest) (cs : List PackageManifest)
    → discover name ≡ done cs
    → In m cs
    → In name installed

-- The requested names that are packages: all of them under a policy.
abbrev pub IsRoot :
    (Bytes → Attempt (List PackageManifest))
    → Option ModuleVersionPolicy
    → List Bytes
    → Bytes
    → Type 0
IsRoot discover (some policy) requested x = In x requested
IsRoot discover none requested x =
    In x requested
    × ((m : PackageManifest) × (cs : List PackageManifest) × (discover x ≡ done (m ∷ cs)))

more_roots :
    (discover : Bytes → Attempt (List PackageManifest)) (n : Bytes) (cs : List PackageManifest)
    (requested rest : List Bytes)
    → discover n ≡ done cs
    → ((x : Bytes) → IsRoot discover none requested x → In x rest)
    → (x : Bytes) → IsRoot discover none (n ∷ requested) x
    → In x (if is_none_found cs then rest else n ∷ rest)
more_roots discover n [] requested rest hd h x (inl e, (m, cs, found)) = cc
more_roots discover n [] requested rest hd h x (inr i, found) = h x (i, found)
more_roots discover n (c ∷ cs) requested rest hd h x (inl e, found) = inl e
more_roots discover n (c ∷ cs) requested rest hd h x (inr i, found) = inr (h x (i, found))

module _ (roots : List Bytes) (discover : Bytes → Attempt (List PackageManifest))
    (tree_sha256 : Bytes → Attempt Bytes) (file_name : Bytes → Bytes) where
  package_roots-Ends :
      (policy : Option ModuleVersionPolicy) (requested : List Bytes)
      → Ends
          (λ names. (x : Bytes) → IsRoot discover policy requested x → In x names)
          (package_roots roots discover tree_sha256 file_name policy requested)
  unfolding package_roots
  package_roots-Ends (some policy) requested = ends λ x i. i
  package_roots-Ends none [] = ends λ x i. absurd i.0
  package_roots-Ends none (n ∷ requested) = Ends-bind (Ends-attempt (discover n)) λ cs hc.
      Ends-bind (package_roots-Ends none requested)
        λ rest h. ends (more_roots discover n cs requested rest hc h)

  roots-Ends :
      (f : ℕ) (policy : Option ModuleVersionPolicy) (names installed : List Bytes)
      → HasInstalled discover installed
      → length installed < f
      → Ends
          (λ r. IsResolution (λ x. In x names) r)
          (resolve_roots roots discover tree_sha256 file_name f policy names)
  unfolding find
  roots-Ends f policy [] installed hi hf = ends (record {
    order = [];
    layered = bottom;
    complete = λ x p o. cc;
    rooted = λ x i. i;
    listed = refl;
  })
  roots-Ends f policy (n ∷ names) installed hi hf =
      Ends-bind
        (attempts-Ends (select roots discover tree_sha256 file_name policy) (is_some policy)
          installed
          (λ name required m e.
            let ((cs, hc, i), met) =
              select-Chosen roots discover tree_sha256 file_name policy name required m e in
            (hi name m cs hc i, met))
          f 63 (n ∷ names) [] [] hf)
        λ g r. ends r

  -- When the fuel is greater than the number of names that have candidates, `resolve` ends: it
  -- throws, or its packages can be put in an order in which each has all its dependencies, in the
  -- versions that it requires, behind it. Each package of the result and each requested name that
  -- is a package is in this order once, and the link order lists the packages of the result.
  pub resolve-IsResolution :
      (f : ℕ) (policy : Option ModuleVersionPolicy) (requested installed : List Bytes)
      → HasInstalled discover installed
      → length installed < f
      → Ends
          (λ r. IsResolution (IsRoot discover policy requested) r)
          (resolve roots discover tree_sha256 file_name f policy requested)
  unfolding resolve
  resolve-IsResolution f policy requested installed hi hf =
      Ends-bind (package_roots-Ends policy requested) λ names h.
        Ends-map (roots-Ends f policy names installed hi hf) λ _ r. record {
          order = r.order;
          layered = r.layered;
          complete = r.complete;
          rooted = λ x i. r.rooted x (h x i);
          listed = r.listed;
        }
