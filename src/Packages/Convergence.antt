-- ===== src/Packages/Convergence.antt =====
-- The attempts of `Resolver::resolve` of src/PackageRegistry.cpp: the second one finds the pins of
-- the first one.
use simp.Base.{
  ℕ, suc, ◌<◌, ◌≡◌, refl, sym, ap, ◌∙◌, subst, Bool, false, Option, none, some, List, [], ◌∷◌, inl,
  inr, Bytes, In, Option-cases, Bool-cases, arith, ◌==◌, if◌then◌else◌,
}
use simp.Base.Attempts.{Attempt, done}
use simp.Base.Tables.{find, find-In, is_member}
use simp.Packages.Searches.{Search, walked}
use simp.Packages.Manifest.{ResolvedPackage, PackageManifest, ModuleVersionPolicy}
use simp.Packages.Select.{select}
use simp.Packages.Resolver.{
  PackageResolution, Graph, Pins, same_pins, Visited, pin_of, each_dependency, visit, pinned_roots,
  state_text, no_graph, is_some, no_resolution, attempt_loop, package_roots, resolution_of,
  resolve_roots, resolve,
}
use simp.Packages.SortedPins.{pinned, ArePinned, find-version, pinned-same, same_pins_self}
use simp.Packages.Compatible.{IsCompatible, IsCalm, Together, Alike, AllAlike, each-Together}
use simp.Packages.Together.{visit-Together}

suc_not_zero : (k : ℕ) → (suc k == 0) ≡ false
suc_not_zero k = ground arith

else_of : {A : Type 0} (b : Bool) (x : A) {y z : A} → b ≡ false → y ≡ z → (if b then x else y) ≡ z
else_of b x h e = rw (h) e

module _ (choose : Bytes → Bytes → Attempt PackageManifest) (locked : Bool) (names : List Bytes)
    (manifest : Bytes → PackageManifest) (rank : Bytes → ℕ)
    (c : IsCompatible choose names manifest rank) (f : ℕ) (requested : List Bytes)
    (known : (x : Bytes) → In x requested → In x names × (rank x < f)) where
  abbrev version : Bytes → Bytes
  version x = (manifest x).resolved.version

  -- A pinned root, and the same root without a pin.
  root-Alike :
      (pins : Pins) (x : Bytes)
      → ArePinned version pins
      → In x requested
      → Alike manifest
          (λ y. In y (pinned pins))
          names
          (record { name = x; version = [] })
          (record { name = x; version = pin_of pins x })
  root-Alike pins x a i = elim (Option-cases (find x pins)) [
    | inl o ↦ rw (o) (record {
      name = refl;
      known = (known x i).0;
      fits = inl refl;
      fits_too = inl refl;
      less = λ e. refl;
      more = λ n. absurd (n refl);
    })
    | inr (v, o) ↦ rw (o) (record {
      name = refl;
      known = (known x i).0;
      fits = inl refl;
      fits_too = inr (sym (find-version version x v pins a o));
      less = λ e. refl;
      more = λ n. inr (find-In x v pins o);
    })
  ]

  roots-AllAlike :
      (pins : Pins) (roots : List Bytes)
      → ArePinned version pins
      → ((x : Bytes) → In x roots → In x requested)
      → AllAlike choose locked names manifest rank c
          (λ y. In y (pinned pins))
          f
          no_graph
          (pinned_roots [] roots)
          (pinned_roots pins roots)
  unfolding find
  roots-AllAlike pins [] a sub = tt
  roots-AllAlike pins (x ∷ roots) a sub = (
    root-Alike pins x a (sub x (inl refl)),
    (known x (sub x (inl refl))).1,
    λ y o. cc,
    roots-AllAlike pins roots a (λ y i. sub y (inr i)),
  )

  pass : Pins → Search Visited
  pass pins = each_dependency (visit choose locked f) (pinned_roots pins requested) (no_graph, [])

  -- The first attempt next to one with any pins.
  passes-Together :
      (pins : Pins)
      → ArePinned version pins
      → Together manifest (λ y. In y (pinned pins)) no_graph (pass []) (pass pins)
  unfolding pass find
  passes-Together pins a =
      each-Together choose locked names manifest rank c (λ y. In y (pinned pins))
        (visit choose locked f) f
        (visit-Together choose locked names manifest rank c (λ y. In y (pinned pins)) f)
        (pinned_roots [] requested) (pinned_roots pins requested) no_graph [] []
        (roots-AllAlike pins requested a (λ y i. i)) (record { steady = refl; same = λ x p o. cc })
        (record { first = tt; second = tt; covered = λ x i. i; extra = λ x i. inl i })

  -- The graph of the first attempt, and the pins of all.
  passes-same :
      (g : Graph) × (pins : Pins) × (pass [] ≡ walked (g, pins))
      × (pass pins ≡ walked (g, pins))
      × IsCalm manifest g
  passes-same =
      let v = passes-Together [] tt in
      let w = passes-Together v.one v.twins.first in
      let firsts : (v.graph, v.one) ≡ (w.graph, w.one) =
        walked-injective (sym v.one_ends ∙ w.one_ends) in
      let pins : v.one ≡ w.one = ap (λ s. s.1) firsts in
      let again =
        pinned-same version w.two w.one w.twins.second w.twins.first
          (λ x i. elim (w.twins.extra x i) [
            | inl j ↦ j
            | inr j ↦ subst (λ l. In x (pinned l)) pins j
          ])
          w.twins.covered in
      (
        v.graph,
        v.one,
        v.one_ends,
        w.two_ends ∙ ap (λ q. walked (w.graph, q)) again ∙ ap (λ t. walked t) (sym firsts),
        v.calm,
      )
    where
      walked-injective : {s t : Visited} → ◌≡◌ {A = Search Visited} (walked s) (walked t) → s ≡ t
      walked-injective e = cc

  second_attempt :
      (g : Graph) (pins : Pins) (k : ℕ) (previous : List Bytes)
      → pass pins ≡ walked (g, pins)
      → g.restart ≡ false
      → attempt_loop choose locked f (suc k) requested pins previous ≡ walked g
  unfolding attempt_loop pass
  second_attempt g pins k previous e s = rw (e, same_pins_self pins) (else_of g.restart _ s refl)

  first_attempt :
      (g : Graph) (pins : Pins) (k : ℕ)
      → pass [] ≡ walked (g, pins)
      → g.restart ≡ false
      → attempt_loop choose locked f (suc k) requested pins (state_text pins ∷ []) ≡ walked g
      → attempt_loop choose locked f (suc (suc k)) requested [] [] ≡ walked g
  unfolding attempt_loop pass is_member
  first_attempt g pins k e s next =
      rw (e, suc_not_zero k)
        (else_of g.restart _ s
          (elim (Bool-cases (same_pins pins [])) [ inl h ↦ rw (h) refl | inr h ↦ rw (h) next ]))

  pub attempts-walked :
      (g : Graph) × (attempt_loop choose locked f 64 requested [] [] ≡ walked g) × IsCalm manifest g
  attempts-walked =
      let (g, pins, first, second, k) = passes-same in
      (
        g,
        first_attempt g pins 62 first k.steady
            (second_attempt g pins 62 (state_text pins ∷ []) second k.steady),
        k,
      )

-- A requested name is one of a package.
abbrev pub HasCandidates : (Bytes → Attempt (List PackageManifest)) → Bytes → Type 0
HasCandidates discover x =
    (m : PackageManifest) × (cs : List PackageManifest) × (discover x ≡ done (m ∷ cs))

module _ (roots : List Bytes) (discover : Bytes → Attempt (List PackageManifest))
    (tree_sha256 : Bytes → Attempt Bytes) (file_name : Bytes → Bytes) where
  all_roots :
      (policy : Option ModuleVersionPolicy) (requested : List Bytes)
      → ((x : Bytes) → In x requested → HasCandidates discover x)
      → package_roots roots discover tree_sha256 file_name policy requested ≡ walked requested
  unfolding package_roots
  all_roots (some policy) requested h = refl
  all_roots none [] h = refl
  all_roots none (x ∷ requested) h =
      let (m, cs, e) = h x (inl refl) in rw (e, all_roots none requested (λ y i. h y (inr i))) refl

  roots-walked :
      (policy : Option ModuleVersionPolicy) (names : List Bytes)
      (manifest : Bytes → PackageManifest) (rank : Bytes → ℕ)
      → IsCompatible (select roots discover tree_sha256 file_name policy) names manifest rank
      → (f : ℕ) (requested : List Bytes)
      → ((x : Bytes) → In x requested → In x names × (rank x < f))
      → (r : PackageResolution) × (resolve_roots roots discover tree_sha256 file_name f policy
            requested
          ≡ walked r)
        × ((x : Bytes) (p : ResolvedPackage)
            → find x r.packages ≡ some p
            → p ≡ (manifest x).resolved)
  unfolding find
  roots-walked policy names manifest rank c f [] known = (no_resolution, refl, λ x p o. cc)
  roots-walked policy names manifest rank c f (n ∷ requested) known =
      let (g, e, k) =
        attempts-walked (select roots discover tree_sha256 file_name policy) (is_some policy) names
          manifest rank c f (n ∷ requested) known in
      (resolution_of g, rw (e) refl, k.same)

  -- When every requested name has candidates, `select` chooses for each of some names the same
  -- package whatever fitting version is required, those packages require only fitting versions of
  -- names among them, and their dependencies have no cycles and fewer levels than the fuel, then
  -- `resolve` does not throw, and its packages are the chosen ones.
  pub resolve-converges :
      (f : ℕ) (policy : Option ModuleVersionPolicy) (requested names : List Bytes)
      (manifest : Bytes → PackageManifest) (rank : Bytes → ℕ)
      → ((x : Bytes) → In x requested → HasCandidates discover x)
      → IsCompatible (select roots discover tree_sha256 file_name policy) names manifest rank
      → ((x : Bytes) → In x requested → In x names × (rank x < f))
      → (r : PackageResolution) × (resolve roots discover tree_sha256 file_name f policy requested
          ≡ walked r)
        × ((x : Bytes) (p : ResolvedPackage)
            → find x r.packages ≡ some p
            → p ≡ (manifest x).resolved)
  unfolding resolve
  resolve-converges f policy requested names manifest rank h c known =
      rw (all_roots policy requested h)
        (roots-walked policy names manifest rank c f requested known)
