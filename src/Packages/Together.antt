-- ===== src/Packages/Together.antt =====
-- `Resolver::visit` of src/PackageRegistry.cpp on packages that fit all requirements.
use simp.Base.{
  ℕ, zero, suc, ◌<◌, ◌≡◌, ◌≢◌, refl, sym, ap, ◌∙◌, subst, Bool, false, Option, none, some, List, [],
  ◌∷◌, inl, inr, Bytes, In, Option-cases, Bool-cases, arith, equal_self, ◌==◌, ==_iff,
}
use simp.Base.Attempts.{Attempt}
use simp.Base.Tables.{find, case_option, find-assign_self, find-assign_other}
use simp.Packages.Searches.{walked}
use simp.Packages.Manifest.{PackageDependency, ResolvedPackage, PackageManifest}
use simp.Packages.Resolver.{Graph, Pins, revisit, enter, leave, each_dependency, visit}
use simp.Packages.Graphs.{state_other, name-cases}
use simp.Packages.Pinned.{pin-Pinned}
use simp.Packages.Compatible.{
  IsCompatible, IsCalm, Twins, Together, IsAbove, AllAlike, VisitTogether, pins-Twins,
  each-Together,
}

is-one_not : (o : Option ℕ) → o ≢ some 1 → case_option o false (λ s. s == 1) ≡ false
is-one_not none n = refl
is-one_not (some s) n = elim (Bool-cases (s == 1)) [
  | inl e ↦ absurd (n (ap (λ k. some k) ((==_iff s 1).0 e)))
  | inr e ↦ e
]

two-ne-one : ¬ ◌≡◌ {A = Option ℕ} (some 2) (some 1)
two-ne-one e = absurd (omega (arith, ap (λ o. case_option o 0 λ k. k) e))

revisit_calm :
    (name : Bytes) (m : PackageManifest) (g : Graph)
    → find name g.state ≢ some 1
    → revisit name m m.resolved g ≡ walked g
unfolding revisit
revisit_calm name m g n = rw (equal_self m.resolved.version, is-one_not (find name g.state) n) refl

module _ (name : Bytes) (p : ResolvedPackage) (g : Graph) where
  enter-pending :
      (r : ℕ) (rank : Bytes → ℕ)
      → find name g.packages ≡ none
      → r < rank name
      → IsAbove rank (rank name) g
      → IsAbove rank r (enter name p g)
  enter-pending r rank new l u x o = elim (name-cases g name p new x) [
    | inl e ↦ subst (λ y. r < rank y) e l
    | inr n ↦ let above = u x (sym (state_other g name p new x n) ∙ o) in omega (arith, above, l)
  ]

  enter-IsCalm :
      (manifest : Bytes → PackageManifest)
      → find name g.packages ≡ none
      → p ≡ (manifest name).resolved
      → IsCalm manifest g
      → IsCalm manifest (enter name p g)
  unfolding enter
  enter-IsCalm manifest new e k = record {
    steady = k.steady;
    same = λ x q o. elim (name-cases g name p new x) [
      | inl s ↦ cc (o, s, e, find-assign_self name p g.packages)
      | inr n ↦ k.same x q (sym (find-assign_other name p x g.packages n) ∙ o)
    ];
  }

  leave-pending :
      (h : Graph)
      → find name g.packages ≡ none
      → ((x : Bytes) → find x h.state ≡ some 1 → find x (enter name p g).state ≡ some 1)
      → (x : Bytes) → find x (leave name h).state ≡ some 1
      → find x g.state ≡ some 1
  unfolding leave
  leave-pending h new k x o = elim (name-cases g name p new x) [
    | inl s ↦ absurd (two-ne-one (cc (o, s, find-assign_self name 2 h.state)))
    | inr n ↦
        sym (state_other g name p new x n) ∙ k x (sym (find-assign_other name 2 x h.state n) ∙ o)
  ]

leave-IsCalm :
    (name : Bytes) (manifest : Bytes → PackageManifest) (h : Graph)
    → IsCalm manifest h
    → IsCalm manifest (leave name h)
unfolding leave
leave-IsCalm name manifest h k = record { steady = k.steady; same = k.same }

module _ (choose : Bytes → Bytes → Attempt PackageManifest) (locked : Bool) (names : List Bytes)
    (manifest : Bytes → PackageManifest) (rank : Bytes → ℕ)
    (c : IsCompatible choose names manifest rank) (D : Bytes → Type 0) where
  -- The dependencies of a package, in both runs.
  dependencies-AllAlike :
      (name : Bytes) (f : ℕ) (g : Graph) (ds : List PackageDependency)
      → In name names
      → rank name < suc f
      → ((r : ℕ) → r < rank name → IsAbove rank r g)
      → ((d : PackageDependency) → In d ds → In d (manifest name).resolved.dependencies)
      → AllAlike choose locked names manifest rank c D f g ds ds
  dependencies-AllAlike name f g [] i l u sub = tt
  dependencies-AllAlike name f g (d ∷ ds) i l u sub =
      let (known, fits) = c.closed name d i (sub d (inl refl)) in
      let lower = c.lower name d i (sub d (inl refl)) in
      (
        record {
          name = refl;
          known = known;
          fits = fits;
          fits_too = fits;
          less = λ e. e;
          more = λ n. inl n;
        },
        omega (arith, lower, l),
        u (rank d.name) lower,
        dependencies-AllAlike name f g ds i l u (λ e j. sub e (inr j)),
      )

  new_package :
      (f : ℕ) (name : Bytes) (g : Graph) (p q : Pins)
      → VisitTogether choose locked names manifest rank c D (visit choose locked f) f
      → find name g.packages ≡ none
      → In name names
      → rank name < suc f
      → IsAbove rank (rank name) g
      → IsCalm manifest g
      → Twins (λ x. (manifest x).resolved.version) D p q
      → Together manifest D
          (enter name (manifest name).resolved g)
          (each_dependency
            (visit choose locked f)
            (manifest name).resolved.dependencies
            (enter name (manifest name).resolved g, p))
          (each_dependency
            (visit choose locked f)
            (manifest name).resolved.dependencies
            (enter name (manifest name).resolved g, q))
  new_package f name g p q vt new i l u k t =
      each-Together choose locked names manifest rank c D (visit choose locked f) f vt
        (manifest name).resolved.dependencies (manifest name).resolved.dependencies
        (enter name (manifest name).resolved g) p q
        (dependencies-AllAlike name f (enter name (manifest name).resolved g)
          (manifest name).resolved.dependencies i l
          (λ r lower. enter-pending name (manifest name).resolved g r rank new lower u) (λ d j. j))
        (enter-IsCalm name (manifest name).resolved g manifest new refl k) t

  pub visit-Together :
      (f : ℕ) → VisitTogether choose locked names manifest rank c D (visit choose locked f) f
  unfolding visit
  visit-Together zero d e g p q a l u k t = absurd (omega (arith, l))
  visit-Together (suc f) d e g p q a l u k t =
      let (p', hp, one) =
        pin-Pinned (λ x. (manifest x).resolved.version) locked d.name d.version p t.first a.fits in
      let (q', hq, two) =
        pin-Pinned (λ x. (manifest x).resolved.version) locked d.name e.version q t.second
          a.fits_too in
      let t' =
        pins-Twins choose locked names manifest rank c D d.name d.version e.version p q p' q' t
          a.less a.more one two in
      let h1 = c.chosen d.name d.version a.known a.fits in
      let h2 = c.chosen d.name e.version a.known a.fits_too in
      rw (a.name, hp, hq, h1, h2)
        (elim (Option-cases (find d.name g.packages)) [
          | inl new ↦
              let v = new_package f d.name g p' q' (visit-Together f) new a.known l u k t' in
              record {
                graph = leave d.name v.graph;
                one = v.one;
                two = v.two;
                one_ends = rw (new, v.one_ends) refl;
                two_ends = rw (new, v.two_ends) refl;
                calm = leave-IsCalm d.name manifest v.graph v.calm;
                pending = leave-pending d.name (manifest d.name).resolved g v.graph new v.pending;
                twins = v.twins;
              }
          | inr (r, found) ↦
              let again =
                revisit_calm d.name (manifest d.name) g (λ o. absurd (omega (arith, u d.name o))) in
              let same = k.same d.name r found in
              record {
                graph = g;
                one = p';
                two = q';
                one_ends = rw (found, same, again) refl;
                two_ends = rw (found, same, again) refl;
                calm = k;
                pending = λ x o. o;
                twins = t';
              }
        ])
