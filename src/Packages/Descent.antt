-- ===== src/Packages/Descent.antt =====
-- `Resolver::visit` of src/PackageRegistry.cpp on a new package and on one that was visited before.
use simp.Base.{
  ℕ, zero, suc, ◌<◌, ◌≡◌, ◌≢◌, refl, sym, ap, ◌∙◌, Bool, false, not, Option, none, some, List, [],
  ◌∷◌, ◌⊎◌, inl, inr, Bytes, In, Option-cases, Bool-cases, arith, subst, equal, equal_iff, ◌==◌,
  ==_iff,
}
use simp.Base.Attempts.{Attempt, done}
use simp.Base.Tables.{find, case_option}
use simp.Packages.Searches.{Ends, ends, throws, Ends-bind, Ends-if, Ends-attempt}
use simp.Packages.Manifest.{PackageDependency, ResolvedPackage, PackageManifest}
use simp.Packages.Resolver.{Graph, pin, revisit, enter, leave, visit}
use simp.Packages.Graphs.{
  IsMet, IsServed, IsSound, enter-Grows, enter-found, enter-IsSound, leave-Later,
}
use simp.Packages.Missing.{missing, missing-found}
use simp.Packages.Visits.{Start, Visits, Later-same, VisitEnds, each-Ends}

-- The state is read as a number: 1 while the dependencies are visited.
is-one : (o : Option ℕ) → case_option o false (λ s. s == 1) ≡ false → o ≢ some 1
is-one none h e = cc
is-one (some s) h e = cc (h, (==_iff s 1).1 (ap (λ o. case_option o 0 λ k. k) e))

same-version : (v w : Bytes) → not (equal v w) ≡ false → v ≡ w
same-version v w h = elim (Bool-cases (equal v w)) [
  | inl e ↦ (equal_iff v w).0 e
  | inr e ↦ cc (h, ap not e)
]

module _ (g : Graph) (order : List Bytes) (d : PackageDependency) (start : Start g order) where
  entered-Start :
      (p : ResolvedPackage) → find d.name g.packages ≡ none → Start (enter d.name p g) order
  unfolding enter
  entered-Start p new = elim start [ inl r ↦ inl r | inr s ↦ inr (enter-IsSound g d.name p new s) ]

  left-Visits :
      (p : ResolvedPackage) (h : Graph)
      → find d.name g.packages ≡ none
      → IsMet d p
      → Visits (enter d.name p g) order p.dependencies h
      → Visits g order (d ∷ []) (leave d.name h)
  unfolding enter leave
  left-Visits p h new met w = record {
    grows = λ x q o. w.grows x q (enter-Grows g d.name p new x q o);
    stays = w.stays;
    result = elim start [
      | inl r ↦ inl (w.stays r)
      | inr s ↦ elim w.result [
        | inl r ↦ inl r
        | inr (order', l, deps) ↦ inr (
          d.name ∷ order',
          leave-Later g d.name p new h order' s w.grows l deps,
          λ e i. elim i [
            | inl same ↦
                subst (λ c. IsServed h.packages (d.name ∷ order') c) (sym same)
                  (inl refl, (p, w.grows d.name p (enter-found g d.name p new), met))
            | inr i' ↦ absurd i'
          ],
        )
      ]
    ];
  }

  met-again :
      (m : PackageManifest) (p : ResolvedPackage)
      → IsSound g order
      → find d.name g.packages ≡ some p
      → IsMet d m.resolved
      → p.version ≡ m.resolved.version
      → case_option (find d.name g.state) false (λ s. s == 1) ≡ false
      → IsServed g.packages order d
  met-again m p s o met same ended = (
    elim (s.either d.name p o) [
      | inl i ↦ i
      | inr e ↦ absurd (is-one (find d.name g.state) ended e)
    ],
    (p, o, elim met [ inl e ↦ inl e | inr e ↦ inr (same ∙ e) ]),
  )

  revisit-Ends :
      (m : PackageManifest) (p : ResolvedPackage)
      → find d.name g.packages ≡ some p
      → IsMet d m.resolved
      → Ends (λ h. Visits g order (d ∷ []) h) (revisit d.name m p g)
  unfolding revisit
  revisit-Ends m p o met =
      Ends-if (not (equal p.version m.resolved.version))
        (λ _. ends (record { grows = λ x q k. k; stays = λ _. refl; result = inl refl }))
        λ same.
          Ends-if (case_option (find d.name g.state) false λ s. s == 1) (λ _. throws)
            λ ended. ends (record {
              grows = λ x q k. k;
              stays = λ r. r;
              result = elim start [
                | inl r ↦ inl r
                | inr s ↦ inr (
                  order,
                  Later-same g order s,
                  λ e i. elim i [
                    | inl e' ↦
                        subst (λ c. IsServed g.packages order c) (sym e')
                          (met-again m p s o met (same-version p.version m.resolved.version same)
                            ended)
                    | inr i' ↦ absurd i'
                  ],
                )
              ];
            })

fewer :
    (installed : List Bytes) (g : Graph) (name : Bytes) (p : ResolvedPackage)
    → In name installed
    → find name g.packages ≡ none
    → (f : ℕ) → missing installed g.packages < suc f
    → missing installed (enter name p g).packages < f
fewer installed g name p i new f hf = omega (
  arith,
  hf,
  missing-found installed g.packages (enter name p g).packages name p
      (λ x q o. (q, enter-Grows g name p new x q o)) i new (enter-found g name p new),
)

module _ (choose : Bytes → Bytes → Attempt PackageManifest) (locked : Bool) (installed : List Bytes)
    (chosen : (name required : Bytes) (m : PackageManifest)
      → choose name required ≡ done m
      → In name installed × ((required ≡ []) ⊎ (m.resolved.version ≡ required))) where
  -- With more fuel than packages that were not visited, a visit ends.
  pub visit-Ends : (f : ℕ) → VisitEnds installed (visit choose locked f) f
  unfolding visit
  visit-Ends zero d s order hf start = absurd (omega (arith, hf))
  visit-Ends (suc f) d (g, pins) order hf start =
      Ends-bind (Ends-attempt (pin locked d.name d.version pins)) λ pins' _.
        Ends-bind (Ends-attempt (choose d.name d.version)) λ m hm.
          let (i, met) = chosen d.name d.version m hm in
          elim (Option-cases (find d.name g.packages)) [
            | inl new ↦ rw (new) (
                Ends-bind
                  (each-Ends installed (visit choose locked f) f (visit-Ends f)
                    m.resolved.dependencies (enter d.name m.resolved g, pins') order
                    (fewer installed g d.name m.resolved i new f hf)
                    (entered-Start g order d start m.resolved new))
                  λ (h, pins'') w. ends (left-Visits g order d start m.resolved h new met w))
            | inr (p, found) ↦
                rw (found) (Ends-bind (revisit-Ends g order d start m p found met) λ h v. ends v)
          ]
