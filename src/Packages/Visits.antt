-- ===== src/Packages/Visits.antt =====
-- The recursion of `Resolver::visit` of src/PackageRegistry.cpp over the dependencies.
use simp.Base.{ℕ, ◌<◌, ◌≡◌, true, List, [], ◌∷◌, ◌⊎◌, inl, inr, Bytes, In, arith}
use simp.Packages.Searches.{Search, Ends, ends, Ends-bind, Ends-map}
use simp.Packages.Manifest.{PackageDependency}
use simp.Packages.Resolver.{Graph, Visited, each_dependency}
use simp.Packages.Missing.{missing, missing-Keeps}
use simp.Packages.Graphs.{IsServed, IsSound, Grows, Later, Later-IsServed}

-- A graph that will be built anew, or a sound one.
abbrev pub Start : Graph → List Bytes → Type 0
Start g order = (g.restart ≡ true) ⊎ IsSound g order

-- What visits of dependencies leave behind.
pub record Visits (g : Graph) (order : List Bytes) (ds : List PackageDependency) (h : Graph)
    : Type 0 where
  pub grows : Grows g h
  pub stays : g.restart ≡ true → h.restart ≡ true
  pub result :
      (h.restart ≡ true)
      ⊎ ((order' : List Bytes) × Later g order h order'
          × ((d : PackageDependency) → In d ds → IsServed h.packages order' d))

Later-trans :
    (g h k : Graph) (o o' o'' : List Bytes) → Later g o h o' → Later h o' k o'' → Later g o k o''
Later-trans g h k o o' o'' l m = record {
  sound = m.sound;
  more = λ x i. m.more x (l.more x i);
  begun = λ x e. m.begun x (l.begun x e);
  pending = λ x e. l.pending x (m.pending x e);
}

pub Later-same : (g : Graph) (order : List Bytes) → IsSound g order → Later g order g order
Later-same g order s = record { sound = s; more = λ x i. i; begun = λ x e. e; pending = λ x e. e }

no-Visits : (g : Graph) (order : List Bytes) → Start g order → Visits g order [] g
no-Visits g order start = record {
  grows = λ x p o. o;
  stays = λ r. r;
  result = elim start [
    | inl r ↦ inl r
    | inr s ↦ inr (order, Later-same g order s, λ d i. absurd i)
  ];
}

restarted :
    (g h : Graph) (order : List Bytes) (ds : List PackageDependency)
    → Grows g h
    → h.restart ≡ true
    → Visits g order ds h
restarted g h order ds k r = record { grows = k; stays = λ _. r; result = inl r }

both-Visits :
    (g h k : Graph) (order order' : List Bytes) (d : PackageDependency)
    (ds : List PackageDependency)
    → Visits g order (d ∷ []) h
    → Later g order h order'
    → ((e : PackageDependency) → In e (d ∷ []) → IsServed h.packages order' e)
    → Visits h order' ds k
    → Visits g order (d ∷ ds) k
both-Visits g h k order order' d ds v l here w = record {
  grows = λ x p o. w.grows x p (v.grows x p o);
  stays = λ r. w.stays (v.stays r);
  result = elim w.result [
    | inl r ↦ inl r
    | inr (order'', m, rest) ↦ inr (
      order'',
      Later-trans g h k order order' order'' l m,
      λ e i. elim i [
        | inl same ↦ Later-IsServed h k order' order'' e w.grows m (here e (inl same))
        | inr i' ↦ rest e i'
      ],
    )
  ];
}

module _ (installed : List Bytes) where
  -- What is asked of the visits of single dependencies.
  abbrev pub VisitEnds : (Bytes → Bytes → Visited → Search Visited) → ℕ → Type 0
  VisitEnds visit_one f =
      (d : PackageDependency) (s : Visited) (order : List Bytes)
      → missing installed s.0.packages < f
      → Start s.0 order
      → Ends (λ t. Visits s.0 order (d ∷ []) t.0) (visit_one d.name d.version s)

  pub each-Ends :
      (visit_one : Bytes → Bytes → Visited → Search Visited) (f : ℕ)
      → VisitEnds visit_one f
      → (ds : List PackageDependency) (s : Visited) (order : List Bytes)
      → missing installed s.0.packages < f
      → Start s.0 order
      → Ends (λ t. Visits s.0 order ds t.0) (each_dependency visit_one ds s)
  unfolding each_dependency
  each-Ends visit_one f ve [] s order hf start = ends (no-Visits s.0 order start)
  each-Ends visit_one f ve (d ∷ ds) s order hf start = Ends-bind (ve d s order hf start) λ t v.
      let hf' : missing installed t.0.packages < f = omega (
        arith,
        hf,
        missing-Keeps installed s.0.packages t.0.packages λ x p o. (p, v.grows x p o),
      ) in
      elim v.result [
        | inl r ↦ Ends-map (each-Ends visit_one f ve ds t [] hf' (inl r)) λ u w.
            (restarted s.0 u.0 order (d ∷ ds) (λ x p o. w.grows x p (v.grows x p o)) (w.stays r))
        | inr (order', l, here) ↦
            Ends-map (each-Ends visit_one f ve ds t order' hf' (inr l.sound))
              λ u w. (both-Visits s.0 t.0 u.0 order order' d ds v l here w)
      ]
