-- ===== src/Packages/Chosen.antt =====
-- The version that `Resolver::select` of src/PackageRegistry.cpp returns.
use simp.Base.{
  Option, none, some, List, [], ◌∷◌, ◌≡◌, ◌⊎◌, inl, inr, refl, ap, subst, ◌∙◌, Bytes, In,
}
use simp.Base.Attempts.{Attempt, done}
use simp.Base.Tables.{find}
use simp.Packages.Manifest.{PackageManifest, ModuleVersionPolicy}
use simp.Packages.Select.{
  best_stable, with_version, first_installed, select_free, select_locked, select,
}
use simp.Packages.Best.{best_stable-IsBest}
use simp.Packages.Selected.{
  bind-done, option-done, done-injective, with_version-In, first_installed-In, check_locked-done,
}

-- A candidate, of the required version if there is one.
abbrev pub Chosen :
    (Bytes → Attempt (List PackageManifest)) → Bytes → Bytes → PackageManifest → Type 0
Chosen discover name required m =
    ((cs : List PackageManifest) × (discover name ≡ done cs) × In m cs)
    × ((required ≡ []) ⊎ (m.resolved.version ≡ required))

module _ (roots : List Bytes) (discover : Bytes → Attempt (List PackageManifest))
    (tree_sha256 : Bytes → Attempt Bytes) (file_name : Bytes → Bytes) where
  free-Chosen :
      (name required : Bytes) (m : PackageManifest)
      → select_free roots discover tree_sha256 file_name name required ≡ done m
      → Chosen discover name required m
  unfolding select_free
  free-Chosen name [] m e =
      let (cs, hc, k) = bind-done (discover name) e in
      let (b, hb, k') = option-done (best_stable none cs) _ k in
      let (from, _, _, _) =
        best_stable-IsBest cs none m tt (hb ∙ ap (λ d. some d) (done-injective k')) in
      ((cs, hc, elim from [ inl f ↦ cc | inr f ↦ f ]), inl refl)
  free-Chosen name (c ∷ required) m e =
      let (cs, hc, k) = bind-done (discover name) e in
      let (b, hb, k') = option-done (with_version (c ∷ required) cs) _ k in
      let (i, v) = with_version-In (c ∷ required) cs b hb in
      subst (λ d. Chosen discover name (c ∷ required) d) (done-injective k') ((cs, hc, i), inr v)

  pub select-Chosen :
      (policy : Option ModuleVersionPolicy) (name required : Bytes) (m : PackageManifest)
      → select roots discover tree_sha256 file_name policy name required ≡ done m
      → Chosen discover name required m
  unfolding select select_locked
  select-Chosen none name required m e = free-Chosen name required m e
  select-Chosen (some policy) name required m e =
      let (versions, hv, k) = option-done (find name policy.versions) _ e in
      let (cs, hc, k1) = bind-done (discover name) k in
      let (b, hb, k2) = option-done (first_installed versions cs) _ k1 in
      let (same, hr, _, _) =
        check_locked-done roots discover tree_sha256 file_name policy name required b m k2 in
      let (i, _) = first_installed-In versions cs b hb in
      ((cs, hc, subst (λ d. In d cs) same i), hr)
