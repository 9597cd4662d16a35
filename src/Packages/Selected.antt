-- ===== src/Packages/Selected.antt =====
-- What `Resolver::select` of src/PackageRegistry.cpp returns.
use simp.Base.{
  Bool, true, false, not, ◌&&◌, Option, none, some, List, [], ◌∷◌, ◌≡◌, ◌⊎◌, inl, inr, refl, sym,
  ap, ap₂, subst, ◌∙◌, if◌then◌else◌, Bool-cases, Option-cases, Bytes, codes, equal, equal_iff, map,
  In, All,
}
use simp.Base.Attempts.{Attempt, done, invalid, ◌>>=◌}
use simp.Base.Tables.{find, case_option}
use simp.Packages.Version.{is_empty}
use simp.Packages.Manifest.{PackageManifest, ModuleVersionPolicy}
use simp.Packages.Select.{
  is_stable, is_newer, best_stable, has_version, with_version, first_installed, select_free, select,
  check_locked, select_locked, sort_texts, dependency_text, equal_lists, at,
}
use simp.Packages.Best.{best_stable-IsBest, and-true}

pub bind-done :
    {A B : Type 0} (x : Attempt A) {f : A → Attempt B} {b : B}
    → (x >>= f) ≡ done b
    → (a : A) × (x ≡ done a) × (f a ≡ done b)
bind-done (done a) h = (a, refl, h)
bind-done (invalid m) h = cc

pub option-done :
    {A B : Type 0} (o : Option A) (m : Bytes) {f : A → Attempt B} {b : B}
    → case_option o (invalid m) f ≡ done b
    → (a : A) × (o ≡ some a) × (f a ≡ done b)
option-done none m h = cc
option-done (some a) m h = (a, refl, h)

if-done :
    {A : Type 0} (b : Bool) (m : Bytes) {x : Attempt A} {a : A}
    → (if b then invalid m else x) ≡ done a
    → (b ≡ false) × (x ≡ done a)
if-done true m h = cc
if-done false m h = (refl, h)

pub done-injective : {A : Type 0} {a b : A} → ◌≡◌ {A = Attempt A} (done a) (done b) → a ≡ b
done-injective e = cc

-- A candidate that has the version is one of the candidates.
pub with_version-In :
    (version : Bytes) (cs : List PackageManifest) (b : PackageManifest)
    → with_version version cs ≡ some b
    → In b cs × (b.resolved.version ≡ version)
unfolding with_version
with_version-In version [] b e = cc
with_version-In version (c ∷ cs) b e = elim (Bool-cases (has_version version c)) [
  | inl h ↦
      let same : c ≡ b =
        some-injective
          (subst (λ t. (if t then some c else with_version version cs) ≡ some b) h e) in
      (
        inl (sym same),
        subst (λ d. d.resolved.version ≡ version) same ((equal_iff c.resolved.version version).0 h),
      )
  | inr h ↦
      let (i, v) =
        with_version-In version cs b
          (subst (λ t. (if t then some c else with_version version cs) ≡ some b) h e) in
      (inr i, v)
]
  where
    some-injective : {a d : PackageManifest} → some a ≡ some d → a ≡ d
    some-injective k = cc

pub first_installed-In :
    (versions : List Bytes) (cs : List PackageManifest) (b : PackageManifest)
    → first_installed versions cs ≡ some b
    → In b cs × In b.resolved.version versions
unfolding first_installed
first_installed-In [] cs b e = cc
first_installed-In (version ∷ versions) cs b e = elim (Option-cases (with_version version cs)) [
  | inl h ↦
      let (i, v) =
        first_installed-In versions cs b
          (subst (λ o. case_option o (first_installed versions cs) (λ d. some d) ≡ some b) h e) in
      (i, inr v)
  | inr (a, h) ↦
      let (i, v) =
        with_version-In version cs b (
          h
          ∙ subst (λ o. case_option o (first_installed versions cs) (λ d. some d) ≡ some b) h e) in
      (i, inl v)
]

equal_lists→eq : (s t : List Bytes) → equal_lists s t ≡ true → s ≡ t
unfolding equal_lists
equal_lists→eq [] [] h = refl
equal_lists→eq [] (y ∷ t) h = cc
equal_lists→eq (x ∷ s) [] h = cc
equal_lists→eq (x ∷ s) (y ∷ t) h =
    let (h0, h1) = and-true (equal x y) (equal_lists s t) h in
    ap₂ (λ a b. a ∷ b) ((equal_iff x y).0 h0) (equal_lists→eq s t h1)

then-done :
    {A : Type 0} (b : Bool) (m : Bytes) {x a : A}
    → (if b then done x else invalid m) ≡ done a
    → (b ≡ true) × (x ≡ a)
then-done true m h = (refl, done-injective h)
then-done false m h = cc

pub not-false : (b : Bool) → not b ≡ false → b ≡ true
not-false true h = refl
not-false false h = cc

required_same :
    (required version : Bytes)
    → (not (is_empty required) && not (equal version required)) ≡ false
    → (required ≡ []) ⊎ (version ≡ required)
required_same [] version h = inl refl
required_same (c ∷ required) version h =
    inr ((equal_iff version (c ∷ required)).0 (not-false (equal version (c ∷ required)) h))

module _ (roots : List Bytes) (discover : Bytes → Attempt (List PackageManifest))
    (tree_sha256 : Bytes → Attempt Bytes) (file_name : Bytes → Bytes) where
  -- Without a policy and a required version, `select` returns a candidate that is stable, and no
  -- stable candidate has a newer version.
  pub select-best :
      (name : Bytes) (candidates : List PackageManifest) (best : PackageManifest)
      → discover name ≡ done candidates
      → select roots discover tree_sha256 file_name none name [] ≡ done best
      → In best candidates
        × (is_stable best ≡ true)
        × All (λ c. (is_stable c && is_newer c best) ≡ false) candidates
  unfolding select select_free
  select-best name candidates best hd e =
      let (cs, hc, k) = bind-done (discover name) e in
      let same : cs ≡ candidates = done-injective (sym hc ∙ hd) in
      let (b, hb, k') = option-done (best_stable none cs) _ k in
      let (from, stable, _, all) =
        best_stable-IsBest cs none best tt (hb ∙ ap (λ d. some d) (done-injective k')) in
      subst
        (λ l.
          In best l
          × (is_stable best ≡ true)
          × All (λ c. (is_stable c && is_newer c best) ≡ false) l)
        same (elim from [ inl f ↦ cc | inr f ↦ f ], stable, all)

  pub check_locked-done :
      (policy : ModuleVersionPolicy) (name required : Bytes) (selected best : PackageManifest)
      → check_locked roots discover tree_sha256 file_name policy name required selected ≡ done best
      → (selected ≡ best)
        × ((required ≡ []) ⊎ (best.resolved.version ≡ required))
        × ((at name policy.locked_packages >>= λ entry. at (codes "sha256") entry)
            ≡ tree_sha256 best.resolved.package_root)
        × ((locked : List Bytes) × (at name policy.locked_dependencies ≡ done locked)
            × (sort_texts locked ≡ map dependency_text best.resolved.dependencies))
  unfolding check_locked
  check_locked-done policy name required selected best e =
      let (h1, k1) =
        if-done (not (is_empty required) && not (equal selected.resolved.version required)) _ e in
      let (sha, hs, k2) =
        bind-done (at name policy.locked_packages >>= λ entry. at (codes "sha256") entry) k1 in
      let (digest, ht, k3) = bind-done (tree_sha256 selected.resolved.package_root) k2 in
      let (h4, k4) = if-done (not (equal digest sha)) _ k3 in
      let (locked, hl, k5) = bind-done (at name policy.locked_dependencies) k4 in
      let (h6, same) =
        then-done
          (equal_lists (sort_texts locked) (map dependency_text selected.resolved.dependencies)) _
          k5 in
      let digests : sha ≡ digest =
        sym ((equal_iff digest sha).0 (not-false (equal digest sha) h4)) in
      subst
        (λ c.
          (selected ≡ c)
          × ((required ≡ []) ⊎ (c.resolved.version ≡ required))
          × ((at name policy.locked_packages >>= λ entry. at (codes "sha256") entry)
              ≡ tree_sha256 c.resolved.package_root)
          × ((locked : List Bytes) × (at name policy.locked_dependencies ≡ done locked)
              × (sort_texts locked ≡ map dependency_text c.resolved.dependencies)))
        same
        (
          refl,
          required_same required selected.resolved.version h1,
          hs ∙ ap (λ d. done d) digests ∙ sym ht,
          (
            locked,
            hl,
            equal_lists→eq (sort_texts locked) (map dependency_text selected.resolved.dependencies)
                h6,
          ),
        )

  -- With a policy, `select` returns a candidate that has one of the versions that the policy
  -- lists for the name, and the required version if there is one; the hash of its tree and its
  -- sorted dependencies are the locked ones.
  pub select-locked :
      (policy : ModuleVersionPolicy) (name required : Bytes) (candidates : List PackageManifest)
      (best : PackageManifest)
      → discover name ≡ done candidates
      → select roots discover tree_sha256 file_name (some policy) name required ≡ done best
      → In best candidates
        × ((versions : List Bytes) × (find name policy.versions ≡ some versions)
            × In best.resolved.version versions)
        × ((required ≡ []) ⊎ (best.resolved.version ≡ required))
        × ((at name policy.locked_packages >>= λ entry. at (codes "sha256") entry)
            ≡ tree_sha256 best.resolved.package_root)
        × ((locked : List Bytes) × (at name policy.locked_dependencies ≡ done locked)
            × (sort_texts locked ≡ map dependency_text best.resolved.dependencies))
  unfolding select select_locked
  select-locked policy name required candidates best hd e =
      let (versions, hv, k) = option-done (find name policy.versions) _ e in
      let (cs, hc, k1) = bind-done (discover name) k in
      let (b, hb, k2) = option-done (first_installed versions cs) _ k1 in
      let (same, hr, hs, hl) = check_locked-done policy name required b best k2 in
      let (i, v) = first_installed-In versions cs b hb in
      (
        subst (λ c. In c candidates) same (subst (λ l. In b l) (done-injective (sym hc ∙ hd)) i),
        (versions, hv, subst (λ c. In c.resolved.version versions) same v),
        hr,
        hs,
        hl,
      )
