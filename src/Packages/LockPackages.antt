-- ===== src/Packages/LockPackages.antt =====
-- The packages that `readLockedPolicy` of src/PackageRegistry.cpp accepts.
use simp.Base.{
  ◌≡◌, refl, sym, ap, ◌∙◌, subst, true, false, not, ◌&&◌, ◌||◌, some, List, [], ◌∷◌, inl, inr,
  Bytes, codes, In, length, Option-cases, equal, equal_iff, ◌==◌,
}
use simp.Base.Attempts.{Attempt}
use simp.Base.Tables.{Table, find, is_member}
use simp.Packages.Split.{cut}
use simp.Packages.Manifest.{ModuleVersionPolicy}
use simp.Packages.Best.{and-true}
use simp.Packages.Selected.{not-false}
use simp.Packages.Searches.{
  Ends, ends, throws, Ends-bind, Ends-map, Ends-if, Ends-option, Ends-attempt,
}
use simp.Packages.Lock.{Lock}
use simp.Packages.LockChecks.{
  is_hash, text_at, front, target, has_fields, is_complete, is_tagged, is_valid_dependency,
  check_metadata, check_origin, check_dependencies, check_package, check_packages,
}

-- The dependency is on a locked module, in its version.
abbrev pub IsTarget : Table (List Bytes) → Bytes → Type 0
IsTarget versions d =
    (locked : List Bytes) × (find (target d) versions ≡ some locked)
    × ((cut b'=' d).1 ≡ some (front locked))

-- The package is locked in the version of the module, and so are its dependencies.
abbrev pub IsPackage : ModuleVersionPolicy → Bytes → List Bytes → Type 0
IsPackage policy x vs =
    ((entry : Table Bytes) × (find x policy.locked_packages ≡ some entry)
      × (text_at (codes "version") entry ≡ front vs)
      × (is_hash (text_at (codes "sha256") entry) ≡ true))
    × ((ds : List Bytes) × (find x policy.locked_dependencies ≡ some ds)
        × ((d : Bytes) → In d ds → IsTarget policy.versions d))

valid-IsTarget :
    (versions : Table (List Bytes)) (unique : List Bytes) (d : Bytes)
    → is_valid_dependency versions unique d ≡ true
    → IsTarget versions d
valid-IsTarget versions unique d h = elim (Option-cases (cut b'=' d).1) [
  | inl o ↦ let h' : false ≡ true = rw (o) at h in absurd (cc h')
  | inr (v, o) ↦ elim (Option-cases (find (target d) versions)) [
    | inl f ↦ let h' : false ≡ true = rw (o, f) at h in absurd (cc h')
    | inr (locked, f) ↦
        let h' : (equal (front locked) v && not (is_member (target d) unique)) ≡ true =
          rw (o, f) at h in
        let (same, _) = and-true (equal (front locked) v) (not (is_member (target d) unique)) h' in
        (locked, f, o ∙ ap (λ t. some t) (sym ((equal_iff (front locked) v).0 same)))
  ]
]

complete-fields :
    (version : Bytes) (entry : Table Bytes)
    → not (is_complete version entry) ≡ false
    → (text_at (codes "version") entry ≡ version)
      × (is_hash (text_at (codes "sha256") entry) ≡ true)
complete-fields version entry h =
    let (front, hash) =
      and-true (has_fields entry && equal (text_at (codes "version") entry) version)
        (is_hash (text_at (codes "sha256") entry)) (not-false (is_complete version entry) h) in
    let (_, same) =
      and-true (has_fields entry) (equal (text_at (codes "version") entry) version) front in
    ((equal_iff (text_at (codes "version") entry) version).0 same, hash)

module _ (path : Bytes) where
  dependencies-Ends :
      (versions : Table (List Bytes)) (ds unique : List Bytes)
      → Ends
          (λ _. (d : Bytes) → In d ds → IsTarget versions d)
          (check_dependencies path versions ds unique)
  unfolding check_dependencies
  dependencies-Ends versions [] unique = ends λ d i. absurd i
  dependencies-Ends versions (c ∷ ds) unique =
      Ends-if (is_valid_dependency versions unique c)
        (λ valid. Ends-map (dependencies-Ends versions ds (target c ∷ unique)) λ _ h d i. elim i [
          | inl e ↦
              subst (λ y. IsTarget versions y) (sym e) (valid-IsTarget versions unique c valid)
          | inr j ↦ h d j
        ])
        λ _. throws

  origin-Ends :
      (name version : Bytes) (entry : Table Bytes)
      → Ends (λ _. Unit) (check_origin path name version entry)
  origin-Ends name version entry =
      Ends-if (equal (text_at (codes "repo") entry) (codes "builtin"))
        (λ _.
          Ends-if
            (not (equal (text_at (codes "ref") entry) (codes "builtin"))
              || not (equal (text_at (codes "commit") entry) (codes "builtin")))
            (λ _. throws) λ _. ends tt)
        λ _. Ends-if (is_tagged version entry) (λ _. ends tt) λ _. throws

  IsPackage-Ends :
      (policy : ModuleVersionPolicy) (name : Bytes) (vs : List Bytes)
      → Ends (λ _. IsPackage policy name vs) (check_package path policy name vs)
  unfolding check_package
  IsPackage-Ends policy name vs =
      Ends-option (find name policy.locked_packages) (λ _. throws)
        λ entry found.
          Ends-if (not (is_complete (front vs) entry)) (λ _. throws)
            λ complete. Ends-bind (origin-Ends name (front vs) entry) λ _ _.
              Ends-option (find name policy.locked_dependencies) (λ _. throws)
                λ ds listed. Ends-map (dependencies-Ends policy.versions ds []) λ _ targets.
                  let (version, hash) = complete-fields (front vs) entry complete in
                  ((entry, found, version, hash), (ds, listed, targets))

  pub packages-Ends :
      (policy : ModuleVersionPolicy) (table : Table (List Bytes))
      → Ends
          (λ _. (x : Bytes) (vs : List Bytes) → In (x, vs) table → IsPackage policy x vs)
          (check_packages path policy table)
  unfolding check_packages
  packages-Ends policy [] = ends λ x vs i. absurd i
  packages-Ends policy ((name, versions) ∷ table) =
      Ends-bind (IsPackage-Ends policy name versions) λ _ here.
        Ends-map (packages-Ends policy table) λ _ rest x vs i. elim i [
          | inl e ↦ subst (λ p. IsPackage policy p.0 p.1) (sym e) here
          | inr j ↦ rest x vs j
        ]

  pub metadata-Ends :
      (sha256 : Attempt Bytes) (s : Lock) → Ends (λ t. t ≡ s) (check_metadata path sha256 s)
  unfolding check_metadata
  metadata-Ends sha256 s =
      Ends-if
        (not (equal (text_at (codes "schema") s.metadata) (codes "1"))
          || not (is_hash (text_at (codes "manifest-sha256") s.metadata))
          || not (is_member (codes "modules") s.sections))
        (λ _. throws)
        λ _. Ends-bind (Ends-attempt sha256) λ digest _.
          Ends-if (not (equal digest (text_at (codes "manifest-sha256") s.metadata))) (λ _. throws)
            λ _.
              Ends-if
                (not (length s.policy.locked_packages == length s.policy.versions)
                  || not (length s.policy.locked_dependencies == length s.policy.versions))
                (λ _. throws) λ _. ends refl
