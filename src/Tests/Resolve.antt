-- ===== src/Tests/Resolve.antt =====
-- Runs of `Resolver::resolve` of src/PackageRegistry.cpp, and its theorem at a concrete input.
use simp.Base.{
  Bytes, codes, equal, none, List, [], ◌∷◌, ◌≡◌, ◌++◌, refl, inl, inr, In, map, subst, Bool-cases,
  equal_iff, arith, sym,
}
use simp.Base.Attempts.{Attempt, done}
use simp.Base.Tables.{Table, find, case_option}
use simp.Packages.Searches.{Search, walked, thrown, exhausted, Ends}
use simp.Packages.Selected.{done-injective}
use simp.Packages.Version.{parse_version, compare_version}
use simp.Packages.Select.{select}
use simp.Packages.Manifest.{PackageDependency, PackageManifest}
use simp.Packages.Resolver.{PackageResolution, resolve}
use simp.Packages.Resolution.{IsRoot, IsResolution, HasInstalled, resolve-IsResolution}

abbrev candidate : Bytes → Bytes → List PackageDependency → PackageManifest
candidate name version dependencies = record {
  resolved = record {
    name = name;
    version = version;
    package_root = codes "/m/";
    source_path = codes "/m/lib.cw";
    export_kind = codes "class";
    export_name = codes "Main";
    dependencies = dependencies;
    libraries = [];
    library_paths = [];
  };
  signature = [];
}

abbrev requires : Bytes → Bytes → PackageDependency
requires name version = record { name = name; version = version }

abbrev apps : List PackageManifest
apps =
    candidate (codes "app") (codes "2.0.0")
      (requires (codes "net") (codes "1.0.0") ∷ requires (codes "log") (codes "1.0.0") ∷ [])
    ∷ []

abbrev nets : List PackageManifest
nets = candidate (codes "net") (codes "1.0.0") (requires (codes "log") (codes "1.0.0") ∷ []) ∷ []

abbrev logs : List PackageManifest
logs = candidate (codes "log") (codes "1.0.0") [] ∷ candidate (codes "log") (codes "1.1.0") [] ∷ []

abbrev loops : List PackageManifest
loops = candidate (codes "loop") (codes "1.0.0") (requires (codes "loop") (codes "1.0.0") ∷ []) ∷ []

abbrev shelf : Table (List PackageManifest)
shelf = (codes "app", apps) ∷ (codes "net", nets) ∷ (codes "log", logs) ∷ (codes "loop", loops) ∷ []

abbrev discover : Bytes → Attempt (List PackageManifest)
discover name = done (case_option (find name shelf) [] λ cs. cs)

abbrev installed : List Bytes
installed = map (λ entry. entry.0) shelf

abbrev tree_sha256 : Bytes → Attempt Bytes
tree_sha256 path = done (codes "abc")

abbrev file_name : Bytes → Bytes
file_name path = path

abbrev versions : Search PackageResolution → Search (List Bytes)
versions (walked r) = walked (map (λ p. p.name ++ b' ' ∷ p.version) r.link_order)
versions (thrown m) = thrown m
versions exhausted = exhausted

-- The package `log` is chosen anew, in the version that `app` and `net` require.
resolve_again :
    versions (
      resolve [] discover tree_sha256 file_name 5 none
        ((codes "log") ∷ (codes "app") ∷ (codes "no") ∷ []))
    ≡ walked (codes "log 1.0.0" ∷ codes "app 2.0.0" ∷ codes "net 1.0.0" ∷ [])
unfolding resolve select equal parse_version compare_version
resolve_again = refl

resolve_cycle :
    versions (resolve [] discover tree_sha256 file_name 5 none ((codes "loop") ∷ []))
    ≡ thrown (codes "cyclic package dependency involving 'loop'")
unfolding resolve select equal parse_version compare_version
resolve_cycle = refl

found-In :
    (table : Table (List PackageManifest)) (name : Bytes) (m : PackageManifest)
    → In m (case_option (find name table) [] λ cs. cs)
    → In name (map (λ entry. entry.0) table)
unfolding find
found-In [] name m i = absurd i
found-In ((key, cs) ∷ table) name m i = elim (Bool-cases (equal key name)) [
  | inl e ↦ inl (sym ((equal_iff key name).0 e))
  | inr e ↦ inr (found-In table name m (rw e at i))
]

discover-HasInstalled : HasInstalled discover installed
discover-HasInstalled name m cs hd i =
    found-In shelf name m (subst (λ l. In m l) (sym (done-injective hd)) i)

resolve-IsResolution_example :
    Ends
      (λ r.
        IsResolution (IsRoot discover none ((codes "log") ∷ (codes "app") ∷ (codes "no") ∷ [])) r)
      (resolve [] discover tree_sha256 file_name 5 none
        ((codes "log") ∷ (codes "app") ∷ (codes "no") ∷ []))
resolve-IsResolution_example =
    resolve-IsResolution [] discover tree_sha256 file_name 5 none
      ((codes "log") ∷ (codes "app") ∷ (codes "no") ∷ []) installed discover-HasInstalled
      (omega arith)
