-- ===== src/Tests/Select.antt =====
-- Runs of `Resolver::select` of src/PackageRegistry.cpp, and its theorems at concrete inputs.
use simp.Base.{
  Bytes, codes, equal, true, false, ◌&&◌, none, some, List, [], ◌∷◌, ◌≡◌, ◌⊎◌, refl, In, All, map,
}
use simp.Base.Attempts.{Attempt, done, ◌>>=◌}
use simp.Base.Tables.{find}
use simp.Packages.Version.{parse_version, compare_version}
use simp.Packages.Manifest.{PackageManifest, ModuleVersionPolicy}
use simp.Packages.Select.{is_stable, is_newer, select, at, sort_texts, dependency_text}
use simp.Packages.Selected.{select-best, select-locked}

abbrev candidate : Bytes → PackageManifest
candidate version = record {
  resolved = record {
    name = codes "json";
    version = version;
    package_root = codes "/m/json/";
    source_path = codes "/m/json/lib.cw";
    export_kind = codes "class";
    export_name = codes "Json";
    dependencies = record { name = codes "text"; version = codes "1.0.0" } ∷ [];
    libraries = [];
    library_paths = [];
  };
  signature = [];
}

abbrev candidates : List PackageManifest
candidates =
    candidate (codes "1.10.0") ∷ candidate (codes "1.9.0") ∷ candidate (codes "2.0.0-rc.1") ∷ []

abbrev installed : Bytes → Attempt (List PackageManifest)
installed name = done candidates

abbrev tree_sha256 : Bytes → Attempt Bytes
tree_sha256 path = done (codes "abc")

abbrev file_name : Bytes → Bytes
file_name path = path

abbrev policy : ModuleVersionPolicy
policy = record {
  path = codes "cwhip-pkg.lock";
  versions = (codes "json", codes "3.0.0" ∷ codes "1.9.0" ∷ []) ∷ [];
  locked_packages = (codes "json", (codes "sha256", codes "abc") ∷ []) ∷ [];
  locked_dependencies = (codes "json", codes "text=1.0.0" ∷ []) ∷ [];
}

select_newest :
    select [] installed tree_sha256 file_name none (codes "json") []
    ≡ done (candidate (codes "1.10.0"))
unfolding select equal parse_version compare_version
select_newest = refl

select_pinned :
    select [] installed tree_sha256 file_name (some policy) (codes "json") []
    ≡ done (candidate (codes "1.9.0"))
unfolding select equal find
select_pinned = refl

select-best_example :
    In (candidate (codes "1.10.0")) candidates
    × (is_stable (candidate (codes "1.10.0")) ≡ true)
    × All (λ c. (is_stable c && is_newer c (candidate (codes "1.10.0"))) ≡ false) candidates
select-best_example =
    select-best [] installed tree_sha256 file_name (codes "json") candidates
      (candidate (codes "1.10.0")) refl select_newest

select-locked_example :
    In (candidate (codes "1.9.0")) candidates
    × ((versions : List Bytes) × (find (codes "json") policy.versions ≡ some versions)
        × In (codes "1.9.0") versions)
    × ((◌≡◌ {A = Bytes} [] []) ⊎ (codes "1.9.0" ≡ []))
    × ((at (codes "json") policy.locked_packages >>= λ entry. at (codes "sha256") entry)
        ≡ tree_sha256 (codes "/m/json/"))
    × ((locked : List Bytes) × (at (codes "json") policy.locked_dependencies ≡ done locked)
        × (sort_texts locked
            ≡ map dependency_text (candidate (codes "1.9.0")).resolved.dependencies))
select-locked_example =
    select-locked [] installed tree_sha256 file_name policy (codes "json") [] candidates
      (candidate (codes "1.9.0")) refl select_pinned
