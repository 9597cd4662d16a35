-- ===== src/Packages/Select.antt =====
-- `Resolver::select` of src/PackageRegistry.cpp: the candidate for a package.
use Prim.Native.Nat.{Ordering, gt}
use simp.Base.{
  Bool, true, false, not, ◌&&◌, Option, none, some, List, [], ◌∷◌, ◌++◌, if◌then◌else◌, Bytes,
  codes, equal, map,
}
use simp.Base.Attempts.{Attempt, done, invalid, ◌>>=◌}
use simp.Base.Tables.{Table, find, case_option}
use simp.Packages.Version.{Version, is_empty, parse_version, compare_version, compare_text}
use simp.Packages.Manifest.{PackageDependency, PackageManifest, ModuleVersionPolicy}

abbrev no_version : Version
no_version = record { major = []; minor = []; patch = []; prerelease = []; build = [] }

-- A version that cannot be read is left empty.
unfoldable pub parse : Bytes → Version
unfolding parse_version
parse value = case_option (parse_version value) no_version λ version. version

abbrev pub version_of : PackageManifest → Version
version_of candidate = parse candidate.resolved.version

abbrev pub is_stable : PackageManifest → Bool
is_stable candidate = is_empty (version_of candidate).prerelease

abbrev pub is_greater : Ordering → Bool
is_greater gt = true
is_greater _ = false

-- The order of two candidates is that of their versions.
abbrev pub is_newer : PackageManifest → PackageManifest → Bool
is_newer candidate best = is_greater (compare_version (version_of candidate) (version_of best))

-- A first candidate, or one that is newer than the best one so far.
abbrev pub improves : PackageManifest → Option PackageManifest → Bool
improves candidate none = true
improves candidate (some best) = is_newer candidate best

unfoldable pub best_stable : Option PackageManifest → List PackageManifest → Option PackageManifest
unfolding parse compare_version
best_stable best [] = best
best_stable best (candidate ∷ candidates) =
    best_stable (if is_stable candidate && improves candidate best then some candidate else best)
      candidates

abbrev pub has_version : Bytes → PackageManifest → Bool
has_version version candidate = equal candidate.resolved.version version

-- `std::find_if` on the candidates.
unfoldable pub with_version : Bytes → List PackageManifest → Option PackageManifest
with_version version [] = none
with_version version (candidate ∷ candidates) =
    let rest = with_version version candidates in
    if has_version version candidate then some candidate else rest

-- The first of the versions that is installed.
unfoldable pub first_installed : List Bytes → List PackageManifest → Option PackageManifest
unfolding with_version
first_installed [] candidates = none
first_installed (version ∷ versions) candidates =
    case_option (with_version version candidates) (first_installed versions candidates)
      λ selected. some selected

abbrev join_list : List Bytes → Bytes
join_list [] = []
join_list (item ∷ []) = item
join_list (item ∷ next ∷ items) = item ++ (codes ", " ++ join_list (next ∷ items))

-- The roots, with a comma behind what is not empty so far.
abbrev join_roots : Bytes → List Bytes → Bytes
join_roots roots [] = roots
join_roots roots (root ∷ rest) =
    join_roots ((if is_empty roots then roots else roots ++ codes ", ") ++ root) rest

abbrev insert_text : Bytes → List Bytes → List Bytes
insert_text text [] = text ∷ []
insert_text text (item ∷ items) =
    if is_greater (compare_text text item)
    then item ∷ insert_text text items
    else text ∷ item ∷ items

-- `std::sort` of texts.
abbrev pub sort_texts : List Bytes → List Bytes
sort_texts [] = []
sort_texts (item ∷ items) = insert_text item (sort_texts items)

unfoldable pub equal_lists : List Bytes → List Bytes → Bool
equal_lists [] [] = true
equal_lists [] (t ∷ ts) = false
equal_lists (s ∷ ss) [] = false
equal_lists (s ∷ ss) (t ∷ ts) = equal s t && equal_lists ss ts

abbrev pub dependency_text : PackageDependency → Bytes
dependency_text dependency = dependency.name ++ (b'=' ∷ dependency.version)

-- `at` of a map that lacks the key throws.
abbrev pub at : {A : Type 0} → Bytes → Table A → Attempt A
at key table = case_option (find key table) (invalid (codes "map::at")) λ a. done a

-- The search roots, the candidates that the file system has for a name, the hash of the tree of a
-- package, and the last part of a path.
module _ (roots : List Bytes) (discover : Bytes → Attempt (List PackageManifest))
    (tree_sha256 : Bytes → Attempt Bytes) (file_name : Bytes → Bytes) where
  -- The package that the lock selects is the required one, and its tree and its dependencies are
  -- the locked ones.
  unfoldable pub check_locked :
      ModuleVersionPolicy → Bytes → Bytes → PackageManifest → Attempt PackageManifest
  unfolding find equal_lists
  check_locked policy name required selected =
      if not (is_empty required) && not (equal selected.resolved.version required)
      then invalid (
          codes "package dependency constraint conflict for '"
          ++ (name
              ++ (codes "': cwhip-pkg.lock selects version '"
                  ++ (selected.resolved.version
                      ++ (codes
                            "' (first installed configured version), but an exact dependency requires '"
                          ++ (required ++ codes "'"))))))
      else at name policy.locked_packages >>= (λ entry. at (codes "sha256") entry) >>= λ sha256.
          tree_sha256 selected.resolved.package_root >>= λ digest.
          (if not (equal digest sha256)
            then invalid (
                codes "package integrity mismatch for '"
                ++ (name
                    ++ (codes "' at "
                        ++ (selected.resolved.package_root
                            ++ codes "; refusing to compile modified locked code"))))
            else at name policy.locked_dependencies >>= λ locked.
                (if equal_lists (sort_texts locked)
                    (map dependency_text selected.resolved.dependencies)
                  then done selected
                  else invalid
                      (codes "locked dependency graph mismatch for '" ++ (name ++ codes "'"))))

  abbrev not_installed : Bytes → List Bytes → Attempt PackageManifest
  not_installed name versions = invalid (
      codes "module '"
      ++ (name
          ++ (codes "' has no installed configured version; versions searched in order: ["
              ++ (join_list versions
                  ++ (codes "]; module search roots: [" ++ (join_roots [] roots ++ codes "]"))))))

  unfoldable pub select_locked : ModuleVersionPolicy → Bytes → Bytes → Attempt PackageManifest
  unfolding find first_installed check_locked
  select_locked policy name required =
      case_option (find name policy.versions)
        (invalid (
          codes "module '"
          ++ (name
              ++ (codes "' is not found: it is not listed in "
                  ++ (policy.path
                      ++ (codes " [modules]; "
                          ++ (file_name policy.path ++ codes " is an allowlist")))))))
        λ versions. discover name >>= λ candidates.
          case_option (first_installed versions candidates) (not_installed name versions)
            λ selected. check_locked policy name required selected

  unfoldable pub select_free : Bytes → Bytes → Attempt PackageManifest
  unfolding best_stable with_version
  select_free name [] = discover name >>= λ candidates.
      case_option (best_stable none candidates)
        (invalid (codes "no stable version of package '" ++ (name ++ codes "' is available")))
        λ best. done best
  select_free name (c ∷ required) = discover name >>= λ candidates.
      case_option (with_version (c ∷ required) candidates)
        (invalid (
          codes "package '"
          ++ (name
              ++ (codes "' requires version '"
                  ++ ((c ∷ required) ++ codes "', but it is not installed")))))
        λ candidate. done candidate

  unfoldable pub select : Option ModuleVersionPolicy → Bytes → Bytes → Attempt PackageManifest
  unfolding select_locked select_free
  select none name required = select_free name required
  select (some policy) name required = select_locked policy name required
