-- ===== src/Packages/LockChecks.antt =====
-- `readLockedPolicy` of src/PackageRegistry.cpp: the checks behind the lines of a lock.
use simp.Base.{
  ℕ, zero, suc, Bool, true, false, not, ◌&&◌, ◌||◌, Option, none, some, List, [], ◌∷◌, ◌++◌, ◌==◌,
  if◌then◌else◌, Bytes, codes, equal, all_of, within, length, map,
}
use simp.Base.Attempts.{Attempt}
use simp.Base.Tables.{Table, assign, find, is_member, case_option}
use simp.Packages.Split.{cut}
use simp.Packages.Version.{is_digit}
use simp.Packages.Names.{github_repository}
use simp.Packages.Manifest.{ModuleVersionPolicy}
use simp.Packages.Select.{at}
use simp.Packages.Searches.{Search, walked, exhausted, ◌>>=◌, search_of}
use simp.Packages.Lock.{Lock, lock_failure, lock_lines}

abbrev is_hex : ℕ → Bool
is_hex c = is_digit c || within b'a' b'f' c

-- The pattern `[0-9a-f]{64}`.
abbrev pub is_hash : Bytes → Bool
is_hash text = length text == 64 && all_of is_hex text

-- The pattern `[0-9a-f]{40}|[0-9a-f]{64}`.
abbrev is_commit : Bytes → Bool
is_commit text = (length text == 40 || length text == 64) && all_of is_hex text

-- `table[key]` of a map of texts.
abbrev pub text_at : Bytes → Table Bytes → Bytes
text_at key table = case_option (find key table) [] λ text. text

abbrev has_key : Bytes → Table Bytes → Bool
has_key key table = case_option (find key table) false λ _. true

-- The first version, of which there is one.
abbrev pub front : List Bytes → Bytes
front [] = []
front (version ∷ versions) = version

-- The name that a locked dependency begins with.
abbrev pub target : Bytes → Bytes
target dependency = (cut b'=' dependency).0

unfoldable pub each_locked :
    (Bytes → Table ℕ → Search (Table ℕ)) → List Bytes → Table ℕ → Search (Table ℕ)
each_locked visit [] states = walked states
each_locked visit (name ∷ names) states = visit name states >>= each_locked visit names

-- The five keys of a package.
abbrev pub has_fields : Table Bytes → Bool
has_fields entry =
    length entry == 5
    && has_key (codes "repo") entry
    && has_key (codes "ref") entry
    && has_key (codes "commit") entry
    && has_key (codes "sha256") entry
    && has_key (codes "version") entry

abbrev pub is_complete : Bytes → Table Bytes → Bool
is_complete version entry =
    has_fields entry
    && equal (text_at (codes "version") entry) version
    && is_hash (text_at (codes "sha256") entry)

abbrev pub is_tagged : Bytes → Table Bytes → Bool
is_tagged version entry =
    github_repository (text_at (codes "repo") entry)
    && is_commit (text_at (codes "commit") entry)
    && equal (text_at (codes "ref") entry) (codes "refs/tags/" ++ version)

-- The dependency is on a locked module in its version, and on no other one again.
abbrev pub is_valid_dependency : Table (List Bytes) → List Bytes → Bytes → Bool
is_valid_dependency versions unique dependency =
    let (name, version) = cut b'=' dependency in
    case_option version false λ v.
      case_option (find name versions) false
        λ locked. equal (front locked) v && not (is_member name unique)

module _ (path : Bytes) where
  abbrev fail : {A : Type 0} → Bytes → Search A
  fail message = lock_failure path message

  -- The hash of the manifest is read behind the metadata.
  unfoldable pub check_metadata : Attempt Bytes → Lock → Search Lock
  unfolding find equal is_member
  check_metadata manifest_sha256 s =
      if not (equal (text_at (codes "schema") s.metadata) (codes "1"))
        || not (is_hash (text_at (codes "manifest-sha256") s.metadata))
        || not (is_member (codes "modules") s.sections)
      then fail (codes "missing or invalid lock metadata")
      else search_of manifest_sha256 >>= λ digest.
          if not (equal digest (text_at (codes "manifest-sha256") s.metadata))
          then fail (codes "stale lockfile: cwhip-pkg.toml has changed")
          else if not (length s.policy.locked_packages == length s.policy.versions)
              || not (length s.policy.locked_dependencies == length s.policy.versions)
          then fail (codes "lock package graph does not match [modules]")
          else walked s

  abbrev pub check_origin : Bytes → Bytes → Table Bytes → Search Unit
  check_origin name version entry =
      if equal (text_at (codes "repo") entry) (codes "builtin")
      then if not (equal (text_at (codes "ref") entry) (codes "builtin"))
          || not (equal (text_at (codes "commit") entry) (codes "builtin"))
        then fail (codes "invalid builtin package identity")
        else walked tt
      else if is_tagged version entry
      then walked tt
      else fail (codes "invalid repository, ref, or commit for '" ++ name ++ codes "'")

  unfoldable pub check_dependencies : Table (List Bytes) → List Bytes → List Bytes → Search Unit
  unfolding cut find equal is_member
  check_dependencies versions [] unique = walked tt
  check_dependencies versions (dependency ∷ dependencies) unique =
      let rest = check_dependencies versions dependencies (target dependency ∷ unique) in
      if is_valid_dependency versions unique dependency
      then rest
      else fail (codes "invalid or conflicting locked dependency '" ++ dependency ++ codes "'")

  unfoldable pub check_package : ModuleVersionPolicy → Bytes → List Bytes → Search Unit
  unfolding find equal github_repository check_dependencies
  check_package policy name versions =
      case_option (find name policy.locked_packages)
        (fail (codes "missing locked package '" ++ name ++ codes "'"))
        λ entry.
          if not (is_complete (front versions) entry)
          then fail (codes "invalid locked package '" ++ name ++ codes "'")
          else check_origin name (front versions) entry >>= λ _.
              case_option (find name policy.locked_dependencies)
                (fail (codes "missing dependency list for '" ++ name ++ codes "'"))
                λ dependencies. check_dependencies policy.versions dependencies []

  unfoldable pub check_packages : ModuleVersionPolicy → Table (List Bytes) → Search Unit
  unfolding check_package
  check_packages policy [] = walked tt
  check_packages policy ((name, versions) ∷ table) =
      check_package policy name versions >>= λ _. check_packages policy table

  -- One unit of fuel is one level of dependencies. A state is 1 while the dependencies of a name are
  -- visited, and 2 behind that.
  unfoldable pub visit_locked : Table (List Bytes) → ℕ → Bytes → Table ℕ → Search (Table ℕ)
  unfolding find assign each_locked cut
  visit_locked dependencies zero name states = exhausted
  visit_locked dependencies (suc f) name states =
      let state = case_option (find name states) 0 λ s. s in
      if state == 1
      then fail (codes "cyclic locked dependency involving '" ++ name ++ codes "'")
      else if state == 2
      then walked states
      else search_of (at name dependencies) >>= λ names.
          each_locked (visit_locked dependencies f) (map target names) (assign name 1 states)
          >>= λ after. walked (assign name 2 after)

  unfoldable pub check_lock : Attempt Bytes → Lock → Search ModuleVersionPolicy
  unfolding check_metadata check_packages visit_locked each_locked
  check_lock manifest_sha256 s = check_metadata manifest_sha256 s >>= λ t.
      check_packages t.policy t.policy.versions >>= λ _.
      each_locked (visit_locked t.policy.locked_dependencies (suc (length t.policy.versions)))
        (map (λ entry. entry.0) t.policy.versions) []
      >>= λ _. walked t.policy

  abbrev pub no_lock : Lock
  no_lock = record {
    policy = record { path = path; versions = []; locked_packages = []; locked_dependencies = [] };
    metadata = [];
    sections = [];
    keys = [];
    section = [];
  }

  -- `none` is a lock that cannot be opened, and `bad` whether reading has failed behind the lines.
  unfoldable pub read_locked_policy :
      Option (List Bytes) → Bool → Attempt Bytes → Search ModuleVersionPolicy
  unfolding lock_lines check_lock
  read_locked_policy none bad manifest_sha256 = fail (codes "cannot open lockfile")
  read_locked_policy (some lines) bad manifest_sha256 = lock_lines path 0 lines no_lock >>= λ s.
      if bad then fail (codes "cannot read lockfile") else check_lock manifest_sha256 s
