-- ===== src/Packages/Lock.antt =====
-- `readLockedPolicy` of src/PackageRegistry.cpp: the lines of a lock.
use simp.Base.{
  ℕ, ◌+◌, Bool, true, false, not, ◌&&◌, ◌||◌, Option, none, some, List, [], ◌∷◌, ◌++◌, ◌==◌,
  if◌then◌else◌, Bytes, codes, equal,
}
use simp.Base.Attempts.{Attempt}
use simp.Base.Tables.{Table, assign, find, is_member, case_option}
use simp.Packages.Split.{cut}
use simp.Packages.Version.{parse_version}
use simp.Packages.Names.{identifier, bare_key}
use simp.Packages.Toml.{trim, uncomment, split_last, parse_quoted_string}
use simp.Packages.Arrays.{parse_string_array}
use simp.Packages.Manifest.{ModuleVersionPolicy}
use simp.Packages.Sorted.{assign_sorted}
use simp.Packages.Searches.{Search, walked, thrown, exhausted, ◌>>=◌, search_of}

-- The variables of the loop over the lines.
pub record Lock : Type 0 where
  pub policy : ModuleVersionPolicy
  pub metadata : Table Bytes
  pub sections : List Bytes
  pub keys : List Bytes
  pub section : Bytes

abbrev pub lock_failure : {A : Type 0} → Bytes → Bytes → Search A
lock_failure path message = thrown (
    path
    ++ codes ": "
    ++ message
    ++ codes "; run 'cwhip-pkg install' to verify or regenerate the lock")

-- `none` is an array that is read past its fuel.
abbrev pub search_array : Option (Attempt (List Bytes)) → Search (List Bytes)
search_array none = exhausted
search_array (some array) = search_of array

-- What is behind a prefix that the text begins with.
unfoldable pub behind_prefix : Bytes → Bytes → Option Bytes
behind_prefix [] text = some text
behind_prefix (c ∷ prefix) [] = none
behind_prefix (c ∷ prefix) (d ∷ text) =
    let rest = behind_prefix prefix text in if c == d then rest else none

-- The name behind `packages.`.
abbrev pub package_of : Bytes → Option Bytes
package_of section = behind_prefix (codes "packages.") section

abbrev pub is_known_section : Bytes → Bool
is_known_section section =
    equal section (codes "modules")
    || case_option (package_of section) false λ name. identifier name

abbrev pub is_exact : List Bytes → Bool
is_exact [] = false
is_exact (version ∷ []) = case_option (parse_version version) false λ _. true
is_exact (version ∷ other ∷ versions) = false

abbrev pub is_package_key : Bytes → Bool
is_package_key key =
    equal key (codes "repo")
    || equal key (codes "version")
    || equal key (codes "ref")
    || equal key (codes "commit")
    || equal key (codes "sha256")

-- The table with the keys of a name, or an empty one.
abbrev entry_of : Bytes → Table (Table Bytes) → Table Bytes
entry_of name packages = case_option (find name packages) [] λ entry. entry

module _ (path : Bytes) where
  abbrev fail : {A : Type 0} → Bytes → Search A
  fail message = lock_failure path message

  -- A table header, without its brackets.
  unfoldable pub open_section : Bytes → Lock → Search Lock
  unfolding trim equal behind_prefix identifier is_member
  open_section inner s =
      let section = trim inner in
      if not (is_known_section section)
      then fail (codes "unsupported lock table [" ++ section ++ codes "]")
      else if is_member section s.sections
      then fail (codes "duplicate lock table [" ++ section ++ codes "]")
      else walked (record s { section = section; sections = section ∷ s.sections })

  unfoldable pub metadata_entry : ℕ → Bytes → Bytes → Lock → Search Lock
  unfolding equal assign parse_quoted_string
  metadata_entry number key value s =
      if equal key (codes "schema")
      then if not (equal value (codes "1"))
        then fail (codes "unsupported lock schema")
        else walked (record s { metadata = assign key value s.metadata })
      else if equal key (codes "manifest-sha256")
      then (search_of (parse_quoted_string path number value) >>= λ text.
          walked (record s { metadata = assign key text s.metadata }))
      else fail (codes "unknown lock metadata '" ++ key ++ codes "'")

  unfoldable pub module_entry : ℕ → Bytes → Bytes → Lock → Search Lock
  unfolding identifier parse_string_array parse_version assign_sorted
  module_entry number key value s =
      if not (identifier key)
      then fail (codes "invalid module identifier")
      else search_array (parse_string_array path number value) >>= λ versions.
          if not (is_exact versions)
          then fail (codes "locked modules require exactly one exact SemVer version")
          else walked (record s {
            policy = record s.policy { versions = assign_sorted key versions s.policy.versions };
          })

  unfoldable pub package_entry : ℕ → Bytes → Bytes → Bytes → Lock → Search Lock
  unfolding equal find parse_string_array parse_quoted_string assign_sorted
  package_entry number name key value s =
      if equal key (codes "dependencies")
      then (search_array (parse_string_array path number value) >>= λ dependencies.
          walked (record s {
            policy = record s.policy {
              locked_dependencies = assign_sorted name dependencies s.policy.locked_dependencies;
            };
          }))
      else if is_package_key key
      then (search_of (parse_quoted_string path number value) >>= λ text. walked (record s {
        policy = record s.policy {
          locked_packages =
              assign_sorted name (assign_sorted key text (entry_of name s.policy.locked_packages))
                s.policy.locked_packages;
        };
      }))
      else fail (codes "unknown locked package key '" ++ key ++ codes "'")

  -- The section is empty at first, and one that `open_section` has accepted later on.
  unfoldable pub entry : ℕ → Bytes → Bytes → Lock → Search Lock
  unfolding metadata_entry module_entry package_entry behind_prefix
  entry number key value s =
      if equal s.section []
      then metadata_entry number key value s
      else if equal s.section (codes "modules")
      then module_entry number key value s
      else case_option (package_of s.section) (thrown (codes "basic_string::substr"))
          λ name. package_entry number name key value s

  unfoldable pub key_line : ℕ → Bytes → Lock → Search Lock
  unfolding cut trim bare_key is_member entry
  key_line number line s =
      let (front, back) = cut b'=' line in
      case_option back (fail (codes "expected key = value")) λ text.
        let key = trim front in
        let unique = s.section ++ b'.' ∷ key in
        if not (bare_key key) || is_member unique s.keys
        then fail (codes "invalid or duplicate key '" ++ key ++ codes "'")
        else entry number key (trim text) (record s { keys = unique ∷ s.keys })

  unfoldable pub lock_line : ℕ → Bytes → Lock → Search Lock
  unfolding split_last open_section key_line
  lock_line number [] s = walked s
  lock_line number (c ∷ []) s = key_line number (c ∷ []) s
  lock_line number (c ∷ d ∷ line) s =
      let (inner, last) = split_last d line in
      if c == b'[' && last == b']' then open_section inner s else key_line number (c ∷ d ∷ line) s

  -- The lines behind `number` lines.
  unfoldable pub lock_lines : ℕ → List Bytes → Lock → Search Lock
  unfolding trim uncomment lock_line
  lock_lines number [] s = walked s
  lock_lines number (line ∷ lines) s =
      lock_line (number + 1) (trim (uncomment line)) s >>= lock_lines (number + 1) lines
