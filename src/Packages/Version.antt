-- ===== src/Packages/Version.antt =====
-- Versions of src/PackageRegistry.cpp: `parseVersion`, `comparePrerelease` and `compareVersion`.
use Prim.Native.Nat.{compare, Ordering, lt, eq, gt}
use simp.Base.{
  ℕ, Bool, true, false, not, ◌&&◌, ◌||◌, Option, none, some, [], ◌∷◌, ◌==◌, within, if◌then◌else◌,
  Bytes, length, all_of,
}
use simp.Packages.Split.{cut, split_on}
use simp.Packages.Order.{then_by, compare_lists}

pub record Version : Type 0 where
  pub major : Bytes
  pub minor : Bytes
  pub patch : Bytes
  pub prerelease : Bytes
  pub build : Bytes

-- `std::isdigit` and `std::isalnum` in the "C" locale.
abbrev pub is_digit : ℕ → Bool
is_digit c = within b'0' b'9' c

abbrev pub is_alnum : ℕ → Bool
is_alnum c = is_digit c || within b'a' b'z' c || within b'A' b'Z' c

abbrev pub is_empty : Bytes → Bool
is_empty [] = true
is_empty (_ ∷ _) = false

-- More than one byte, and the first one a zero.
abbrev pub leading_zero : Bytes → Bool
leading_zero [] = false
leading_zero (c ∷ []) = false
leading_zero (c ∷ _ ∷ _) = c == b'0'

unfoldable pub valid_core_number : Bytes → Bool
valid_core_number value = not (is_empty value) && not (leading_zero value) && all_of is_digit value

unfoldable pub valid_identifier : Bool → Bytes → Bool
valid_identifier reject_leading_zero part =
    not (is_empty part)
    && all_of (λ c. is_alnum c || c == b'-') part
    && not (reject_leading_zero && all_of is_digit part && leading_zero part)

unfoldable pub valid_identifiers : Bytes → Bool → Bool
unfolding valid_identifier split_on
valid_identifiers value reject_leading_zero =
    not (is_empty value) && all_of (valid_identifier reject_leading_zero) (split_on b'.' value)

-- A part behind `+` or `-`: none, or one that is not empty and has valid identifiers.
abbrev pub valid_part : Option Bytes → Bool → Bool
valid_part none reject = true
valid_part (some value) reject = not (is_empty value) && valid_identifiers value reject

abbrev pub text_or_empty : Option Bytes → Bytes
text_or_empty none = []
text_or_empty (some value) = value

-- `major.minor.patch`, cut one by one, with the rest of the version at hand.
abbrev pub parse_patch :
    Bytes → Bytes → Option Bytes → Option Bytes → Bytes × Option Bytes → Option Version
parse_patch major minor prerelease build (patch, some _) = none
parse_patch major minor prerelease build (patch, none) =
    if valid_core_number major && valid_core_number minor && valid_core_number patch
    then some (record {
      major = major;
      minor = minor;
      patch = patch;
      prerelease = text_or_empty prerelease;
      build = text_or_empty build;
    })
    else none

abbrev pub parse_minor : Bytes → Option Bytes → Option Bytes → Bytes × Option Bytes → Option Version
parse_minor major prerelease build (minor, none) = none
parse_minor major prerelease build (minor, some rest) =
    parse_patch major minor prerelease build (cut b'.' rest)

abbrev pub parse_major : Option Bytes → Option Bytes → Bytes × Option Bytes → Option Version
parse_major prerelease build (major, none) = none
parse_major prerelease build (major, some rest) = parse_minor major prerelease build (cut b'.' rest)

unfoldable pub parse_version : Bytes → Option Version
unfolding cut valid_core_number valid_identifiers
parse_version text =
    let (without_build, build) = cut b'+' text in
    let (core, prerelease) = cut b'-' without_build in
    if valid_part build false && valid_part prerelease true
    then parse_major prerelease build (cut b'.' core)
    else none

-- `lhs == rhs ? 0 : lhs < rhs ? -1 : 1` on texts.
abbrev pub compare_text : Bytes → Bytes → Ordering
compare_text = compare_lists compare

-- Numbers as texts: the longer one is greater.
unfoldable pub compare_numeric : Bytes → Bytes → Ordering
compare_numeric lhs rhs = then_by (compare (length lhs) (length rhs)) (compare_text lhs rhs)

unfoldable pub compare_identifier : Bytes → Bytes → Ordering
compare_identifier lhs rhs =
    let left_numeric = all_of is_digit lhs in
    let right_numeric = all_of is_digit rhs in
    if left_numeric && right_numeric
    then compare_numeric lhs rhs
    else if left_numeric
    then lt
    else if right_numeric
    then gt
    else compare_text lhs rhs

unfoldable pub compare_prerelease : Bytes → Bytes → Ordering
compare_prerelease left right =
    if is_empty left
    then if is_empty right then eq else gt
    else if is_empty right
    then lt
    else compare_lists compare_identifier (split_on b'.' left) (split_on b'.' right)

unfoldable pub compare_version : Version → Version → Ordering
unfolding compare_numeric compare_identifier compare_prerelease split_on
compare_version left right = then_by (compare_numeric left.major right.major) (
    then_by (compare_numeric left.minor right.minor) (
      then_by (compare_numeric left.patch right.patch)
        (compare_prerelease left.prerelease right.prerelease)))
