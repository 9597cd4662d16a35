-- ===== src/Tests/Packages.antt =====
-- Runs of the functions of src/PackageRegistry.cpp, and their theorems at concrete inputs.
use Prim.Native.Nat.{compare, lt, eq, gt}
use simp.Base.{codes, none, some, [], ◌≡◌, ◌↔◌, refl}
use simp.Packages.Version.{
  valid_core_number, compare_numeric, Version, parse_version, compare_version,
}
use simp.Base.{equal, false, true, ◌∷◌, ◌++◌, inl}
use simp.Packages.Numbers.{value, compare_numeric-value}
use simp.Packages.Arrays.{parse_string_array}
use simp.Packages.ArrayText.{array_text, parse_string_array-array_text}
use simp.Base.Attempts.{done, invalid}
use simp.Base.Decimal.{decimal}
use simp.Packages.Names.{identifier, github_repository}
use simp.Packages.Toml.{trim, parse_quoted_string, uncomment}
use simp.Packages.Quoting.{quoted, parse_quoted_string-quoted}
use simp.Packages.Order.{flip}
use simp.Packages.Precedence.{precedence, compare_version-precedence, compare_version-transitive}
use simp.Packages.Written.{version_text, IsVersion}
use simp.Packages.Reading.{parse_version_iff}

abbrev release : Version
release = record {
  major = codes "1";
  minor = codes "10";
  patch = codes "0";
  prerelease = [];
  build = codes "7";
}

abbrev candidate : Version
candidate = record {
  major = codes "1";
  minor = codes "10";
  patch = codes "0";
  prerelease = codes "rc.2";
  build = [];
}

abbrev older : Version
older = record {
  major = codes "1";
  minor = codes "9";
  patch = codes "3";
  prerelease = [];
  build = [];
}

parse_release : parse_version (codes "1.10.0+7") ≡ some release
unfolding parse_version
parse_release = refl

parse_candidate : parse_version (codes "1.10.0-rc.2") ≡ some candidate
unfolding parse_version
parse_candidate = refl

parse_leading_zero : parse_version (codes "1.01.0") ≡ none
unfolding parse_version
parse_leading_zero = refl

parse_empty_build : parse_version (codes "1.1.0+") ≡ none
unfolding parse_version
parse_empty_build = refl

candidate_comes_first : compare_version release candidate ≡ gt
unfolding compare_version
candidate_comes_first = refl

compare_numeric_minor : compare_version older candidate ≡ lt
unfolding compare_version
compare_numeric_minor = refl

parse_version_iff_example :
    (parse_version (codes "1.10.0-rc.2") ≡ some candidate)
    ↔ ((codes "1.10.0-rc.2" ≡ version_text candidate) × IsVersion candidate)
parse_version_iff_example = parse_version_iff (codes "1.10.0-rc.2") candidate

compare_version-precedence_example :
    (compare_version candidate older ≡ flip (compare_version older candidate))
    × ((compare_version older candidate ≡ eq) ↔ (precedence older ≡ precedence candidate))
compare_version-precedence_example = compare_version-precedence older candidate

compare_version-transitive_example : compare_version older release ≡ lt
unfolding compare_version
compare_version-transitive_example = compare_version-transitive older candidate release refl refl

manifest_value :
    parse_quoted_string (codes "m.toml") 3 (trim (uncomment (codes "  \"a#\\tb\" # c")))
    ≡ done (codes "a#" ++ (9 ∷ codes "b"))
unfolding parse_quoted_string trim uncomment
manifest_value = refl

manifest_error :
    parse_quoted_string (codes "m.toml") 13 (codes "\"a\\q\"")
    ≡ invalid (codes "m.toml:13: unsupported string escape")
unfolding parse_quoted_string decimal
manifest_error = refl

reserved_name : identifier (codes "Class") ≡ false
unfolding identifier equal
reserved_name = refl

repository_name : github_repository (codes "owner/simp.cw") ≡ true
unfolding github_repository equal
repository_name = refl

parse_quoted_string-quoted_example :
    parse_quoted_string
      (codes "m.toml")
      3
      (trim (uncomment (b' ' ∷ quoted (codes "a\"#") ++ (b' ' ∷ b'#' ∷ codes " note \""))))
    ≡ done (codes "a\"#")
parse_quoted_string-quoted_example =
    parse_quoted_string-quoted (codes "m.toml") 3 (codes "a\"#") (codes " note \"")
      (inl refl, (inl refl, (inl refl, tt)))

compare_numeric-value_example :
    compare_numeric (codes "9") (codes "10") ≡ compare (value (codes "9")) (value (codes "10"))
unfolding valid_core_number
compare_numeric-value_example = compare_numeric-value (codes "9") (codes "10") refl refl

array_error :
    parse_string_array (codes "m.toml") 4 (codes "[\"a\" \"b\"]")
    ≡ some (invalid (codes "m.toml:4: expected ',' or ']' after array value"))
unfolding parse_string_array decimal
array_error = refl

trailing_comma :
    parse_string_array (codes "m.toml") 4 (codes "[ \"a\", ]") ≡ some (done (codes "a" ∷ []))
unfolding parse_string_array
trailing_comma = refl

parse_string_array-array_text_example :
    parse_string_array (codes "m.toml") 4 (array_text (codes "a\"" ∷ codes "b" ∷ []))
    ≡ some (done (codes "a\"" ∷ codes "b" ∷ []))
parse_string_array-array_text_example =
    parse_string_array-array_text (codes "m.toml") 4 (codes "a\"" ∷ codes "b" ∷ [])
      ((inl refl, (inl refl, tt)), ((inl refl, tt), tt))
