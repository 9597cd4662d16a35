-- ===== src/Packages/Names.antt =====
-- The tests on names in src/PackageRegistry.cpp.
use simp.Base.{
  ℕ, ◌+◌, Bool, false, not, ◌&&◌, ◌||◌, none, some, List, [], ◌∷◌, ◌==◌, within, if◌then◌else◌,
  Bytes, codes, equal, all_of, map,
}
use simp.Packages.Split.{cut}
use simp.Packages.Version.{is_alnum, is_empty}

abbrev is_alpha : ℕ → Bool
is_alpha c = within b'a' b'z' c || within b'A' b'Z' c

-- `std::tolower` in the "C" locale.
abbrev pub to_lower : ℕ → ℕ
to_lower c = if within b'A' b'Z' c then c + 32 else c

unfoldable reserved : List Bytes
reserved =
    codes "start"
    ∷ codes "int"
    ∷ codes "bool"
    ∷ codes "float"
    ∷ codes "unsigned"
    ∷ codes "strg"
    ∷ codes "list"
    ∷ codes "dict"
    ∷ codes "buffer"
    ∷ codes "handle"
    ∷ codes "any"
    ∷ codes "type"
    ∷ codes "if"
    ∷ codes "else"
    ∷ codes "while"
    ∷ codes "do"
    ∷ codes "for"
    ∷ codes "in"
    ∷ codes "is"
    ∷ codes "break"
    ∷ codes "continue"
    ∷ codes "and"
    ∷ codes "or"
    ∷ codes "not"
    ∷ codes "print"
    ∷ codes "raise"
    ∷ codes "try"
    ∷ codes "except"
    ∷ codes "finally"
    ∷ codes "class"
    ∷ codes "namespace"
    ∷ codes "include"
    ∷ codes "inline"
    ∷ codes "import"
    ∷ codes "as"
    ∷ codes "from"
    ∷ codes "public"
    ∷ codes "protected"
    ∷ codes "private"
    ∷ codes "virtual"
    ∷ codes "super"
    ∷ codes "null"
    ∷ codes "true"
    ∷ codes "false"
    ∷ codes "return"
    ∷ codes "void"
    ∷ []

abbrev any_of : (Bytes → Bool) → List Bytes → Bool
any_of p [] = false
any_of p (word ∷ words) = p word || any_of p words

unfoldable pub is_reserved : Bytes → Bool
unfolding reserved
is_reserved word = any_of (equal word) reserved

unfoldable pub identifier : Bytes → Bool
unfolding is_reserved
identifier [] = false
identifier (c ∷ value) =
    (is_alpha c || c == b'_')
    && all_of (λ d. is_alnum d || d == b'_') value
    && not (is_reserved (map to_lower (c ∷ value)))

unfoldable pub bare_key : Bytes → Bool
bare_key [] = false
bare_key (c ∷ value) =
    (is_alpha c || c == b'_') && all_of (λ d. is_alnum d || d == b'_' || d == b'-') value

abbrev is_repository_part : Bytes → Bool
is_repository_part part =
    not (is_empty part) && all_of (λ c. is_alnum c || c == b'_' || c == b'.' || c == b'-') part

abbrev is_dots : Bytes → Bool
is_dots part = equal part (codes ".") || equal part (codes "..")

-- The pattern `[A-Za-z0-9_.-]+/[A-Za-z0-9_.-]+`, and neither part is a directory link.
unfoldable pub github_repository : Bytes → Bool
unfolding cut
github_repository value =
    let (owner, repository) = cut b'/' value in
    elim repository [
      | none ↦ false
      | some name ↦
          is_repository_part owner
          && is_repository_part name
          && not (is_dots owner)
          && not (is_dots name)
    ]
