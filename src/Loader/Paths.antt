-- ===== src/Loader/Paths.antt =====
-- What src/SourceLoader.cpp uses of `std::filesystem::path` on POSIX. A path is its text.
use simp.Base.{Bool, true, false, [], ◌∷◌, ◌++◌, Bytes, ◌==◌, if◌then◌else◌, take}

abbrev pub is_absolute : Bytes → Bool
is_absolute [] = false
is_absolute (c ∷ path) = c == b'/'

abbrev all_slashes : Bytes → Bool
all_slashes [] = true
all_slashes (c ∷ path) = let rest = all_slashes path in if c == b'/' then rest else false

abbrev has_slash : Bytes → Bool
has_slash [] = false
has_slash (c ∷ path) = let rest = has_slash path in if c == b'/' then true else rest

-- The text up to the last slash, which it keeps.
unfoldable pub to_last_slash : Bytes → Bytes
to_last_slash [] = []
to_last_slash (c ∷ path) =
    let rest = to_last_slash path in if has_slash (c ∷ path) then c ∷ rest else []

unfoldable pub trim_slashes : Bytes → Bytes
trim_slashes [] = []
trim_slashes (c ∷ path) =
    let rest = trim_slashes path in if all_slashes (c ∷ path) then [] else c ∷ rest

-- The root is written with one slash.
unfoldable pub parent_path : Bytes → Bytes
unfolding to_last_slash trim_slashes
parent_path path =
    let before = to_last_slash path in
    if all_slashes before then take 1 before else trim_slashes before

abbrev ends_with_slash : Bytes → Bool
ends_with_slash [] = false
ends_with_slash (c ∷ []) = c == b'/'
ends_with_slash (c ∷ d ∷ path) = ends_with_slash (d ∷ path)

-- `directory / path` for a relative path.
unfoldable pub join_path : Bytes → Bytes → Bytes
join_path [] path = path
join_path (c ∷ directory) path =
    if ends_with_slash (c ∷ directory)
    then (c ∷ directory) ++ path
    else (c ∷ directory) ++ b'/' ∷ path
