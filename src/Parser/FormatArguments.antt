-- ===== src/Parser/FormatArguments.antt =====
-- The second half of `validateFormatString` of src/Parser.cpp: the placeholders and the arguments.
use simp.Base.{
  ℕ, suc, Bool, true, false, not, ◌&&◌, ◌||◌, List, [], ◌∷◌, ◌++◌, Bytes, codes, Option, none, some,
  ◌==◌, equal, if◌then◌else◌, length, SourceLocation,
}
use simp.Base.Tables.{case_option}
use simp.Ast.Expressions.{Attributes}
use simp.Parser.Verdict.{Verdict, accepted, refused, ◌>>=◌}
use simp.Parser.Format.{no_template, outside}

abbrev any_of : (Bytes → Bool) → List Bytes → Bool
any_of p [] = false
any_of p (x ∷ xs) = p x || any_of p xs

abbrev is_empty : Bytes → Bool
is_empty [] = true
is_empty (c ∷ s) = false

abbrev is_named : Bytes → Bool
is_named s = not (is_empty s)

abbrev pub has_named : List Bytes → Bool
has_named names = any_of is_named names

abbrev pub has_positional : List Bytes → Bool
has_positional names = any_of is_empty names

abbrev quoted_name : Bytes → Bytes
quoted_name name = b'\'' ∷ name ++ b'\'' ∷ []

-- `std::find` and `std::distance`.
unfoldable pub index_of : Bytes → List Bytes → Option ℕ
unfolding equal
index_of name [] = none
index_of name (x ∷ xs) =
    let later = index_of name xs in
    if equal x name then some 0 else case_option later none λ i. some (suc i)

unfoldable pub check_used : List Bytes → List Bytes → List SourceLocation → Verdict (Unit {0})
unfolding equal
check_used placeholders (name ∷ names) (l ∷ ls) =
    let more = check_used placeholders names ls in
    if any_of (equal name) placeholders
    then more
    else refused l (codes "unused named format argument " ++ quoted_name name)
check_used placeholders _ _ = accepted tt

unfoldable pub find_arguments : SourceLocation → List Bytes → List Bytes → Verdict (List ℕ)
unfolding index_of
find_arguments l arguments [] = accepted []
find_arguments l arguments (name ∷ names) =
    let more = find_arguments l arguments names in
    case_option (index_of name arguments)
      (refused l (codes "missing named format argument " ++ quoted_name name))
      λ i. more >>= λ rest. accepted (i ∷ rest)

-- The first named argument's place is where the error is.
abbrev pub named_argument :
    Bool → List Bytes → List SourceLocation → SourceLocation → Verdict (List ℕ)
named_argument no_placeholder (name ∷ names) (l ∷ ls) d =
    if is_empty name
    then named_argument no_placeholder names ls d
    else if no_placeholder
    then refused l (codes "unused named format argument " ++ quoted_name name)
    else refused l (codes "named and positional format arguments cannot be mixed")
named_argument no_placeholder _ _ d =
    refused d (codes "named and positional format arguments cannot be mixed")

abbrev pub count_from : ℕ → List Bytes → List ℕ
count_from i [] = []
count_from i (x ∷ xs) = i ∷ count_from (suc i) xs

abbrev pub is_nil : List Bytes → Bool
is_nil [] = true
is_nil (x ∷ xs) = false

-- The indices of the arguments, one for each placeholder.
unfoldable pub place_arguments : Attributes → ℕ → List Bytes → Verdict (List ℕ)
unfolding check_used find_arguments
place_arguments a count placeholders =
    let l = a.location in
    let mixed = refused l (codes "named and positional format arguments cannot be mixed") in
    if has_positional placeholders && has_named placeholders
    then refused l (codes "named and positional placeholders cannot be mixed")
    else if not (length a.argument_names == count)
        || not (length a.argument_name_locations == count)
    then refused l (codes "invalid format argument metadata")
    else if has_named a.argument_names && has_positional a.argument_names
    then mixed
    else if has_named placeholders
    then if has_positional a.argument_names
      then mixed
      else (check_used placeholders a.argument_names a.argument_name_locations >>= λ _.
          find_arguments l a.argument_names placeholders)
    else if has_named a.argument_names
    then named_argument (is_nil placeholders) a.argument_names a.argument_name_locations l
    else if length placeholders == count
    then accepted (count_from 0 placeholders)
    else refused l (codes "formatted string must have one '{}' placeholder per argument")

-- `count` is the number of the expression's arguments.
unfoldable pub validate_format_string : Attributes → ℕ → Verdict Attributes
unfolding outside place_arguments
validate_format_string a count = outside a.location no_template [] a.value >>= λ t.
    place_arguments a count t.names >>= λ indices. accepted (record a {
      format_segments = a.format_segments ++ t.segments;
      format_specs = a.format_specs ++ t.specs;
      format_argument_indices = a.format_argument_indices ++ indices;
    })
