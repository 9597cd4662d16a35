-- ===== src/CommandLine/Values.antt =====
-- The values that src/CommandLine.cpp records.
use simp.Base.{
  ℕ, ◌+◌, ◌*◌, ◌-◌, ◌^◌, Bool, true, false, not, ◌&&◌, Option, none, some, List, [], ◌∷◌, ◌++◌,
  ◌==◌, leb, within, if◌then◌else◌, Bytes, codes, all_of,
}
use simp.CommandLine.Options.{
  CommandLineValueType, number, CommandLineOption, CommandLine, is_empty,
}
use simp.Base.Tables.{Table, find, assign, case_option}
use simp.Base.Attempts.{Attempt, done, invalid}

abbrev cons_part : ℕ → List Bytes → List Bytes
cons_part c [] = (c ∷ []) ∷ []
cons_part c (part ∷ parts) = (c ∷ part) ∷ parts

-- The parts between separators; nothing behind a last separator is no part.
unfoldable pub split_list_value : Bytes → ℕ → List Bytes
split_list_value [] separator = [] ∷ []
split_list_value (c ∷ []) separator = if c == separator then [] ∷ [] else (c ∷ []) ∷ []
split_list_value (c ∷ d ∷ value) separator =
    let rest = split_list_value (d ∷ value) separator in
    if c == separator then [] ∷ rest else cons_part c rest

abbrev digits_value : ℕ → Bytes → ℕ
digits_value value [] = value
digits_value value (c ∷ digits) = digits_value (value * 10 + (c - b'0')) digits

abbrev digits_within : ℕ → Bytes → Bool
digits_within limit digits =
    not (is_empty digits) && all_of (within b'0' b'9') digits && leb (digits_value 0 digits) limit

-- The whole text is read by `std::from_chars` as a `std::int64_t`.
unfoldable pub is_number : Bytes → Bool
is_number [] = false
is_number (c ∷ digits) =
    if c == b'-' then digits_within (2 ^ 63) digits else digits_within (2 ^ 63 - 1) (c ∷ digits)

unfoldable pub display_name : CommandLineOption → Bytes
display_name option =
    if is_empty option.long_name
    then b'-' ∷ option.short_name ∷ []
    else codes "--" ++ option.long_name

abbrev not_a_number : CommandLineOption → Bytes
not_a_number option = codes "option " ++ (display_name option ++ codes " requires a number")

abbrev list_or_empty : Option (List Bytes) → List Bytes
list_or_empty none = []
list_or_empty (some values) = values

abbrev is_number_type : CommandLineValueType → Bool
is_number_type number = true
is_number_type _ = false

-- The items of a value.
abbrev pub items_of : CommandLineOption → Bytes → List Bytes
items_of option value =
    if option.list then split_list_value value option.list_separator else value ∷ []

abbrev pub set_values : CommandLine → Table (List Bytes) → Table Bool → CommandLine
set_values line values provided = record {
  program_name = line.program_name;
  description = line.description;
  version_number = line.version_number;
  options = line.options;
  positional = line.positional;
  values = values;
  provided = provided;
  counts = line.counts;
  positional_values = line.positional_values;
  action = line.action;
}

unfoldable pub record_value : CommandLine → CommandLineOption → Bytes → Bool → Attempt CommandLine
unfolding split_list_value is_number display_name find assign
record_value line option value provided =
    let items = items_of option value in
    let destination = if option.list then list_or_empty (find option.name line.values) else [] in
    if is_number_type option.value_type && not (all_of is_number items)
    then invalid (not_a_number option)
    else done (
        set_values line (assign option.name (destination ++ items) line.values)
          (if provided then assign option.name true line.provided else line.provided))

abbrev pub set_positional_values : CommandLine → List Bytes → CommandLine
set_positional_values line positional_values = record {
  program_name = line.program_name;
  description = line.description;
  version_number = line.version_number;
  options = line.options;
  positional = line.positional;
  values = line.values;
  provided = line.provided;
  counts = line.counts;
  positional_values = positional_values;
  action = line.action;
}

-- Not a list: the first value alone.
abbrev pub record_single : CommandLine → List Bytes → Bytes → Attempt CommandLine
record_single line [] value = done (set_positional_values line (value ∷ []))
record_single line (_ ∷ _) value = invalid (codes "only one input file is supported")

unfoldable pub record_positional : CommandLine → Bytes → Attempt CommandLine
record_positional line value =
    case_option line.positional (invalid (codes "unexpected positional argument: " ++ value))
      λ positional.
        if positional.list
        then done (set_positional_values line (line.positional_values ++ (value ∷ [])))
        else record_single line line.positional_values value
