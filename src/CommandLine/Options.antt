-- ===== src/CommandLine/Options.antt =====
-- include/cwhip/CommandLine.hpp and the registration of options in src/CommandLine.cpp.
use simp.Base.{
  ℕ, Bool, true, false, not, ◌&&◌, ◌||◌, Option, none, some, List, [], ◌∷◌, ◌++◌, ◌==◌,
  if◌then◌else◌, Bytes, codes, equal,
}
use simp.Base.Attempts.{Attempt, done, invalid}
use simp.Base.Tables.{Table, case_option}

pub data CommandLineValueType : Type 0 where
  switch : CommandLineValueType
  counter : CommandLineValueType
  string : CommandLineValueType
  number : CommandLineValueType

pub data CommandLineAction : Type 0 where
  no_action : CommandLineAction
  help : CommandLineAction
  version : CommandLineAction

pub record CommandLineOption : Type 0 where
  pub short_name : ℕ
  pub long_name : Bytes
  pub name : Bytes
  pub description : Bytes
  pub value_type : CommandLineValueType
  pub list : Bool
  pub list_separator : ℕ
  pub required : Bool
  pub default_value : Option Bytes
  pub action : CommandLineAction

pub record CommandLinePositional : Type 0 where
  pub name : Bytes
  pub description : Bytes
  pub required : Bool
  pub list : Bool

pub record CommandLine : Type 0 where
  pub program_name : Bytes
  pub description : Bytes
  pub version_number : Bytes
  pub options : List CommandLineOption
  pub positional : Option CommandLinePositional
  pub values : Table (List Bytes)
  pub provided : Table Bool
  pub counts : Table ℕ
  pub positional_values : List Bytes
  pub action : CommandLineAction

abbrev pub new_command_line : Bytes → Bytes → Bytes → CommandLine
new_command_line program_name description version_number = record {
  program_name = program_name;
  description = description;
  version_number = version_number;
  options = [];
  positional = none;
  values = [];
  provided = [];
  counts = [];
  positional_values = [];
  action = no_action;
}

abbrev pub is_empty : Bytes → Bool
is_empty [] = true
is_empty (_ ∷ _) = false

-- `std::find_if` on the options.
unfoldable pub find_if :
    (CommandLineOption → Bool) → List CommandLineOption → Option CommandLineOption
find_if p [] = none
find_if p (option ∷ options) =
    let rest = find_if p options in if p option then some option else rest

abbrev pub has_long : Bytes → CommandLineOption → Bool
has_long name option = not (is_empty option.long_name) && equal option.long_name name

abbrev pub has_short : ℕ → CommandLineOption → Bool
has_short name option = option.short_name == name

abbrev pub has_name : Bytes → CommandLineOption → Bool
has_name name option = equal option.name name

unfoldable pub find_long_option : CommandLine → Bytes → Option CommandLineOption
unfolding find_if
find_long_option line name = find_if (has_long name) line.options

unfoldable pub find_short_option : CommandLine → ℕ → Option CommandLineOption
unfolding find_if
find_short_option line name = find_if (has_short name) line.options

abbrev pub takes_value : CommandLineValueType → Bool
takes_value switch = false
takes_value counter = false
takes_value string = true
takes_value number = true

abbrev pub is_found : Option CommandLineOption → Bool
is_found none = false
is_found (some _) = true

unfoldable pub add_option : CommandLine → CommandLineOption → Attempt CommandLine
unfolding find_if find_long_option find_short_option
add_option line option =
    if is_empty option.name || (is_empty option.long_name && option.short_name == 0)
    then invalid (codes "command-line options need a value name and an option name")
    else if not (takes_value option.value_type) && option.list
    then invalid (codes "switch options cannot accept list values")
    else if option.list && option.list_separator == 0
    then invalid (codes "list options need a list separator")
    else if is_found (find_if (has_name option.name) line.options)
        || is_found (find_long_option line option.long_name)
        || (not (option.short_name == 0) && is_found (find_short_option line option.short_name))
    then invalid (codes "duplicate command-line option")
    else done (record {
      program_name = line.program_name;
      description = line.description;
      version_number = line.version_number;
      options = line.options ++ (option ∷ []);
      positional = line.positional;
      values = line.values;
      provided = line.provided;
      counts = line.counts;
      positional_values = line.positional_values;
      action = line.action;
    })

unfoldable pub add_positional : CommandLine → CommandLinePositional → Attempt CommandLine
add_positional line positional =
    if is_empty positional.name
    then invalid (codes "positional arguments need a value name")
    else case_option line.positional
        (done (record {
          program_name = line.program_name;
          description = line.description;
          version_number = line.version_number;
          options = line.options;
          positional = some positional;
          values = line.values;
          provided = line.provided;
          counts = line.counts;
          positional_values = line.positional_values;
          action = line.action;
        }))
        (λ _. invalid (codes "only one positional argument is supported"))
