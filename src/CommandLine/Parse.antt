-- ===== src/CommandLine/Parse.antt =====
-- The parser of arguments of src/CommandLine.cpp.
use simp.Base.{
  Bool, true, false, not, ◌&&◌, Option, none, some, List, [], ◌∷◌, ◌++◌, ◌==◌, if◌then◌else◌, Bytes,
  codes, equal,
}
use simp.CommandLine.Options.{no_action, CommandLineOption, CommandLinePositional, CommandLine}
use simp.Base.Tables.{find, case_option}
use simp.Base.Attempts.{Attempt, done, invalid, ◌>>=◌}
use simp.CommandLine.Values.{display_name, record_value, record_positional}
use simp.CommandLine.Process.{Processed, recorded_positional, parse_long, parse_short}

-- One argument, but for `--`.
unfoldable pub parse_argument : Bool → CommandLine → Bytes → Option Bytes → Attempt Processed
unfolding record_positional parse_long parse_short
parse_argument true line argument next = recorded_positional line argument
parse_argument false line (d ∷ e ∷ text) next =
    if d == b'-'
    then if e == b'-' then parse_long line text next else parse_short line (e ∷ text) next
    else recorded_positional line (d ∷ e ∷ text)
parse_argument false line argument next = recorded_positional line argument

abbrev pub head : List Bytes → Option Bytes
head [] = none
head (argument ∷ _) = some argument

-- The loop over the arguments; `taken` if the first one was read with the one before it. The
-- result says whether the parser has returned early.
unfoldable pub parse_loop : Bool → Bool → CommandLine → List Bytes → Attempt (CommandLine × Bool)
unfolding parse_argument
parse_loop taken positional_only line [] = done (line, false)
parse_loop true positional_only line (argument ∷ arguments) =
    parse_loop false positional_only line arguments
parse_loop false positional_only line (argument ∷ arguments) =
    if not positional_only && equal argument (codes "--")
    then parse_loop false true line arguments
    else parse_argument positional_only line argument (head arguments) >>= λ processed.
        if processed.stop
        then done (processed.line, true)
        else parse_loop processed.taken positional_only processed.line arguments

unfoldable pub record_defaults : CommandLine → List CommandLineOption → Attempt CommandLine
unfolding record_value
record_defaults line [] = done line
record_defaults line (option ∷ options) =
    case_option option.default_value (record_defaults line options)
      λ value. record_value line option value false >>= λ recorded. record_defaults recorded options

unfoldable pub was_provided : CommandLine → Bytes → Bool
unfolding find
was_provided line name = case_option (find name line.provided) false (λ given. given)

-- The first required option that is not provided.
unfoldable pub check_required : CommandLine → List CommandLineOption → Attempt CommandLine
unfolding display_name was_provided
check_required line [] = done line
check_required line (option ∷ options) =
    let rest = check_required line options in
    if option.required && not (was_provided line option.name)
    then invalid (codes "required option not found: " ++ display_name option)
    else rest

-- The one positional argument, if it is required.
abbrev pub check_given : CommandLine → CommandLinePositional → List Bytes → Attempt CommandLine
check_given line positional [] =
    if positional.required
    then invalid (codes "required argument not found: " ++ positional.name)
    else done line
check_given line positional (_ ∷ _) = done line

unfoldable pub check_positional : CommandLine → Attempt CommandLine
check_positional line =
    case_option line.positional (done line)
      λ positional. check_given line positional line.positional_values

abbrev pub cleared : CommandLine → CommandLine
cleared line = record {
  program_name = line.program_name;
  description = line.description;
  version_number = line.version_number;
  options = line.options;
  positional = line.positional;
  values = [];
  provided = [];
  counts = [];
  positional_values = [];
  action = no_action;
}

abbrev pub checked : CommandLine × Bool → Attempt CommandLine
checked (line, true) = done line
checked (line, false) = check_required line line.options >>= check_positional

unfoldable pub parse : CommandLine → List Bytes → Attempt CommandLine
unfolding record_defaults parse_loop check_required check_positional
parse line arguments =
    record_defaults (cleared line) line.options
    >>= (λ started. parse_loop false false started arguments)
    >>= checked
