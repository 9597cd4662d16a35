-- ===== src/CommandLine/Process.antt =====
-- One option of an argument in src/CommandLine.cpp.
use simp.Base.{
  ℕ, ◌+◌, Bool, true, false, not, ◌&&◌, Option, none, some, [], ◌∷◌, ◌++◌, ◌==◌, if◌then◌else◌,
  Bytes, codes,
}
use simp.Packages.Split.{cut}
use simp.CommandLine.Options.{
  CommandLineValueType, switch, counter, CommandLineAction, no_action, help, version,
  CommandLineOption, CommandLine, is_empty, takes_value, find_long_option, find_short_option,
}
use simp.Base.Tables.{Table, find, assign, case_option}
use simp.Base.Attempts.{Attempt, done, invalid, ◌>>=◌}
use simp.CommandLine.Values.{display_name, record_value, record_positional}

abbrev pub set_provided : CommandLine → Table Bool → Table ℕ → CommandLine
set_provided line provided counts = record {
  program_name = line.program_name;
  description = line.description;
  version_number = line.version_number;
  options = line.options;
  positional = line.positional;
  values = line.values;
  provided = provided;
  counts = counts;
  positional_values = line.positional_values;
  action = line.action;
}

abbrev pub set_action : CommandLine → CommandLineAction → CommandLine
set_action line action = record {
  program_name = line.program_name;
  description = line.description;
  version_number = line.version_number;
  options = line.options;
  positional = line.positional;
  values = line.values;
  provided = line.provided;
  counts = line.counts;
  positional_values = line.positional_values;
  action = action;
}

-- The state behind an option: `stop` if the parser returns, `taken` if the next argument is the
-- option's.
pub record Processed : Type 0 where
  pub line : CommandLine
  pub stop : Bool
  pub taken : Bool

abbrev pub going_on : CommandLine → Processed
going_on line = record { line = line; stop = false; taken = false }

abbrev no_argument : CommandLineOption → Bytes
no_argument option =
    codes "option " ++ (display_name option ++ codes " does not accept an argument")

abbrev count_of : Option ℕ → ℕ
count_of none = 0
count_of (some n) = n

abbrev pub is_action : CommandLineAction → Bool
is_action no_action = false
is_action help = true
is_action version = true

abbrev pub record_argument : CommandLine → CommandLineOption → Bytes → Bool → Attempt Processed
record_argument line option argument taken =
    if is_empty argument
    then invalid
        (codes "option " ++ (display_name option ++ codes " requires a non-empty argument"))
    else record_value line option argument true >>= λ recorded.
        done (record { line = recorded; stop = false; taken = taken })

-- What the kinds of options do with the attached value and the next argument.
abbrev pub process_kind :
    CommandLineValueType
    → CommandLine
    → CommandLineOption
    → Option Bytes
    → Option Bytes
    → Attempt Processed
process_kind switch line option (some _) next = invalid (no_argument option)
process_kind switch line option none next =
    done (going_on (set_provided line (assign option.name true line.provided) line.counts))
process_kind counter line option (some _) next = invalid (no_argument option)
process_kind counter line option none next = done (
    going_on (
      set_provided line (assign option.name true line.provided)
        (assign option.name (count_of (find option.name line.counts) + 1) line.counts)))
process_kind _ line option (some attached) next = record_argument line option attached false
process_kind _ line option none none =
    invalid (codes "option " ++ (display_name option ++ codes " requires an argument"))
process_kind _ line option none (some argument) = record_argument line option argument true

abbrev pub process_action : CommandLine → CommandLineOption → Option Bytes → Attempt Processed
process_action line option (some _) = invalid (no_argument option)
process_action line option none =
    done (record { line = set_action line option.action; stop = true; taken = false })

unfoldable pub process_option :
    CommandLine → CommandLineOption → Option Bytes → Option Bytes → Attempt Processed
unfolding display_name find assign record_value
process_option line option attached next =
    if is_action option.action
    then process_action line option attached
    else process_kind option.value_type line option attached next

-- `--name` and `--name=value`, without the dashes.
unfoldable pub parse_long : CommandLine → Bytes → Option Bytes → Attempt Processed
unfolding cut find_long_option process_option
parse_long line text next =
    let (name, attached) = cut b'=' text in
    case_option (find_long_option line name) (invalid (codes "unknown option: --" ++ name))
      λ option. process_option line option attached next

abbrev pub is_flag : CommandLineOption → Bool
is_flag option = not (takes_value option.value_type) && not (is_action option.action)

-- The value behind a short option in the same argument.
abbrev pub attached_value : Bytes → Option Bytes
attached_value [] = none
attached_value (c ∷ value) = if c == b'=' then some value else some (c ∷ value)

abbrev pub flag_value : Bytes → Option Bytes
flag_value [] = none
flag_value (c ∷ value) = if c == b'=' then some value else none

-- The short options of one argument, without the dash.
unfoldable pub parse_short : CommandLine → Bytes → Option Bytes → Attempt Processed
unfolding find_short_option process_option
parse_short line [] next = done (going_on line)
parse_short line (c ∷ chars) next =
    case_option (find_short_option line c) (invalid (codes "unknown option: -" ++ (c ∷ [])))
      λ option.
        if is_flag option
        then case_option (flag_value chars)
            (process_option line option none next >>= λ processed.
              if processed.stop then done processed else parse_short processed.line chars next)
            (λ value. process_option line option (some value) next)
        else process_option line option (attached_value chars) next

abbrev pub recorded_positional : CommandLine → Bytes → Attempt Processed
recorded_positional line argument =
    record_positional line argument >>= λ recorded. done (going_on recorded)
