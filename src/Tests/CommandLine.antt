-- ===== src/Tests/CommandLine.antt =====
-- Runs of src/CommandLine.cpp, and its theorems at concrete inputs.
use simp.Base.{
  Bytes, codes, equal, none, some, true, false, List, [], ◌∷◌, ◌++◌, ◌≡◌, ◌⊎◌, refl, All,
}
use simp.CommandLine.Options.{
  counter, string, number, no_action, CommandLineOption, CommandLine, new_command_line, add_option,
  find_long_option, find_short_option,
}
use simp.Base.Attempts.{Attempt, done, invalid, ◌>>=◌}
use simp.CommandLine.Parse.{parse}
use simp.CommandLine.Help.{values, help_text}
use simp.CommandLine.Registration.{
  IsRegistered, registered_nil, registered_snoc, IsFound, add_option-IsRegistered,
}
use simp.CommandLine.Complete.{IsComplete, parse-IsComplete}
use simp.CommandLine.Spellings.{IsValued, recorded, spellings}
use simp.CommandLine.Process.{is_action}
use simp.CommandLine.Parse.{parse_loop}

abbrev verbose : CommandLineOption
verbose = record {
  short_name = b'v';
  long_name = codes "verbose";
  name = codes "verbosity";
  description = codes "say more";
  value_type = counter;
  list = false;
  list_separator = b':';
  required = false;
  default_value = none;
  action = no_action;
}

abbrev jobs : CommandLineOption
jobs = record {
  short_name = b'j';
  long_name = codes "jobs";
  name = codes "jobs";
  description = codes "run at once";
  value_type = number;
  list = false;
  list_separator = b':';
  required = false;
  default_value = some (codes "1");
  action = no_action;
}

abbrev include : CommandLineOption
include = record {
  short_name = b'I';
  long_name = codes "include";
  name = codes "includes";
  description = codes "look here";
  value_type = string;
  list = true;
  list_separator = b':';
  required = false;
  default_value = none;
  action = no_action;
}

abbrev tool : CommandLine
tool = record {
  program_name = codes "cwhip";
  description = codes "compiler";
  version_number = codes "1";
  options = verbose ∷ jobs ∷ include ∷ [];
  positional = some (record {
    name = codes "input";
    description = codes "source";
    required = true;
    list = false;
  });
  values = [];
  provided = [];
  counts = [];
  positional_values = [];
  action = no_action;
}

abbrev shown : Attempt CommandLine → Attempt (List Bytes)
shown parsed = parsed >>= λ line.
    done (values line (codes "jobs") ++ (values line (codes "includes") ++ line.positional_values))

parse_values :
    shown (
      parse tool
        (codes "-vvj4" ∷ codes "--include=a:b" ∷ codes "main.cw" ∷ codes "-I" ∷ codes "c" ∷ []))
    ≡ done (codes "4" ∷ codes "a" ∷ codes "b" ∷ codes "c" ∷ codes "main.cw" ∷ [])
unfolding parse values equal
parse_values = refl

parse_missing : parse tool [] ≡ invalid (codes "required argument not found: input")
unfolding parse equal
parse_missing = refl

parse_no_number :
    parse tool (codes "--jobs=x" ∷ []) ≡ invalid (codes "option --jobs requires a number")
unfolding parse equal
parse_no_number = refl

abbrev with_options : List CommandLineOption → CommandLine
with_options options = record {
  program_name = codes "cwhip";
  description = codes "compiler";
  version_number = codes "1";
  options = options;
  positional = some (record {
    name = codes "input";
    description = codes "source";
    required = true;
    list = false;
  });
  values = [];
  provided = [];
  counts = [];
  positional_values = [];
  action = no_action;
}

verbose-IsRegistered : IsRegistered (verbose ∷ [])
verbose-IsRegistered = registered_snoc [] verbose registered_nil refl tt

add_option-IsRegistered_example :
    ((with_options (verbose ∷ jobs ∷ [])).options ≡ (verbose ∷ []) ++ (jobs ∷ []))
    × IsRegistered (verbose ∷ jobs ∷ [])
    × All (IsFound (verbose ∷ jobs ∷ [])) (verbose ∷ jobs ∷ [])
unfolding add_option equal
add_option-IsRegistered_example =
    add_option-IsRegistered (with_options (verbose ∷ [])) (with_options (verbose ∷ jobs ∷ [])) jobs
      refl verbose-IsRegistered

jobs-IsValued : IsValued tool jobs
unfolding find_long_option find_short_option equal
jobs-IsValued = record {
  valued = refl;
  named = refl;
  silent = refl;
  long = refl;
  short = refl;
  plain = (refl, (refl, (refl, (refl, tt))));
  no_dash = refl;
}

abbrev rest : List Bytes
rest = codes "main.cw" ∷ []

spellings_example :
    (parse_loop false false tool (codes "--jobs=4" ∷ rest) ≡ recorded tool jobs (codes "4") rest)
    × (parse_loop false false tool (codes "--jobs" ∷ codes "4" ∷ rest)
        ≡ recorded tool jobs (codes "4") rest)
    × (parse_loop false false tool (codes "-j" ∷ codes "4" ∷ rest)
        ≡ recorded tool jobs (codes "4") rest)
    × (parse_loop false false tool (codes "-j=4" ∷ rest) ≡ recorded tool jobs (codes "4") rest)
    × (parse_loop false false tool (codes "-j4" ∷ rest) ≡ recorded tool jobs (codes "4") rest)
spellings_example = spellings tool jobs b'4' [] rest jobs-IsValued refl

abbrev after_parse : CommandLine
after_parse = record {
  program_name = codes "cwhip";
  description = codes "compiler";
  version_number = codes "1";
  options = verbose ∷ jobs ∷ include ∷ [];
  positional = tool.positional;
  values = (codes "jobs", codes "4" ∷ []) ∷ [];
  provided = (codes "jobs", true) ∷ [];
  counts = [];
  positional_values = codes "main.cw" ∷ [];
  action = no_action;
}

parse-IsComplete_example :
    (after_parse.options ≡ tool.options)
    × (after_parse.positional ≡ tool.positional)
    × ((is_action after_parse.action ≡ true) ⊎ IsComplete after_parse)
unfolding parse equal
parse-IsComplete_example =
    parse-IsComplete tool after_parse (codes "-j4" ∷ codes "main.cw" ∷ []) refl

help_lines :
    help_text (new_command_line (codes "cwhip") (codes "compiler") (codes "1"))
    ≡ codes "Usage: cwhip [options]"
      ++ (10 ∷ 10 ∷ codes "compiler" ++ (10 ∷ 10 ∷ codes "Options:" ++ (10 ∷ [])))
unfolding help_text
help_lines = refl
