-- ===== src/CommandLine/Help.antt =====
-- The readers and the texts of src/CommandLine.cpp.
use simp.Base.{
  ℕ, Bool, true, false, not, ◌&&◌, ◌||◌, Option, none, some, List, [], ◌∷◌, ◌++◌, ◌==◌,
  if◌then◌else◌, Bytes, codes, equal,
}
use simp.CommandLine.Options.{
  CommandLineAction, no_action, CommandLineOption, CommandLinePositional, CommandLine,
  CommandLineValueType, counter, is_empty, takes_value,
}
use simp.Base.Tables.{find}
use simp.CommandLine.Parse.{was_provided}

unfoldable pub switch_value : CommandLine → Bytes → Bool
unfolding was_provided
switch_value line name = was_provided line name

unfoldable pub count : CommandLine → Bytes → ℕ
unfolding find
count line name = elim (find name line.counts) [ none ↦ 0 | some n ↦ n ]

abbrev last : List Bytes → Option Bytes
last [] = none
last (item ∷ []) = some item
last (_ ∷ item ∷ items) = last (item ∷ items)

unfoldable pub value : CommandLine → Bytes → Option Bytes
unfolding find
value line name = elim (find name line.values) [ none ↦ none | some items ↦ last items ]

unfoldable pub values : CommandLine → Bytes → List Bytes
unfolding find
values line name = elim (find name line.values) [ none ↦ [] | some items ↦ items ]

abbrev any_equal : Bytes → List Bytes → Bool
any_equal item [] = false
any_equal item (i ∷ items) = equal i item || any_equal item items

unfoldable pub contains : CommandLine → Bytes → Bytes → Bool
unfolding values
contains line name item = any_equal item (values line name)

abbrev when : Bool → Bytes → Bytes
when condition text = if condition then text else []

abbrev newline : Bytes
newline = 10 ∷ []

abbrev tab : Bytes
tab = 9 ∷ []

abbrev default_text : Option Bytes → Bytes
default_text none = []
default_text (some text) = codes " (default: " ++ (text ++ codes ")")

abbrev is_counter : CommandLineValueType → Bool
is_counter counter = true
is_counter _ = false

abbrev is_none : CommandLineAction → Bool
is_none no_action = true
is_none _ = false

-- One line of the options.
unfoldable option_line : CommandLineOption → Bytes
option_line option =
    let short = not (option.short_name == 0) in
    codes "  "
    ++ ((if short then b'-' ∷ option.short_name ∷ [] else codes "  ")
        ++ (when (not (is_empty option.long_name))
              ((if short then codes ", " else codes "  ") ++ (codes "--" ++ option.long_name))
            ++ (when (takes_value option.value_type && is_none option.action)
                  (if option.list then codes " <value>..." else codes " <value>")
                ++ (tab
                    ++ (option.description
                        ++ (when (is_counter option.value_type) (codes " (repeatable)")
                            ++ (default_text option.default_value
                                ++ (when option.required (codes " (required)") ++ newline))))))))

unfoldable option_lines : List CommandLineOption → Bytes
unfolding option_line
option_lines [] = []
option_lines (option ∷ options) = option_line option ++ option_lines options

unfoldable positional_usage : Option CommandLinePositional → Bytes
positional_usage none = []
positional_usage (some positional) =
    (if positional.required then codes " <" else codes " [")
    ++ (positional.name
        ++ (when positional.list (codes "...")
            ++ (if positional.required then codes ">" else codes "]")))

unfoldable positional_line : Option CommandLinePositional → Bytes
positional_line none = []
positional_line (some positional) =
    codes "  "
    ++ (positional.name
        ++ (tab
            ++ (positional.description
                ++ (when positional.required (codes " (required)") ++ newline))))

unfoldable pub help_text : CommandLine → Bytes
unfolding option_lines positional_usage positional_line
help_text line =
    codes "Usage: "
    ++ (line.program_name
        ++ (codes " [options]"
            ++ (positional_usage line.positional
                ++ (newline
                    ++ newline
                    ++ (line.description
                        ++ (newline
                            ++ newline
                            ++ (codes "Options:"
                                ++ (newline
                                    ++ (option_lines line.options
                                        ++ positional_line line.positional)))))))))

unfoldable pub version_text : CommandLine → Bytes
version_text line = line.program_name ++ (codes ": v" ++ (line.version_number ++ newline))
