-- ===== src/CommandLine/Steps.antt =====
-- The parser of src/CommandLine.cpp keeps the registered options.
use simp.Base.{
  Bool, true, false, not, ◌&&◌, Option, none, some, List, [], ◌∷◌, ◌≡◌, inl, inr, refl, ◌==◌,
  Bool-cases, Bytes, codes, equal,
}
use simp.Packages.Split.{cut}
use simp.CommandLine.Options.{
  CommandLineValueType, switch, counter, string, number, CommandLineOption, CommandLine,
  find_short_option,
}
use simp.Base.Attempts.{Attempt}
use simp.CommandLine.Values.{record_value, record_single, record_positional}
use simp.CommandLine.Process.{
  Processed, process_option, process_kind, process_action, is_flag, flag_value, attached_value,
  is_action, record_argument, parse_long, parse_short, recorded_positional,
}
use simp.CommandLine.Parse.{head, parse_argument, parse_loop}
use simp.CommandLine.Attempts.{
  Returns, returns, refuses, Returns-bind, Returns-if, Returns-option, IsSame, IsSame-join, IsStep,
}

pub record_value-IsSame :
    (line : CommandLine) (option : CommandLineOption) (value : Bytes) (provided : Bool)
    → Returns (IsSame line) (record_value line option value provided)
unfolding record_value
record_value-IsSame line option value provided = Returns-if _ (refuses _) (returns _ (refl, refl))

record_positional-IsSame :
    (line : CommandLine) (value : Bytes) → Returns (IsSame line) (record_positional line value)
unfolding record_positional
record_positional-IsSame line value =
    Returns-option line.positional (refuses _)
      λ p. Returns-if p.list (returns _ (refl, refl)) (single line.positional_values)
  where
    single : (values : List Bytes) → Returns (IsSame line) (record_single line values value)
    single [] = returns _ (refl, refl)
    single (_ ∷ _) = refuses _

record_argument-IsStep :
    (line : CommandLine) (option : CommandLineOption) (argument : Bytes) (taken : Bool)
    → Returns (IsStep line) (record_argument line option argument taken)
record_argument-IsStep line option argument taken = Returns-if _ (refuses _) (
    Returns-bind (record_value-IsSame line option argument true)
      λ recorded same. returns _ (same, λ e. cc))

process_kind-IsStep :
    (kind : CommandLineValueType) (line : CommandLine) (option : CommandLineOption)
    (attached next : Option Bytes)
    → Returns (IsStep line) (process_kind kind line option attached next)
process_kind-IsStep switch line option (some _) next = refuses _
process_kind-IsStep switch line option none next = returns _ ((refl, refl), λ e. cc)
process_kind-IsStep counter line option (some _) next = refuses _
process_kind-IsStep counter line option none next = returns _ ((refl, refl), λ e. cc)
process_kind-IsStep string line option (some attached) next =
    record_argument-IsStep line option attached false
process_kind-IsStep string line option none none = refuses _
process_kind-IsStep string line option none (some argument) =
    record_argument-IsStep line option argument true
process_kind-IsStep number line option (some attached) next =
    record_argument-IsStep line option attached false
process_kind-IsStep number line option none none = refuses _
process_kind-IsStep number line option none (some argument) =
    record_argument-IsStep line option argument true

process_action-IsStep :
    (line : CommandLine) (option : CommandLineOption) (attached : Option Bytes)
    → is_action option.action ≡ true
    → Returns (IsStep line) (process_action line option attached)
process_action-IsStep line option (some _) e = refuses _
process_action-IsStep line option none e = returns _ ((refl, refl), λ _. e)

process_option-IsStep :
    (line : CommandLine) (option : CommandLineOption) (attached next : Option Bytes)
    → Returns (IsStep line) (process_option line option attached next)
unfolding process_option
process_option-IsStep line option attached next = elim (Bool-cases (is_action option.action)) [
  | inl e ↦ rw e (process_action-IsStep line option attached e)
  | inr e ↦ rw e (process_kind-IsStep option.value_type line option attached next)
]

parse_long-IsStep :
    (line : CommandLine) (text : Bytes) (next : Option Bytes)
    → Returns (IsStep line) (parse_long line text next)
unfolding parse_long
parse_long-IsStep line text next =
    Returns-option _ (refuses _) λ option. process_option-IsStep line option (cut b'=' text).1 next

parse_short-IsStep :
    (chars : Bytes) (line : CommandLine) (next : Option Bytes)
    → Returns (IsStep line) (parse_short line chars next)
unfolding parse_short
parse_short-IsStep [] line next = returns _ ((refl, refl), λ e. cc)
parse_short-IsStep (c ∷ chars) line next =
    Returns-option (find_short_option line c) (refuses _) λ option.
      Returns-if (is_flag option)
        (Returns-option (flag_value chars)
          (Returns-bind (process_option-IsStep line option none next) λ processed step.
            Returns-if processed.stop (returns processed step)
              (Returns-map processed step (parse_short-IsStep chars processed.line next)))
          (λ value. process_option-IsStep line option (some value) next))
        (process_option-IsStep line option (attached_value chars) next)
  where
    Returns-map :
        (processed : Processed)
        → IsStep line processed
        → {x : Attempt Processed} → Returns (IsStep processed.line) x
        → Returns (IsStep line) x
    Returns-map processed step (returns a (same, asked)) =
        returns a (IsSame-join line processed.line a.line step.0 same, asked)
    Returns-map processed step (refuses m) = refuses m

recorded_positional-IsStep :
    (line : CommandLine) (argument : Bytes)
    → Returns (IsStep line) (recorded_positional line argument)
recorded_positional-IsStep line argument =
    Returns-bind (record_positional-IsSame line argument) λ recorded same. returns _ (same, λ e. cc)

parse_argument-IsStep :
    (positional_only : Bool) (line : CommandLine) (argument : Bytes) (next : Option Bytes)
    → Returns (IsStep line) (parse_argument positional_only line argument next)
unfolding parse_argument
parse_argument-IsStep true line argument next = recorded_positional-IsStep line argument
parse_argument-IsStep false line [] next = recorded_positional-IsStep line []
parse_argument-IsStep false line (d ∷ []) next = recorded_positional-IsStep line (d ∷ [])
parse_argument-IsStep false line (d ∷ e ∷ text) next =
    Returns-if (d == b'-')
      (Returns-if (e == b'-') (parse_long-IsStep line text next)
        (parse_short-IsStep (e ∷ text) line next))
      (recorded_positional-IsStep line (d ∷ e ∷ text))

abbrev pub IsRun : CommandLine → CommandLine × Bool → Type 0
IsRun before r = IsSame before r.0 × (r.1 ≡ true → is_action r.0.action ≡ true)

pub IsRun-join :
    (a b : CommandLine)
    → IsSame a b
    → {x : Attempt (CommandLine × Bool)} → Returns (IsRun b) x
    → Returns (IsRun a) x
IsRun-join a b same (returns r (same', asked)) = returns r (IsSame-join a b r.0 same same', asked)
IsRun-join a b same (refuses m) = refuses m

pub parse_loop-IsRun :
    (arguments : List Bytes) (taken positional_only : Bool) (line : CommandLine)
    → Returns (IsRun line) (parse_loop taken positional_only line arguments)
unfolding parse_loop
parse_loop-IsRun [] taken positional_only line = returns _ ((refl, refl), λ e. cc)
parse_loop-IsRun (argument ∷ arguments) true positional_only line =
    parse_loop-IsRun arguments false positional_only line
parse_loop-IsRun (argument ∷ arguments) false positional_only line =
    Returns-if (not positional_only && equal argument (codes "--"))
      (parse_loop-IsRun arguments false true line)
      (Returns-bind (parse_argument-IsStep positional_only line argument (head arguments))
        λ processed step. elim (Bool-cases processed.stop) [
          | inl e ↦ rw e (returns _ (step.0, λ _. step.1 e))
          | inr e ↦ rw e (
              IsRun-join line processed.line step.0
                (parse_loop-IsRun arguments processed.taken positional_only processed.line))
        ])
