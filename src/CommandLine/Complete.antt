-- ===== src/CommandLine/Complete.antt =====
-- What src/CommandLine.cpp requires of the arguments.
use simp.Base.{
  Bool, true, false, not, ◌&&◌, ◌||◌, Option, none, some, List, [], ◌∷◌, ◌≡◌, ◌⊎◌, inl, inr, refl,
  subst, ◌∙◌, Bool-cases, Bytes, All,
}
use simp.CommandLine.Options.{CommandLineOption, CommandLinePositional, CommandLine}
use simp.Base.Tables.{case_option}
use simp.Base.Attempts.{Attempt, done}
use simp.CommandLine.Process.{is_action}
use simp.CommandLine.Parse.{
  check_given, record_defaults, was_provided, check_required, check_positional, cleared, checked,
  parse,
}
use simp.CommandLine.Attempts.{
  Returns, returns, refuses, Returns-bind, Returns-done, Returns-option, IsSame, IsSame-join,
}
use simp.CommandLine.Steps.{record_value-IsSame, parse_loop-IsRun, IsRun, IsRun-join}

record_defaults-IsSame :
    (options : List CommandLineOption) (line : CommandLine)
    → Returns (IsSame line) (record_defaults line options)
unfolding record_defaults
record_defaults-IsSame [] line = returns _ (refl, refl)
record_defaults-IsSame (option ∷ options) line =
    Returns-option option.default_value (record_defaults-IsSame options line) λ value.
      Returns-bind (record_value-IsSame line option value false)
        λ recorded same. go recorded same (record_defaults-IsSame options recorded)
  where
    go :
        (recorded : CommandLine)
        → IsSame line recorded
        → {x : Attempt CommandLine} → Returns (IsSame recorded) x
        → Returns (IsSame line) x
    go recorded same (returns a h) = returns a (IsSame-join line recorded a same h)
    go recorded same (refuses m) = refuses m

-- An option that is not required or is provided.
abbrev pub is_satisfied : CommandLine → CommandLineOption → Bool
is_satisfied line option = not option.required || was_provided line option.name

-- A positional argument that is not required or is given.
abbrev pub IsGiven : Option CommandLinePositional → List Bytes → Type 0
IsGiven none given = Unit
IsGiven (some positional) [] = positional.required ≡ false
IsGiven (some positional) (_ ∷ _) = Unit

check_required-All :
    (line : CommandLine) (options : List CommandLineOption)
    → Returns
        (λ after. (line ≡ after) × All (λ o. is_satisfied line o ≡ true) options)
        (check_required line options)
unfolding check_required
check_required-All line [] = returns line (refl, tt)
check_required-All line (option ∷ options) =
    elim (Bool-cases (option.required && not (was_provided line option.name))) [
      | inl e ↦ rw e (refuses _)
      | inr e ↦ rw e (
          go (satisfied option.required (was_provided line option.name) e)
            (check_required-All line options))
    ]
  where
    satisfied : (r p : Bool) → (r && not p) ≡ false → (not r || p) ≡ true
    satisfied true true e = refl
    satisfied true false e = cc
    satisfied false p e = refl

    go :
        is_satisfied line option ≡ true
        → {x : Attempt CommandLine}
        → Returns (λ after. (line ≡ after) × All (λ o. is_satisfied line o ≡ true) options) x
        → Returns
            (λ after. (line ≡ after) × All (λ o. is_satisfied line o ≡ true) (option ∷ options))
            x
    go h (returns a (e, all)) = returns a (e, (h, all))
    go h (refuses m) = refuses m

check_given-IsGiven :
    (line : CommandLine) (positional : CommandLinePositional) (given : List Bytes)
    → Returns
        (λ after. (line ≡ after) × IsGiven (some positional) given)
        (check_given line positional given)
check_given-IsGiven line positional [] = elim (Bool-cases positional.required) [
  | inl e ↦ rw e (refuses _)
  | inr e ↦ rw e (returns line (refl, refl))
]
check_given-IsGiven line positional (_ ∷ _) = returns line (refl, tt)

-- What an attempt needs for a run without `--help` or `--version`.
abbrev pub IsComplete : CommandLine → Type 0
IsComplete after =
    All (λ o. is_satisfied after o ≡ true) after.options
    × IsGiven after.positional after.positional_values

check_positional-IsGiven :
    (line : CommandLine)
    → Returns
        (λ after. (line ≡ after) × IsGiven line.positional line.positional_values)
        (check_positional line)
unfolding check_positional
check_positional-IsGiven line = go line.positional
  where
    go :
        (positional : Option CommandLinePositional)
        → Returns
            (λ after. (line ≡ after) × IsGiven positional line.positional_values)
            (case_option positional (done line) λ p. check_given line p line.positional_values)
    go none = returns line (refl, tt)
    go (some p) = check_given-IsGiven line p line.positional_values

abbrev IsEnd : CommandLine → CommandLine → Type 0
IsEnd line after = IsSame line after × ((is_action after.action ≡ true) ⊎ IsComplete after)

checked-IsEnd :
    (line : CommandLine) (r : CommandLine × Bool) → IsRun line r → Returns (IsEnd line) (checked r)
checked-IsEnd line (l, true) (same, asked) = returns l (same, inl (asked refl))
checked-IsEnd line (l, false) (same, asked) =
    Returns-bind (check_required-All l l.options)
      λ a (e, all). Returns-at a e all (check_positional-IsGiven a)
  where
    Returns-at :
        (a : CommandLine)
        → l ≡ a
        → All (λ o. is_satisfied l o ≡ true) l.options
        → {x : Attempt CommandLine}
        → Returns (λ after. (a ≡ after) × IsGiven a.positional a.positional_values) x
        → Returns (IsEnd line) x
    Returns-at a e all (returns b (e', given)) = returns b (
      subst (λ c. IsSame line c) (e ∙ e') same,
      inr (
        subst (λ c. All (λ o. is_satisfied c o ≡ true) c.options) (e ∙ e') all,
        subst (λ c. IsGiven c.positional c.positional_values) e' given,
      ),
    )
    Returns-at a e all (refuses m) = refuses m

parse-IsEnd :
    (line : CommandLine) (arguments : List Bytes) → Returns (IsEnd line) (parse line arguments)
unfolding parse
parse-IsEnd line arguments =
    Returns-bind
      (Returns-bind (record_defaults-IsSame line.options (cleared line)) λ started same.
        IsRun-join line started same (parse_loop-IsRun arguments false false started))
      λ r run. checked-IsEnd line r run

-- What `parse` returns has the options and the positional argument that were registered, and
-- unless help or the version is asked for, every required option is provided and the positional
-- argument is given if it is required.
pub parse-IsComplete :
    (line after : CommandLine) (arguments : List Bytes)
    → parse line arguments ≡ done after
    → (after.options ≡ line.options)
      × (after.positional ≡ line.positional)
      × ((is_action after.action ≡ true) ⊎ IsComplete after)
parse-IsComplete line after arguments e =
    let (same, end) = Returns-done (parse-IsEnd line arguments) e in (same.0, same.1, end)
