-- ===== src/CommandLine/Registration.antt =====
-- Registered options of src/CommandLine.cpp are told apart by their names.
use simp.Base.{
  Bool, true, false, not, ◌&&◌, ◌||◌, some, List, [], ◌∷◌, ◌++◌, ◌≡◌, ◌⊎◌, inl, inr, refl, sym, ap,
  subst, arith, ◌==◌, if◌then◌else◌, Bool-cases, Bytes, codes, equal_self, All, All-append,
  All-map-All,
}
use simp.CommandLine.Options.{
  CommandLineOption, CommandLine, is_empty, takes_value, find_if, has_long, has_short, has_name,
  is_found, find_long_option, find_short_option, add_option,
}
use simp.Base.Attempts.{Attempt, done, invalid}

-- An option that may be registered.
abbrev pub is_option : CommandLineOption → Bool
is_option o =
    not (is_empty o.name)
    && not (is_empty o.long_name && o.short_name == 0)
    && not (not (takes_value o.value_type) && o.list)
    && not (o.list && o.list_separator == 0)

-- Neither the names nor the long names nor the short names of two options are the same, but for
-- names that they do not have.
abbrev pub Apart : CommandLineOption → CommandLineOption → Type 0
Apart o p =
    (has_name o.name p ≡ false)
    × (has_long o.long_name p ≡ false)
    × ((not (o.short_name == 0) && has_short o.short_name p) ≡ false)

-- Each option may be registered and is apart from those before it.
pub data IsRegistered : List CommandLineOption → Type 0 where
  registered_nil : IsRegistered []
  registered_snoc :
      (options : List CommandLineOption) (o : CommandLineOption)
      → IsRegistered options
      → is_option o ≡ true
      → All (Apart o) options
      → IsRegistered (options ++ (o ∷ []))

find_if-none :
    (p : CommandLineOption → Bool) (options : List CommandLineOption)
    → is_found (find_if p options) ≡ false
    → All (λ o. p o ≡ false) options
unfolding find_if
find_if-none p [] h = tt
find_if-none p (o ∷ options) h = elim (Bool-cases (p o)) [
  | inl e ↦
      let no : true ≡ false =
        subst (λ b. is_found (if b then some o else find_if p options) ≡ false) e h in
      cc
  | inr e ↦ (
    e,
    find_if-none p options
        (subst (λ b. is_found (if b then some o else find_if p options) ≡ false) e h),
  )
]

shorts_apart :
    (o : CommandLineOption) (options : List CommandLineOption)
    → (not (o.short_name == 0) && is_found (find_if (has_short o.short_name) options)) ≡ false
    → All (λ p. (not (o.short_name == 0) && has_short o.short_name p) ≡ false) options
shorts_apart o options h = elim (Bool-cases (o.short_name == 0)) [
  | inl e ↦ all_of_none options (λ p. rw e refl)
  | inr e ↦
      let none : is_found (find_if (has_short o.short_name) options) ≡ false =
        subst (λ b. (not b && is_found (find_if (has_short o.short_name) options)) ≡ false) e h in
      All-map-All options (λ p f. rw e f) (find_if-none (has_short o.short_name) options none)
]
  where
    all_of_none :
        {P : CommandLineOption → Type 0} (os : List CommandLineOption)
        → ((p : CommandLineOption) → P p)
        → All P os
    all_of_none [] f = tt
    all_of_none (p ∷ os) f = (f p, all_of_none os f)

All-Apart :
    (o : CommandLineOption) (options : List CommandLineOption)
    → All (λ p. has_name o.name p ≡ false) options
    → All (λ p. has_long o.long_name p ≡ false) options
    → All (λ p. (not (o.short_name == 0) && has_short o.short_name p) ≡ false) options
    → All (Apart o) options
All-Apart o [] names longs shorts = tt
All-Apart o (p ∷ options) (n, names) (l, longs) (s, shorts) =
    ((n, l, s), All-Apart o options names longs shorts)

abbrev extended : CommandLine → CommandLineOption → CommandLine
extended line option = record {
  program_name = line.program_name;
  description = line.description;
  version_number = line.version_number;
  options = line.options ++ (option ∷ []);
  positional = line.positional;
  values = line.values;
  provided = line.provided;
  counts = line.counts;
  positional_values = line.positional_values;
  action = line.action;
}

if-done :
    {A : Type 0} (b : Bool) (m : Bytes) (x : Attempt A) (a : A)
    → (if b then invalid m else x) ≡ done a
    → (b ≡ false) × (x ≡ done a)
if-done true m x a h = cc
if-done false m x a h = (refl, h)

or-false : (a b : Bool) → (a || b) ≡ false → (a ≡ false) × (b ≡ false)
or-false true b h = cc
or-false false b h = (refl, h)

-- The first one found among options that are apart.
find_if-apart :
    (p : CommandLineOption → Bool) (o : CommandLineOption) (options : List CommandLineOption)
    → All (λ q. p q ≡ false) options
    → p o ≡ true
    → find_if p (options ++ (o ∷ [])) ≡ some o
unfolding find_if
find_if-apart p o [] h e = rw e refl
find_if-apart p o (q ∷ options) (hq, h) e = rw hq (find_if-apart p o options h e)

find_if-append :
    (p : CommandLineOption → Bool) (o q : CommandLineOption) (options : List CommandLineOption)
    → find_if p options ≡ some o
    → find_if p (options ++ (q ∷ [])) ≡ some o
unfolding find_if
find_if-append p o q [] h = cc
find_if-append p o q (r ∷ options) h = elim (Bool-cases (p r)) [
  | inl e ↦ rw e (subst (λ b. (if b then some r else find_if p options) ≡ some o) e h)
  | inr e ↦ rw e (
      find_if-append p o q options
        (subst (λ b. (if b then some r else find_if p options) ≡ some o) e h))
]

-- What a lookup finds under the names that an option has.
abbrev pub IsFound : List CommandLineOption → CommandLineOption → Type 0
IsFound options o =
    (find_if (has_name o.name) options ≡ some o)
    × ((is_empty o.long_name ≡ true) ⊎ (find_if (has_long o.long_name) options ≡ some o))
    × (((o.short_name == 0) ≡ true) ⊎ (find_if (has_short o.short_name) options ≡ some o))

pub IsRegistered-IsFound :
    {options : List CommandLineOption} → IsRegistered options → All (IsFound options) options
IsRegistered-IsFound registered_nil = tt
IsRegistered-IsFound (registered_snoc options o r valid apart) =
    All-append (IsFound (options ++ (o ∷ []))) options (o ∷ [])
      (All-map-All options (λ p h. still p h) (IsRegistered-IsFound r))
      (
        (
          find_if-apart (has_name o.name) o options (All-map-All options (λ p a. a.0) apart)
              (equal_self o.name),
          has_or_found (is_empty o.long_name) (λ e.
              find_if-apart (has_long o.long_name) o options
                (All-map-All options (λ p a. a.1) apart) (rw (e, equal_self o.long_name) refl)),
          has_or_found (o.short_name == 0) (λ e.
              find_if-apart (has_short o.short_name) o options
                (All-map-All options
                  (λ p a. subst (λ b. (not b && has_short o.short_name p) ≡ false) e a.2) apart)
                (ground arith)),
        ),
        tt,
      )
  where
    has_or_found : {P : Type 0} (b : Bool) → (b ≡ false → P) → (b ≡ true) ⊎ P
    has_or_found true f = inl refl
    has_or_found false f = inr (f refl)

    stays :
        {P : Type 0} (p : CommandLineOption) (test : CommandLineOption → Bool)
        → P ⊎ (find_if test options ≡ some p)
        → P ⊎ (find_if test (options ++ (o ∷ [])) ≡ some p)
    stays p test (inl h) = inl h
    stays p test (inr h) = inr (find_if-append test p o options h)

    still : (p : CommandLineOption) → IsFound options p → IsFound (options ++ (o ∷ [])) p
    still p (n, l, s) = (
      find_if-append (has_name p.name) p o options n,
      stays p (has_long p.long_name) l,
      stays p (has_short p.short_name) s,
    )

-- An option that `add_option` accepts joins the registered ones at the end; they stay valid and
-- apart, and each of them is what a lookup under its name, its long name or its short name finds,
-- if it has such a name.
pub add_option-IsRegistered :
    (line after : CommandLine) (o : CommandLineOption)
    → add_option line o ≡ done after
    → IsRegistered line.options
    → (after.options ≡ line.options ++ (o ∷ []))
      × IsRegistered after.options
      × All (IsFound after.options) after.options
unfolding add_option find_long_option find_short_option
add_option-IsRegistered line after o h r =
    let (h1, k1) =
      if-done (is_empty o.name || (is_empty o.long_name && o.short_name == 0)) _ _ after h in
    let (h2, k2) = if-done (not (takes_value o.value_type) && o.list) _ _ after k1 in
    let (h3, k3) = if-done (o.list && o.list_separator == 0) _ _ after k2 in
    let (h4, k4) =
      if-done
        (is_found (find_if (has_name o.name) line.options)
          || is_found (find_long_option line o.long_name)
          || (not (o.short_name == 0) && is_found (find_short_option line o.short_name)))
        (codes "duplicate command-line option") (done (extended line o)) after k3 in
    let (h5, shorts) =
      or-false
        (is_found (find_if (has_name o.name) line.options)
          || is_found (find_long_option line o.long_name))
        (not (o.short_name == 0) && is_found (find_short_option line o.short_name)) h4 in
    let (names, longs) =
      or-false (is_found (find_if (has_name o.name) line.options))
        (is_found (find_long_option line o.long_name)) h5 in
    let (h6, h7) = or-false (is_empty o.name) (is_empty o.long_name && o.short_name == 0) h1 in
    let options : line.options ++ (o ∷ []) ≡ after.options = ap options_of k4 in
    let registered = subst IsRegistered options (
      registered_snoc line.options o r (rw (h6, h7, h2, h3) refl) (
        All-Apart o line.options (find_if-none (has_name o.name) line.options names)
          (find_if-none (has_long o.long_name) line.options longs)
          (shorts_apart o line.options shorts))) in
    (sym options, registered, IsRegistered-IsFound registered)
  where
    options_of : Attempt CommandLine → List CommandLineOption
    options_of (done l) = l.options
    options_of (invalid _) = []
