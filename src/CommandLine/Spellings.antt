-- ===== src/CommandLine/Spellings.antt =====
-- The ways to write an option with its value for src/CommandLine.cpp.
use simp.Base.{
  ℕ, Bool, true, false, Option, none, some, List, [], ◌∷◌, ◌++◌, ◌≡◌, refl, ◌==◌, if◌then◌else◌,
  Bytes, equal, All,
}
use simp.Packages.Split.{cut-append, cut-none}
use simp.CommandLine.Options.{
  CommandLineValueType, switch, counter, string, number, CommandLineOption, CommandLine,
  takes_value, is_empty, find_long_option, find_short_option,
}
use simp.Base.Attempts.{Attempt, done, invalid, ◌>>=◌}
use simp.CommandLine.Values.{record_value}
use simp.CommandLine.Process.{
  Processed, process_option, process_kind, parse_long, parse_short, is_action, record_argument,
}
use simp.CommandLine.Parse.{parse_argument, parse_loop}

-- An option with a value, under both of its names.
pub record IsValued (line : CommandLine) (o : CommandLineOption) : Type 0 where
  pub valued : takes_value o.value_type ≡ true
  pub named : is_empty o.long_name ≡ false
  pub silent : is_action o.action ≡ false
  pub long : find_long_option line o.long_name ≡ some o
  pub short : find_short_option line o.short_name ≡ some o
  pub plain : All (λ c. (c == b'=') ≡ false) o.long_name
  pub no_dash : (o.short_name == b'-') ≡ false

-- Recording the value, and the arguments behind it.
abbrev pub recorded :
    CommandLine → CommandLineOption → Bytes → List Bytes → Attempt (CommandLine × Bool)
recorded line o value rest =
    record_value line o value true >>= λ after. parse_loop false false after rest

module _ (line : CommandLine) (o : CommandLineOption) (h : IsValued line o) (c : ℕ)
    (v : Bytes) where
  kind-attached :
      (kind : CommandLineValueType) (next : Option Bytes)
      → takes_value kind ≡ true
      → process_kind kind line o (some (c ∷ v)) next ≡ record_argument line o (c ∷ v) false
  kind-attached switch next e = cc
  kind-attached counter next e = cc
  kind-attached string next e = refl
  kind-attached number next e = refl

  kind-next :
      (kind : CommandLineValueType)
      → takes_value kind ≡ true
      → process_kind kind line o none (some (c ∷ v)) ≡ record_argument line o (c ∷ v) true
  kind-next switch e = cc
  kind-next counter e = cc
  kind-next string e = refl
  kind-next number e = refl

  option-attached :
      (next : Option Bytes)
      → process_option line o (some (c ∷ v)) next ≡ record_argument line o (c ∷ v) false
  unfolding process_option
  option-attached next = rw h.silent (kind-attached o.value_type next h.valued)

  option-next : process_option line o none (some (c ∷ v)) ≡ record_argument line o (c ∷ v) true
  unfolding process_option
  option-next = rw h.silent (kind-next o.value_type h.valued)

  loop-attached :
      (r : Attempt CommandLine) (rest : List Bytes)
      → ((r >>= λ l. done (record { line = l; stop = false; taken = false })) >>= λ (p : Processed).
          if p.stop then done (p.line, true) else parse_loop p.taken false p.line rest)
        ≡ (r >>= λ l. parse_loop false false l rest)
  loop-attached (done l) rest = refl
  loop-attached (invalid m) rest = refl

  loop-next :
      (r : Attempt CommandLine) (w : Bytes) (rest : List Bytes)
      → ((r >>= λ l. done (record { line = l; stop = false; taken = true })) >>= λ (p : Processed).
          if p.stop then done (p.line, true) else parse_loop p.taken false p.line (w ∷ rest))
        ≡ (r >>= λ l. parse_loop false false l rest)
  unfolding parse_loop
  loop-next (done l) w rest = refl
  loop-next (invalid m) w rest = refl

  equal-nil : (s t : Bytes) (x : ℕ) → equal (s ++ (x ∷ t)) [] ≡ false
  unfolding equal
  equal-nil [] t x = refl
  equal-nil (y ∷ s) t x = refl

  named-nil : (s : Bytes) → is_empty s ≡ false → equal s [] ≡ false
  unfolding equal
  named-nil [] e = cc
  named-nil (y ∷ s) e = refl

  long_attached :
      (rest : List Bytes)
      → parse_loop false false line ((b'-' ∷ b'-' ∷ o.long_name ++ (b'=' ∷ c ∷ v)) ∷ rest)
        ≡ recorded line o (c ∷ v) rest
  unfolding parse_loop parse_argument parse_long equal
  long_attached rest =
      rw (equal-nil o.long_name (c ∷ v) b'=', cut-append b'=' o.long_name (c ∷ v) h.plain, h.long)
        (rw (option-attached _) (loop-attached (record_value line o (c ∷ v) true) rest))

  long_next :
      (rest : List Bytes)
      → parse_loop false false line ((b'-' ∷ b'-' ∷ o.long_name) ∷ (c ∷ v) ∷ rest)
        ≡ recorded line o (c ∷ v) rest
  unfolding parse_loop parse_argument parse_long equal
  long_next rest =
      rw (named-nil o.long_name h.named, cut-none b'=' o.long_name h.plain, h.long)
        (rw option-next (loop-next (record_value line o (c ∷ v) true) (c ∷ v) rest))

  short_next :
      (rest : List Bytes)
      → parse_loop false false line ((b'-' ∷ o.short_name ∷ []) ∷ (c ∷ v) ∷ rest)
        ≡ recorded line o (c ∷ v) rest
  unfolding parse_loop parse_argument parse_short equal
  short_next rest =
      rw (h.no_dash, h.short, h.valued)
        (rw option-next (loop-next (record_value line o (c ∷ v) true) (c ∷ v) rest))

  short_equals :
      (rest : List Bytes)
      → parse_loop false false line ((b'-' ∷ o.short_name ∷ b'=' ∷ c ∷ v) ∷ rest)
        ≡ recorded line o (c ∷ v) rest
  unfolding parse_loop parse_argument parse_short equal
  short_equals rest =
      rw (h.no_dash, h.short, h.valued)
        (rw (option-attached _) (loop-attached (record_value line o (c ∷ v) true) rest))

  short_attached :
      (c == b'=') ≡ false
      → (rest : List Bytes)
      → parse_loop false false line ((b'-' ∷ o.short_name ∷ c ∷ v) ∷ rest)
        ≡ recorded line o (c ∷ v) rest
  unfolding parse_loop parse_argument parse_short equal
  short_attached e rest =
      rw (h.no_dash, h.short, h.valued, e)
        (rw (option-attached _) (loop-attached (record_value line o (c ∷ v) true) rest))

-- An option that takes a value is read alike as `--name=value`, `--name value`, `-n value`,
-- `-n=value` and, if the value does not begin with `=`, `-nvalue`: the value, which is not empty,
-- is recorded, and the parser goes on behind it.
pub spellings :
    (line : CommandLine) (o : CommandLineOption) (c : ℕ) (v : Bytes) (rest : List Bytes)
    → IsValued line o
    → (c == b'=') ≡ false
    → (parse_loop false false line ((b'-' ∷ b'-' ∷ o.long_name ++ (b'=' ∷ c ∷ v)) ∷ rest)
        ≡ recorded line o (c ∷ v) rest)
      × (parse_loop false false line ((b'-' ∷ b'-' ∷ o.long_name) ∷ (c ∷ v) ∷ rest)
          ≡ recorded line o (c ∷ v) rest)
      × (parse_loop false false line ((b'-' ∷ o.short_name ∷ []) ∷ (c ∷ v) ∷ rest)
          ≡ recorded line o (c ∷ v) rest)
      × (parse_loop false false line ((b'-' ∷ o.short_name ∷ b'=' ∷ c ∷ v) ∷ rest)
          ≡ recorded line o (c ∷ v) rest)
      × (parse_loop false false line ((b'-' ∷ o.short_name ∷ c ∷ v) ∷ rest)
          ≡ recorded line o (c ∷ v) rest)
spellings line o c v rest h e = (
  long_attached line o h c v rest,
  long_next line o h c v rest,
  short_next line o h c v rest,
  short_equals line o h c v rest,
  short_attached line o h c v e rest,
)
