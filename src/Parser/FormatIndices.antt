-- ===== src/Parser/FormatIndices.antt =====
-- The arguments that `validateFormatString` gives to placeholders.
use simp.Base.{
  ℕ, suc, ◌+◌, ◌≤◌, ◌<◌, ◌≡◌, refl, sym, Bool, true, false, not, ◌&&◌, ◌||◌, List, [], ◌∷◌, Bytes,
  equal, ◌==◌, ==_iff, length, All, Option, none, some, Option-cases, inl, inr, SourceLocation,
  if◌then◌else◌, arith,
}
use simp.Base.Tables.{case_option}
use simp.Ast.Expressions.{Attributes}
use simp.Parser.Verdict.{
  Verdict, accepted, refused, Yields, yields, refuses, Yields-if, Yields-bind,
}
use simp.Parser.Format.{no_template}
use simp.Parser.FormatArguments.{
  index_of, find_arguments, count_from, has_named, has_positional, named_argument, place_arguments,
  validate_format_string,
}
use simp.Parser.FormatBounds.{IsBounded, outside-Yields}

shifted-lt :
    (b : Bool) (later : Option ℕ) (n i : ℕ)
    → ((j : ℕ) → later ≡ some j → j < n)
    → (if b then some 0 else case_option later none λ j. some (suc j)) ≡ some i
    → i < suc n
shifted-lt true later n i hl h = ground arith
shifted-lt false none n i hl h = cc
shifted-lt false (some j) n i hl h = ground (arith, hl j refl)

index_of-lt :
    (name : Bytes) (names : List Bytes) (i : ℕ) → index_of name names ≡ some i → i < length names
unfolding index_of
index_of-lt name [] i h = cc
index_of-lt name (x ∷ xs) i h =
    shifted-lt (equal x name) (index_of name xs) (length xs) i (index_of-lt name xs) h

-- One index below `count` for each of `names`.
record IsPlaced (count : ℕ) (names : List Bytes) (indices : List ℕ) : Type 0 where
  one_each : length indices ≡ length names
  in_range : All (λ i. i < count) indices

find_arguments-Yields :
    (l : SourceLocation) (arguments names : List Bytes)
    → Yields (IsPlaced (length arguments) names) (find_arguments l arguments names)
unfolding find_arguments
find_arguments-Yields l arguments [] = yields (record { one_each = refl; in_range = tt })
find_arguments-Yields l arguments (name ∷ names) = elim (Option-cases (index_of name arguments)) [
  | inl e ↦ rw e refuses
  | inr (i, e) ↦ rw e (
      Yields-bind (find_arguments-Yields l arguments names) λ rest h. yields (record {
        one_each = omega (arith, h.one_each);
        in_range = (index_of-lt name arguments i e, h.in_range);
      }))
]

found-Yields :
    (l : SourceLocation) (arguments names : List Bytes) (count : ℕ)
    → length arguments ≡ count
    → Yields (IsPlaced count names) (find_arguments l arguments names)
found-Yields l arguments names count same = rw (sym same) (find_arguments-Yields l arguments names)

count_from-IsPlaced :
    (i : ℕ) (names : List Bytes) (count : ℕ)
    → i + length names ≤ count
    → IsPlaced count names (count_from i names)
count_from-IsPlaced i [] count h = record { one_each = refl; in_range = tt }
count_from-IsPlaced i (name ∷ names) count h =
    let rest = count_from-IsPlaced (suc i) names count (omega (arith, h)) in
    record { one_each = omega (arith, rest.one_each); in_range = (omega (arith, h), rest.in_range) }

named_argument-Yields :
    (b : Bool) (names : List Bytes) (ls : List SourceLocation) (d : SourceLocation)
    {P : List ℕ → Type 0}
    → Yields P (named_argument b names ls d)
named_argument-Yields b [] ls d = refuses
named_argument-Yields b (name ∷ names) [] d = refuses
named_argument-Yields true ([] ∷ names) (l ∷ ls) d = named_argument-Yields true names ls d
named_argument-Yields false ([] ∷ names) (l ∷ ls) d = named_argument-Yields false names ls d
named_argument-Yields true ((c ∷ name) ∷ names) (l ∷ ls) d = refuses
named_argument-Yields false ((c ∷ name) ∷ names) (l ∷ ls) d = refuses

equal_counts : (a b : ℕ) → (a == b) ≡ true → a ≡ b
equal_counts a b h = (==_iff a b).0 h

checked_counts : (a b : ℕ) (p : Bool) → (not (a == b) || p) ≡ false → a ≡ b
checked_counts a b p h = ground arith

any-Yields : {A : Type 0} (v : Verdict A) → Yields (λ _. Unit {0}) v
any-Yields (accepted a) = yields tt
any-Yields (refused l m) = refuses

place_arguments-Yields :
    (a : Attributes) (count : ℕ) (names : List Bytes)
    → Yields (IsPlaced count names) (place_arguments a count names)
unfolding place_arguments
place_arguments-Yields a count names =
    Yields-if (has_positional names && has_named names) (λ _. refuses)
      λ _.
        Yields-if
          (not (length a.argument_names == count)
            || not (length a.argument_name_locations == count))
          (λ _. refuses)
          λ e.
            let same = checked_counts (length a.argument_names) count _ e in
            Yields-if (has_named a.argument_names && has_positional a.argument_names) (λ _. refuses)
              λ _.
                Yields-if (has_named names)
                  (λ _.
                    Yields-if (has_positional a.argument_names) (λ _. refuses)
                      λ _.
                        Yields-bind (any-Yields _)
                          λ _ _. found-Yields a.location a.argument_names names count same)
                  λ _.
                    Yields-if (has_named a.argument_names)
                      (λ _. named_argument-Yields _ a.argument_names a.argument_name_locations _)
                      λ _.
                        Yields-if (length names == count)
                          (λ e.
                            yields (
                              count_from-IsPlaced 0 names count
                                (omega (arith, equal_counts _ _ e))))
                          λ _. refuses

-- What an accepted format string holds: one segment more than placeholders, and for each of them
-- a bounded specification and an argument that is there.
pub record IsValidated (count : ℕ) (a : Attributes) : Type 0 where
  pub segments_count : length a.format_segments ≡ length a.format_specs + 1
  pub indices_count : length a.format_argument_indices ≡ length a.format_specs
  pub in_range : All (λ i. i < count) a.format_argument_indices
  pub bounded : All IsBounded a.format_specs

-- A format string whose three vectors are empty at first is refused, or has after
-- `validateFormatString` one segment more than specifications, one index for each specification,
-- every index below the number of the arguments, and every width at most 1000000.
pub validate_format_string-IsValidated :
    (a : Attributes) (count : ℕ)
    → a.format_segments ≡ []
    → a.format_specs ≡ []
    → a.format_argument_indices ≡ []
    → Yields (IsValidated count) (validate_format_string a count)
unfolding validate_format_string
validate_format_string-IsValidated a count hs hp hi =
    Yields-bind
      (outside-Yields a.location a.value no_template []
        (record { segments_count = refl; names_count = refl; bounded = tt }))
      λ t ht. Yields-bind (place_arguments-Yields a count t.names) λ indices h. yields (record {
        segments_count = rw (hs, hp) (omega (arith, ht.segments_count));
        indices_count = rw (hi, hp) (omega (arith, h.one_each, ht.names_count));
        in_range = rw hi h.in_range;
        bounded = rw hp ht.bounded;
      })
