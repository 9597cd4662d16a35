-- ===== src/Packages/Arrays.antt =====
-- `parseStringArray` of src/PackageRegistry.cpp.
use simp.Base.{
  ℕ, zero, suc, Bool, true, false, not, ◌&&◌, ◌||◌, Option, none, some, List, [], ◌∷◌, ◌++◌, ◌==◌,
  if◌then◌else◌, Bytes, codes, length, ◌⊎◌, inl, inr,
}
use simp.Base.Attempts.{Attempt, done, invalid}
use simp.Packages.Toml.{failure, split_last, parse_quoted_string}

-- A blank is skipped unless it is the last byte.
unfoldable pub skip_whitespace : Bytes → Bytes
skip_whitespace [] = []
skip_whitespace (c ∷ []) = c ∷ []
skip_whitespace (c ∷ d ∷ value) =
    let rest = skip_whitespace (d ∷ value) in if c == b' ' || c == 9 then rest else c ∷ d ∷ value

abbrev pub cons_item : ℕ → Option (Bytes × Bytes) → Option (Bytes × Bytes)
cons_item c none = none
cons_item c (some (item, behind)) = some (c ∷ item, behind)

-- A string of an array behind its opening quote, up to and with the closing one, which is not the
-- last byte of the array; and what is behind it.
unfoldable pub scan_item : Bool → Bytes → Option (Bytes × Bytes)
scan_item escaped [] = none
scan_item escaped (c ∷ []) = none
scan_item escaped (c ∷ d ∷ value) =
    let rest = scan_item (not escaped && c == b'\\') (d ∷ value) in
    if not escaped && c == b'"' then some (c ∷ [], d ∷ value) else cons_item c rest

abbrev pub is_bracket : Bytes → Bool
is_bracket [] = false
is_bracket (c ∷ _) = c == b']'

module _ (path : Bytes) (line_number : ℕ) where
  abbrev fails : {A : Type 0} → Bytes → Attempt A
  fails text = invalid (failure path line_number text)

  -- The closing bracket alone is left.
  abbrev pub finished : Bytes → List Bytes → Attempt (List Bytes)
  finished (c ∷ []) result =
      if c == b']' then done result else fails (codes "unexpected content after string array")
  finished _ result = fails (codes "unexpected content after string array")

  -- Behind an item: whether the array ends, and what is left.
  abbrev pub behind_item : Bytes → Attempt (Bool × Bytes)
  behind_item [] = fails (codes "expected ',' or ']' after array value")
  behind_item (c ∷ value) =
      if c == b']'
      then done (true, c ∷ value)
      else if not (c == b',')
      then fails (codes "expected ',' or ']' after array value")
      else done (is_bracket (skip_whitespace value), skip_whitespace value)

  -- One round of the loop: the result, or the items so far with what is left.
  abbrev pub next_round :
      List Bytes → Bytes → Attempt (Bool × Bytes) → Attempt (List Bytes) ⊎ (List Bytes × Bytes)
  next_round result text (invalid m) = inl (invalid m)
  next_round result text (done (true, rest)) = inl (finished rest (result ++ (text ∷ [])))
  next_round result text (done (false, rest)) = inr (result ++ (text ∷ []), rest)

  abbrev pub item_round :
      List Bytes → Bytes → Attempt Bytes → Attempt (List Bytes) ⊎ (List Bytes × Bytes)
  item_round result behind (invalid m) = inl (invalid m)
  item_round result behind (done text) =
      next_round result text (behind_item (skip_whitespace behind))

  abbrev pub scanned_round :
      List Bytes → Option (Bytes × Bytes) → Attempt (List Bytes) ⊎ (List Bytes × Bytes)
  scanned_round result none = inl (fails (codes "unterminated string in array"))
  scanned_round result (some (item, behind)) =
      item_round result behind (parse_quoted_string path line_number (b'"' ∷ item))

  unfoldable pub array_round : Bytes → List Bytes → Attempt (List Bytes) ⊎ (List Bytes × Bytes)
  unfolding scan_item skip_whitespace parse_quoted_string
  array_round (c ∷ d ∷ value) result =
      if c == b']'
      then inl (finished (c ∷ d ∷ value) result)
      else if not (c == b'"')
      then inl (fails (codes "expected a quoted string in array"))
      else scanned_round result (scan_item false (d ∷ value))
  array_round value result = inl (finished value result)

  -- `none` if the fuel is used up.
  unfoldable pub array_loop : ℕ → Bytes → List Bytes → Option (Attempt (List Bytes))
  unfolding array_round
  array_loop zero value result = none
  array_loop (suc fuel) value result = elim (array_round value result) [
    | inl end ↦ some end
    | inr (items, rest) ↦ array_loop fuel rest items
  ]

  abbrev no_array : Option (Attempt (List Bytes))
  no_array = some (fails (codes "expected an array of quoted strings"))

  unfoldable pub parse_string_array : Bytes → Option (Attempt (List Bytes))
  unfolding array_loop skip_whitespace split_last
  parse_string_array [] = no_array
  parse_string_array (c ∷ []) = no_array
  parse_string_array (c ∷ d ∷ value) =
      let (_, last) = split_last d value in
      if c == b'[' && last == b']'
      then array_loop (length (c ∷ d ∷ value)) (skip_whitespace (d ∷ value)) []
      else no_array
