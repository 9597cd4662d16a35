-- ===== src/Packages/ArrayItems.antt =====
-- `parseStringArray` of src/PackageRegistry.cpp ends, and reads back an array that is written out.
use simp.Base.{
  ℕ, zero, suc, ◌≤◌, ◌<◌, Bool, true, false, not, ◌&&◌, ◌||◌, Option, none, some, List, [], ◌∷◌,
  ◌≡◌, ◌⊎◌, inl, inr, refl, arith, ◌==◌, if◌then◌else◌, Bool-cases, Bytes, length,
}
use simp.Base.Attempts.{Attempt, done, invalid}
use simp.Packages.Toml.{split_last, parse_quoted_string}
use simp.Packages.Arrays.{
  skip_whitespace, cons_item, scan_item, behind_item, next_round, item_round, scanned_round,
  array_round, array_loop, parse_string_array,
}

length-skip : (s : Bytes) → length (skip_whitespace s) ≤ length s
unfolding skip_whitespace
length-skip [] = omega arith
length-skip (c ∷ []) = omega arith
length-skip (c ∷ d ∷ s) = elim (Bool-cases (c == b' ' || c == 9)) [
  | inl e ↦ rw e (omega (arith, length-skip (d ∷ s)))
  | inr e ↦ rw e (omega arith)
]

-- Less is left than there was.
abbrev Less : ℕ → Option (Bytes × Bytes) → Type 0
Less n none = Unit
Less n (some (item, behind)) = length behind < n

cons_item-Less : (c n : ℕ) (o : Option (Bytes × Bytes)) → Less n o → Less (suc n) (cons_item c o)
cons_item-Less c n none h = tt
cons_item-Less c n (some (item, behind)) h = omega (arith, h)

scan_item-Less : (s : Bytes) (escaped : Bool) → Less (length s) (scan_item escaped s)
unfolding scan_item
scan_item-Less [] escaped = tt
scan_item-Less (c ∷ []) escaped = tt
scan_item-Less (c ∷ d ∷ s) escaped = elim (Bool-cases (not escaped && c == b'"')) [
  | inl e ↦ rw e (omega arith)
  | inr e ↦ rw e (
      cons_item-Less c (suc (length s)) (scan_item (not escaped && c == b'\\') (d ∷ s))
        (scan_item-Less (d ∷ s) (not escaped && c == b'\\')))
]

abbrev Goes : ℕ → Attempt (List Bytes) ⊎ (List Bytes × Bytes) → Type 0
Goes n (inl end) = Unit
Goes n (inr (items, rest)) = length rest < n

module _ (path : Bytes) (line_number : ℕ) where
  abbrev Kept : ℕ → Attempt (Bool × Bytes) → Type 0
  Kept n (invalid m) = Unit
  Kept n (done (end, rest)) = length rest ≤ n

  behind_item-Kept : (s : Bytes) → Kept (length s) (behind_item path line_number s)
  behind_item-Kept [] = tt
  behind_item-Kept (c ∷ s) = elim (Bool-cases (c == b']')) [
    | inl e ↦ rw e (omega arith)
    | inr e ↦ elim (Bool-cases (c == b',')) [
      | inl f ↦ rw (e, f) (omega (arith, length-skip s))
      | inr f ↦ rw (e, f) tt
    ]
  ]

  next_round-Goes :
      (n k : ℕ) (result : List Bytes) (text : Bytes) (r : Attempt (Bool × Bytes))
      → Kept n r
      → n < k
      → Goes k (next_round path line_number result text r)
  next_round-Goes n k result text (invalid m) h l = tt
  next_round-Goes n k result text (done (true, rest)) h l = tt
  next_round-Goes n k result text (done (false, rest)) h l = omega (arith, h, l)

  item_round-Goes :
      (k : ℕ) (result : List Bytes) (behind : Bytes) (t : Attempt Bytes)
      → length behind < k
      → Goes k (item_round path line_number result behind t)
  item_round-Goes k result behind (invalid m) h = tt
  item_round-Goes k result behind (done text) h =
      next_round-Goes (length (skip_whitespace behind)) k result text
        (behind_item path line_number (skip_whitespace behind))
        (behind_item-Kept (skip_whitespace behind)) (omega (arith, h, length-skip behind))

  scanned_round-Goes :
      (k : ℕ) (result : List Bytes) (o : Option (Bytes × Bytes))
      → Less k o
      → Goes k (scanned_round path line_number result o)
  scanned_round-Goes k result none h = tt
  scanned_round-Goes k result (some (item, behind)) h =
      item_round-Goes k result behind (parse_quoted_string path line_number (b'"' ∷ item)) h

  array_round-Goes :
      (value : Bytes) (result : List Bytes)
      → Goes (length value) (array_round path line_number value result)
  unfolding array_round
  array_round-Goes [] result = tt
  array_round-Goes (c ∷ []) result = tt
  array_round-Goes (c ∷ d ∷ value) result = elim (Bool-cases (c == b']')) [
    | inl e ↦ rw e tt
    | inr e ↦ elim (Bool-cases (c == b'"')) [
      | inl f ↦
          rw (e, f)
            (scanned_round-Goes (length (c ∷ d ∷ value)) result (scan_item false (d ∷ value))
              (weaken (scan_item false (d ∷ value)) (scan_item-Less (d ∷ value) false)))
      | inr f ↦ rw (e, f) tt
    ]
  ]
    where
      weaken :
          (o : Option (Bytes × Bytes))
          → Less (suc (length value)) o
          → Less (suc (suc (length value))) o
      weaken none h = tt
      weaken (some (item, behind)) h = omega (arith, h)

  array_loop-ends :
      (fuel : ℕ) (value : Bytes) (result : List Bytes)
      → length value < fuel
      → (end : Attempt (List Bytes)) × (array_loop path line_number fuel value result ≡ some end)
  unfolding array_loop
  array_loop-ends zero value result h = ground arith
  array_loop-ends (suc fuel) value result h =
      go (array_round path line_number value result) (array_round-Goes value result)
        λ items rest l. array_loop-ends fuel rest items (omega (arith, l, h))
    where
      go :
          (r : Attempt (List Bytes) ⊎ (List Bytes × Bytes))
          → Goes (length value) r
          → ((items : List Bytes) (rest : Bytes)
              → length rest < length value
              → (end : Attempt (List Bytes)) × (array_loop path line_number fuel rest items
                  ≡ some end))
          → (end : Attempt (List Bytes)) × ((elim r [
            | inl e ↦ some e
            | inr (items, rest) ↦ array_loop path line_number fuel rest items
          ])
              ≡ some end)
      go (inl end) g next = (end, refl)
      go (inr (items, rest)) g next = next items rest g

if-ends :
    {A : Type 0} (b : Bool) {o : Option A} (m : A)
    → (end : A) × (o ≡ some end)
    → (end : A) × ((if b then o else some m) ≡ some end)
if-ends true m h = h
if-ends false m h = (m, refl)

-- Any text is read to an end: an array, or a diagnostic.
pub parse_string_array-ends :
    (path : Bytes) (line_number : ℕ) (value : Bytes)
    → (end : Attempt (List Bytes)) × (parse_string_array path line_number value ≡ some end)
unfolding parse_string_array
parse_string_array-ends path line_number [] = (_, refl)
parse_string_array-ends path line_number (c ∷ []) = (_, refl)
parse_string_array-ends path line_number (c ∷ d ∷ value) =
    if-ends (c == b'[' && (split_last d value).1 == b']') _ (
      array_loop-ends path line_number (length (c ∷ d ∷ value)) (skip_whitespace (d ∷ value)) []
        (omega (arith, length-skip (d ∷ value))))
