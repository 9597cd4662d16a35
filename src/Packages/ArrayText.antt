-- ===== src/Packages/ArrayText.antt =====
-- `parseStringArray` of src/PackageRegistry.cpp reads back an array that is written out.
use simp.Base.{
  ℕ, zero, suc, ◌<◌, false, Option, some, List, [], ◌∷◌, ◌++◌, ◌≡◌, inl, inr, refl, sym, ap, ◌∙◌,
  arith, ◌==◌, Bytes, length, length-append, append_assoc, All,
}
use simp.Base.Attempts.{done}
use simp.Packages.Toml.{split_last}
use simp.Packages.Quoting.{
  escape, escape_letter, put_escaped, quoted, IsQuotable, Written, plain, escaped,
  escape_letter-Written, put_escaped-append, parse_quoted_string-alone, split_last-append,
}
use simp.Packages.Arrays.{
  skip_whitespace, cons_item, scan_item, item_round, scanned_round, array_round, array_loop,
  parse_string_array,
}

scan_item-plain :
    (c : ℕ) (t : Bytes)
    → 0 < length t
    → (c == b'\\') ≡ false
    → (c == b'"') ≡ false
    → scan_item false (c ∷ t) ≡ cons_item c (scan_item false t)
unfolding scan_item
scan_item-plain c [] h e0 e1 = ground arith
scan_item-plain c (d ∷ t) h e0 e1 = rw (e1, e0) refl

scan_item-escaped :
    (l : ℕ) (t : Bytes)
    → 0 < length t
    → scan_item false (b'\\' ∷ l ∷ t) ≡ cons_item b'\\' (cons_item l (scan_item false t))
unfolding scan_item
scan_item-escaped l [] h = ground arith
scan_item-escaped l (d ∷ t) h = refl

scan_item-put :
    (c : ℕ) {letter : Option ℕ} (t item behind : Bytes)
    → Written c letter
    → 0 < length t
    → scan_item false t ≡ some (item, behind)
    → scan_item false (put_escaped c letter t) ≡ some (put_escaped c letter item, behind)
scan_item-put c t item behind (plain e0 e1 e2) h e =
    scan_item-plain c t h e0 e1 ∙ ap (cons_item c) e
scan_item-put c t item behind (escaped letter _) h e =
    scan_item-escaped letter t h ∙ ap (λ o. cons_item b'\\' (cons_item letter o)) e

-- An item ends at its closing quote.
scan_item-escape :
    (s : Bytes) (x : ℕ) (rest : Bytes)
    → All IsQuotable s
    → scan_item false (escape s ++ (b'"' ∷ x ∷ rest)) ≡ some (escape s ++ (b'"' ∷ []), x ∷ rest)
unfolding scan_item
scan_item-escape [] x rest h = refl
scan_item-escape (c ∷ s) x rest (hc, h) =
    ap (scan_item false) (put_escaped-append c (escape_letter c) (escape s) (b'"' ∷ x ∷ rest))
    ∙ scan_item-put c (escape s ++ (b'"' ∷ x ∷ rest)) (escape s ++ (b'"' ∷ [])) (x ∷ rest)
        (escape_letter-Written c hc) (omega (arith, length-append (escape s) (b'"' ∷ x ∷ rest)))
        (scan_item-escape s x rest h)
    ∙ ap (λ t. some (t, x ∷ rest))
        (sym (put_escaped-append c (escape_letter c) (escape s) (b'"' ∷ [])))

-- What is written behind an item.
abbrev items_tail : List Bytes → Bytes
items_tail [] = b']' ∷ []
items_tail (s ∷ items) = b',' ∷ b' ' ∷ quoted s ++ items_tail items

-- An array as it is written, on one line.
abbrev pub array_text : List Bytes → Bytes
array_text [] = b'[' ∷ b']' ∷ []
array_text (s ∷ items) = b'[' ∷ quoted s ++ items_tail items

items_tail-last : (items : List Bytes) → (front : Bytes) × (items_tail items ≡ front ++ (b']' ∷ []))
items_tail-last [] = ([], refl)
items_tail-last (s ∷ items) =
    let (front, e) = items_tail-last items in
    (
      b',' ∷ b' ' ∷ quoted s ++ front,
      ap (λ t. b',' ∷ b' ' ∷ quoted s ++ t) e
          ∙ ap (λ t. b',' ∷ b' ' ∷ t) (sym (append_assoc (quoted s) front (b']' ∷ []))),
    )

length-items_tail : (items : List Bytes) → length items < length (items_tail items)
length-items_tail [] = omega arith
length-items_tail (s ∷ items) =
    omega (arith, length-append (quoted s) (items_tail items), length-items_tail items)

skip-quote : (t : Bytes) → skip_whitespace (b'"' ∷ t) ≡ b'"' ∷ t
unfolding skip_whitespace
skip-quote [] = refl
skip-quote (d ∷ t) = refl

module _ (path : Bytes) (n : ℕ) where
  array_round-open :
      (t : Bytes) (result : List Bytes)
      → 0 < length t
      → array_round path n (b'"' ∷ t) result ≡ scanned_round path n result (scan_item false t)
  unfolding array_round
  array_round-open [] result h = ground arith
  array_round-open (d ∷ t) result h = refl

  -- A round reads an item up to what follows it.
  array_round-quoted :
      (s : Bytes) (x : ℕ) (rest : Bytes) (result : List Bytes)
      → All IsQuotable s
      → array_round path n (quoted s ++ (x ∷ rest)) result
        ≡ item_round path n result (x ∷ rest) (done s)
  array_round-quoted s x rest result h =
      ap (λ t. array_round path n (b'"' ∷ t) result)
        (append_assoc (escape s) (b'"' ∷ []) (x ∷ rest))
      ∙ array_round-open (escape s ++ (b'"' ∷ x ∷ rest)) result
          (omega (arith, length-append (escape s) (b'"' ∷ x ∷ rest)))
      ∙ ap (scanned_round path n result) (scan_item-escape s x rest h)
      ∙ ap (item_round path n result (x ∷ rest)) (parse_quoted_string-alone path n s h)

  last_round :
      (s : Bytes) (result : List Bytes)
      → All IsQuotable s
      → array_round path n (quoted s ++ (b']' ∷ [])) result ≡ inl (done (result ++ (s ∷ [])))
  unfolding skip_whitespace
  last_round s result h = array_round-quoted s b']' [] result h ∙ refl

  -- Between two items there are a comma and a blank.
  middle_round :
      (s t : Bytes) (rest : Bytes) (result : List Bytes)
      → All IsQuotable s
      → array_round path n (quoted s ++ (b',' ∷ b' ' ∷ quoted t ++ rest)) result
        ≡ inr (result ++ (s ∷ []), quoted t ++ rest)
  unfolding skip_whitespace
  middle_round s t rest result h =
      array_round-quoted s b',' (b' ' ∷ quoted t ++ rest) result h
      ∙ rw (skip-quote ((escape t ++ (b'"' ∷ [])) ++ rest)) refl

  array_loop-items :
      (items : List Bytes) (s : Bytes) (result : List Bytes) (fuel : ℕ)
      → All IsQuotable s
      → All (All IsQuotable) items
      → length items < fuel
      → array_loop path n fuel (quoted s ++ items_tail items) result
        ≡ some (done (result ++ (s ∷ items)))
  unfolding array_loop
  array_loop-items items s result zero h hs l = ground arith
  array_loop-items [] s result (suc fuel) h hs l = rw (last_round s result h, array_loop) refl
  array_loop-items (t ∷ items) s result (suc fuel) h (ht, hs) l =
      rw (middle_round s t (items_tail items) result h, array_loop)
        (array_loop-items items t (result ++ (s ∷ [])) fuel ht hs (omega (arith, l))
          ∙ ap (λ r. some (done r)) (append_assoc result (s ∷ []) (t ∷ items)))

  -- The last byte of an array is its bracket.
  last_byte :
      (s : Bytes) (items : List Bytes)
      → (split_last b'"' ((escape s ++ (b'"' ∷ [])) ++ items_tail items)).1 ≡ b']'
  last_byte s items =
      let (front, e) = items_tail-last items in
      let body = escape s ++ (b'"' ∷ []) in
      ap (λ t. (split_last b'"' (body ++ t)).1) e
      ∙ ap (λ t. (split_last b'"' t).1) (sym (append_assoc body front (b']' ∷ [])))
      ∙ ap (λ r. r.1) (split_last-append b'"' (body ++ front) b']')

-- An array of strings, each of any bytes but control characters without an escape of their own,
-- that is written with a comma and a blank between the quoted strings is read back.
pub parse_string_array-array_text :
    (path : Bytes) (n : ℕ) (items : List Bytes)
    → All (All IsQuotable) items
    → parse_string_array path n (array_text items) ≡ some (done items)
unfolding parse_string_array array_loop array_round skip_whitespace split_last
parse_string_array-array_text path n [] h = refl
parse_string_array-array_text path n (s ∷ items) (hs, h) =
    rw (last_byte path n s items, skip-quote ((escape s ++ (b'"' ∷ [])) ++ items_tail items))
      (array_loop-items path n items s [] (length (array_text (s ∷ items))) hs h
        (omega (arith, length-append (quoted s) (items_tail items), length-items_tail items)))
