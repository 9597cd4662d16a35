-- ===== src/Packages/LockLines.antt =====
-- The versions that the lines of a lock leave, `readLockedPolicy` of src/PackageRegistry.cpp.
use simp.Base.{
  ℕ, ◌+◌, ◌≡◌, sym, ap, subst, true, false, not, ◌&&◌, ◌||◌, List, [], ◌∷◌, ◌++◌, ◌⊎◌, inl, inr,
  Bytes, codes, In, Bool-cases, equal, ◌==◌,
}
use simp.Base.Tables.{Table, is_member}
use simp.Packages.Version.{compare_text}
use simp.Packages.Split.{cut}
use simp.Packages.Names.{identifier, bare_key}
use simp.Packages.Toml.{trim, uncomment, split_last, parse_quoted_string}
use simp.Packages.Arrays.{parse_string_array}
use simp.Packages.ArrayItems.{parse_string_array-ends}
use simp.Packages.Select.{is_greater}
use simp.Packages.Sorted.{assign_sorted}
use simp.Packages.Searches.{
  Ends, ends, throws, Ends-bind, Ends-map, Ends-if, Ends-option, Ends-attempt,
}
use simp.Packages.Lock.{
  Lock, search_array, is_exact, is_known_section, is_package_key, package_of, open_section,
  metadata_entry, module_entry, package_entry, entry, key_line, lock_line, lock_lines,
}

-- Each module has one version, which is one.
abbrev pub AreExact : Table (List Bytes) → Type 0
AreExact versions = (x : Bytes) (vs : List Bytes) → In (x, vs) versions → is_exact vs ≡ true

abbrev IsExact : Lock → Type 0
IsExact s = AreExact s.policy.versions

-- The value is the assigned one, or one of the table.
assigned-In :
    {A : Type 0} (name : Bytes) (a : A) (table : Table A) (x : Bytes) (b : A)
    → In (x, b) (assign_sorted name a table)
    → (b ≡ a) ⊎ In (x, b) table
unfolding assign_sorted
assigned-In name a [] x b (inl e) = inl (ap (λ p. p.1) e)
assigned-In name a [] x b (inr i) = absurd i
assigned-In name a ((key, c) ∷ table) x b i = elim (Bool-cases (equal key name)) [
  | inl same ↦ overwritten (rw same at i)
  | inr other ↦ elim (Bool-cases (is_greater (compare_text key name))) [
    | inl greater ↦ inserted (rw (other, greater) at i)
    | inr smaller ↦ further (assigned-In name a table x b) (rw (other, smaller) at i)
  ]
]
  where
    overwritten : In (x, b) ((key, a) ∷ table) → (b ≡ a) ⊎ In (x, b) ((key, c) ∷ table)
    overwritten (inl e) = inl (ap (λ p. p.1) e)
    overwritten (inr j) = inr (inr j)

    inserted : In (x, b) ((name, a) ∷ (key, c) ∷ table) → (b ≡ a) ⊎ In (x, b) ((key, c) ∷ table)
    inserted (inl e) = inl (ap (λ p. p.1) e)
    inserted (inr j) = inr j

    further :
        (In (x, b) (assign_sorted name a table) → (b ≡ a) ⊎ In (x, b) table)
        → In (x, b) ((key, c) ∷ assign_sorted name a table)
        → (b ≡ a) ⊎ In (x, b) ((key, c) ∷ table)
    further rest (inl e) = inr (inl e)
    further rest (inr j) = elim (rest j) [ inl e ↦ inl e | inr k ↦ inr (inr k) ]

array-Ends :
    (path : Bytes) (number : ℕ) (value : Bytes)
    → Ends (λ _. Unit) (search_array (parse_string_array path number value))
array-Ends path number value =
    let (end, e) = parse_string_array-ends path number value in
    rw (e) (Ends-map (Ends-attempt end) λ _ _. tt)

not-exact : (vs : List Bytes) → not (is_exact vs) ≡ false → is_exact vs ≡ true
not-exact vs h = elim (Bool-cases (is_exact vs)) [ inl e ↦ e | inr e ↦ cc (h, ap not e) ]

module _ (path : Bytes) (number : ℕ) where
  open_section-Ends :
      (inner : Bytes) (s : Lock) → IsExact s → Ends (λ t. IsExact t) (open_section path inner s)
  unfolding open_section
  open_section-Ends inner s h =
      Ends-if (not (is_known_section (trim inner))) (λ _. throws)
        λ _. Ends-if (is_member (trim inner) s.sections) (λ _. throws) λ _. ends h

  metadata_entry-Ends :
      (key value : Bytes) (s : Lock)
      → IsExact s
      → Ends (λ t. IsExact t) (metadata_entry path number key value s)
  unfolding metadata_entry
  metadata_entry-Ends key value s h =
      Ends-if (equal key (codes "schema"))
        (λ _. Ends-if (not (equal value (codes "1"))) (λ _. throws) λ _. ends h)
        λ _.
          Ends-if (equal key (codes "manifest-sha256"))
            (λ _. Ends-bind (Ends-attempt (parse_quoted_string path number value)) λ text _. ends h)
            λ _. throws

  module_entry-Ends :
      (key value : Bytes) (s : Lock)
      → IsExact s
      → Ends (λ t. IsExact t) (module_entry path number key value s)
  unfolding module_entry
  module_entry-Ends key value s h =
      Ends-if (not (identifier key)) (λ _. throws)
        λ _. Ends-bind (array-Ends path number value) λ versions _.
          Ends-if (not (is_exact versions)) (λ _. throws)
            λ exact. ends λ x vs i. elim (assigned-In key versions s.policy.versions x vs i) [
              | inl e ↦ subst (λ l. is_exact l ≡ true) (sym e) (not-exact versions exact)
              | inr j ↦ h x vs j
            ]

  package_entry-Ends :
      (name key value : Bytes) (s : Lock)
      → IsExact s
      → Ends (λ t. IsExact t) (package_entry path number name key value s)
  unfolding package_entry
  package_entry-Ends name key value s h =
      Ends-if (equal key (codes "dependencies"))
        (λ _. Ends-bind (array-Ends path number value) λ dependencies _. ends h)
        λ _.
          Ends-if (is_package_key key)
            (λ _. Ends-bind (Ends-attempt (parse_quoted_string path number value)) λ text _. ends h)
            λ _. throws

  entry-Ends :
      (key value : Bytes) (s : Lock)
      → IsExact s
      → Ends (λ t. IsExact t) (entry path number key value s)
  unfolding entry
  entry-Ends key value s h =
      Ends-if (equal s.section []) (λ _. metadata_entry-Ends key value s h)
        λ _.
          Ends-if (equal s.section (codes "modules")) (λ _. module_entry-Ends key value s h)
            λ _.
              Ends-option (package_of s.section) (λ _. throws)
                λ name _. package_entry-Ends name key value s h

  key_line-Ends :
      (line : Bytes) (s : Lock) → IsExact s → Ends (λ t. IsExact t) (key_line path number line s)
  unfolding key_line
  key_line-Ends line s h =
      Ends-option (cut b'=' line).1 (λ _. throws)
        λ text _.
          let key = trim (cut b'=' line).0 in
          let unique = s.section ++ b'.' ∷ key in
          Ends-if (not (bare_key key) || is_member unique s.keys) (λ _. throws)
            λ _. entry-Ends key (trim text) (record s { keys = unique ∷ s.keys }) h

  lock_line-Ends :
      (line : Bytes) (s : Lock) → IsExact s → Ends (λ t. IsExact t) (lock_line path number line s)
  unfolding lock_line
  lock_line-Ends [] s h = ends h
  lock_line-Ends (c ∷ []) s h = key_line-Ends (c ∷ []) s h
  lock_line-Ends (c ∷ d ∷ line) s h =
      Ends-if (c == b'[' && (split_last d line).1 == b']')
        (λ _. open_section-Ends (split_last d line).0 s h) λ _. key_line-Ends (c ∷ d ∷ line) s h

pub lock_lines-Ends :
    (path : Bytes) (number : ℕ) (lines : List Bytes) (s : Lock)
    → AreExact s.policy.versions
    → Ends (λ t. AreExact t.policy.versions) (lock_lines path number lines s)
unfolding lock_lines
lock_lines-Ends path number [] s h = ends h
lock_lines-Ends path number (line ∷ lines) s h =
    Ends-bind (lock_line-Ends path (number + 1) (trim (uncomment line)) s h)
      λ t k. lock_lines-Ends path (number + 1) lines t k
