-- ===== src/Packages/Precedence.antt =====
-- `compareVersion` of src/PackageRegistry.cpp is a total order of versions but for their builds.
use Prim.Native.Nat.{compare, Ordering, lt, eq}
use simp.Base.{
  ℕ, List, [], ◌∷◌, ◌≡◌, ◌↔◌, refl, sym, ap, ◌∙◌, arith, subst, if◌then◌else◌, Bytes, length,
  all_of,
}
use simp.Packages.Split.{split_on, split_on-injective}
use simp.Packages.Order.{
  flip, IsOrder, compare_self, compare_lists, compare_pairs, compare-IsOrder, compare_lists-IsOrder,
  compare_pairs-IsOrder, IsOrder-pull,
}
use simp.Packages.Version.{
  Version, is_digit, is_empty, compare_text, compare_numeric, compare_identifier,
  compare_prerelease, compare_version,
}

pub compare_text-IsOrder : IsOrder compare_text
compare_text-IsOrder = compare_lists-IsOrder compare-IsOrder

-- The comparison of numeric texts, by size first.
compare_numeric-IsOrder : IsOrder compare_numeric
unfolding compare_numeric
compare_numeric-IsOrder =
    IsOrder-pull (λ (s : Bytes). (length s, s)) (λ s t e. ap (λ p. p.1) e)
      (compare_pairs-IsOrder compare-IsOrder compare_text-IsOrder)

-- Numeric identifiers come first, by size; the others are compared as texts.
abbrev Key : Type 0
Key = ℕ × (ℕ × Bytes)

abbrev identifier_key : Bytes → Key
identifier_key s = if all_of is_digit s then (0, (length s, s)) else (1, (0, s))

abbrev compare_keys : Key → Key → Ordering
compare_keys = compare_pairs compare (compare_pairs compare compare_text)

compare_keys-IsOrder : IsOrder compare_keys
compare_keys-IsOrder =
    compare_pairs-IsOrder compare-IsOrder
      (compare_pairs-IsOrder compare-IsOrder compare_text-IsOrder)

key_text : (s : Bytes) → (identifier_key s).1.1 ≡ s
key_text s = ground arith

compare_identifier-keys :
    (s t : Bytes) → compare_identifier s t ≡ compare_keys (identifier_key s) (identifier_key t)
unfolding compare_identifier compare_numeric
compare_identifier-keys s t = ground arith

-- A comparison that agrees with a total order is one.
IsOrder-agree :
    {A : Type 0} {f g : A → A → Ordering} → ((a b : A) → f a b ≡ g a b) → IsOrder g → IsOrder f
IsOrder-agree e o = record {
  flips = λ a b. rw (e b a, e a b) (o.flips a b);
  same = λ a b h. o.same a b (sym (e a b) ∙ h);
  chains = λ a b c h k. e a c ∙ o.chains a b c (sym (e a b) ∙ h) (sym (e b c) ∙ k);
}

compare_identifier-IsOrder : IsOrder compare_identifier
compare_identifier-IsOrder = IsOrder-agree compare_identifier-keys (
    IsOrder-pull identifier_key (λ s t e. sym (key_text s) ∙ ap (λ k. k.1.1) e ∙ key_text t)
      compare_keys-IsOrder)

-- A version without a prerelease comes behind every prerelease of it.
abbrev prerelease_key : Bytes → ℕ × List Bytes
prerelease_key s = if is_empty s then (1, []) else (0, split_on b'.' s)

abbrev compare_prerelease_keys : ℕ × List Bytes → ℕ × List Bytes → Ordering
compare_prerelease_keys = compare_pairs compare (compare_lists compare_identifier)

compare_prerelease-keys :
    (s t : Bytes)
    → compare_prerelease s t ≡ compare_prerelease_keys (prerelease_key s) (prerelease_key t)
unfolding compare_prerelease
compare_prerelease-keys [] [] = refl
compare_prerelease-keys [] (d ∷ t) = refl
compare_prerelease-keys (c ∷ s) [] = refl
compare_prerelease-keys (c ∷ s) (d ∷ t) = refl

one_ne_zero : {A : Type 0} → ◌≡◌ {A = ℕ} 1 0 → A
one_ne_zero h = ground arith

prerelease_key-injective : (s t : Bytes) → prerelease_key s ≡ prerelease_key t → s ≡ t
prerelease_key-injective [] [] e = refl
prerelease_key-injective [] (d ∷ t) e = one_ne_zero (ap (λ p. p.0) e)
prerelease_key-injective (c ∷ s) [] e = one_ne_zero (sym (ap (λ p. p.0) e))
prerelease_key-injective (c ∷ s) (d ∷ t) e =
    split_on-injective b'.' (c ∷ s) (d ∷ t) (ap (λ p. p.1) e)

compare_prerelease-IsOrder : IsOrder compare_prerelease
compare_prerelease-IsOrder = IsOrder-agree compare_prerelease-keys (
    IsOrder-pull prerelease_key prerelease_key-injective
      (compare_pairs-IsOrder compare-IsOrder (compare_lists-IsOrder compare_identifier-IsOrder)))

-- The parts that decide: all but the build.
abbrev pub precedence : Version → Bytes × (Bytes × (Bytes × Bytes))
precedence v = (v.major, (v.minor, (v.patch, v.prerelease)))

abbrev compare_precedence :
    Bytes × (Bytes × (Bytes × Bytes)) → Bytes × (Bytes × (Bytes × Bytes)) → Ordering
compare_precedence =
    compare_pairs compare_numeric
      (compare_pairs compare_numeric (compare_pairs compare_numeric compare_prerelease))

compare_precedence-IsOrder : IsOrder compare_precedence
compare_precedence-IsOrder = compare_pairs-IsOrder compare_numeric-IsOrder (
    compare_pairs-IsOrder compare_numeric-IsOrder
      (compare_pairs-IsOrder compare_numeric-IsOrder compare_prerelease-IsOrder))

-- `compare_version` the other way round is the opposite comparison, and it finds no difference
-- exactly if the versions agree in major, minor, patch and prerelease.
pub compare_version-precedence :
    (u v : Version)
    → (compare_version v u ≡ flip (compare_version u v))
      × ((compare_version u v ≡ eq) ↔ (precedence u ≡ precedence v))
unfolding compare_version
compare_version-precedence u v =
    let o = compare_precedence-IsOrder in
    (
      o.flips (precedence u) (precedence v),
      (
        o.same (precedence u) (precedence v),
        λ e.
            subst (λ p. compare_precedence (precedence u) p ≡ eq) e (compare_self o (precedence u)),
      ),
    )

-- A version before a second one, which is before a third one, is before the third one.
pub compare_version-transitive :
    (u v w : Version)
    → compare_version u v ≡ lt
    → compare_version v w ≡ lt
    → compare_version u w ≡ lt
unfolding compare_version
compare_version-transitive u v w =
    compare_precedence-IsOrder.chains (precedence u) (precedence v) (precedence w)

-- Versions that the comparison does not tell apart compare alike.
pub compare_version-same :
    (u v w : Version)
    → compare_version u v ≡ eq
    → (compare_version u w ≡ compare_version v w) × (compare_version w u ≡ compare_version w v)
unfolding compare_version
compare_version-same u v w e =
    let same = compare_precedence-IsOrder.same (precedence u) (precedence v) e in
    (
      ap (λ p. compare_precedence p (precedence w)) same,
      ap (compare_precedence (precedence w)) same,
    )
