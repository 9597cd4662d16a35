-- ===== src/Packages/Reading.antt =====
-- `parseVersion` of src/PackageRegistry.cpp reads a version back from its writing.
use simp.Base.{
  ℕ, Bool, true, false, not, ◌&&◌, ◌||◌, Option, none, some, List, [], ◌∷◌, ◌++◌, ◌≡◌, ◌↔◌, inl,
  inr, refl, sym, subst, arith, ◌==◌, Bytes, all_of, All, All-append, All-map-All, append-nil,
}
use simp.Packages.Split.{cut, cut-append, cut-none, split_on, join_with, join_with-split_on}
use simp.Packages.Version.{
  Version, is_digit, is_alnum, is_empty, leading_zero, valid_core_number, valid_identifier,
  valid_identifiers, valid_part, text_or_empty, parse_major, parse_version,
}
use simp.Packages.Written.{
  part_text, core_text, version_text, and-true, valid_core, IsPart, IsVersion, parse_version-text,
}

-- The characters of valid numbers and identifiers.
all_of-All :
    {Q : ℕ → Type 0} (p : ℕ → Bool)
    → ((x : ℕ) → p x ≡ true → Q x)
    → (s : Bytes) → all_of p s ≡ true
    → All Q s
all_of-All p f [] h = tt
all_of-All p f (x ∷ s) h =
    let (hx, hs) = and-true (p x) (all_of p s) h in (f x hx, all_of-All p f s hs)

module _ (Q : ℕ → Type 0) (c : ℕ) (q : Q c) where
  join_with-All : (ps : List Bytes) → All (All Q) ps → All Q (join_with c ps)
  join_with-All [] h = tt
  join_with-All (p ∷ []) h = h.0
  join_with-All (p ∷ r ∷ ps) h =
      All-append Q p (c ∷ join_with c (r ∷ ps)) h.0 (q, join_with-All (r ∷ ps) h.1)

  split_on-All : (s : Bytes) → All (All Q) (split_on c s) → All Q s
  split_on-All s h = subst (All Q) (join_with-split_on c s) (join_with-All (split_on c s) h)

-- No plus sign in what the identifiers may have.
valid_identifier-plain :
    (reject : Bool) (part : Bytes)
    → valid_identifier reject part ≡ true
    → All (λ x. (x == b'+') ≡ false) part
unfolding valid_identifier
valid_identifier-plain reject part h =
    let ok = all_of (λ c. is_alnum c || c == b'-') part in
    let (h', _) = and-true (not (is_empty part) && ok) _ h in
    let (_, h'') = and-true (not (is_empty part)) ok h' in
    all_of-All (λ c. is_alnum c || c == b'-') (λ x e. ground arith) part h''

all_of-All-list :
    {Q : Bytes → Type 0} (p : Bytes → Bool)
    → ((x : Bytes) → p x ≡ true → Q x)
    → (s : List Bytes) → all_of p s ≡ true
    → All Q s
all_of-All-list p f [] h = tt
all_of-All-list p f (x ∷ s) h =
    let (hx, hs) = and-true (p x) (all_of p s) h in (f x hx, all_of-All-list p f s hs)

prerelease-plain : (s : Bytes) → IsPart s true → All (λ x. (x == b'+') ≡ false) s
unfolding valid_identifiers
prerelease-plain s (inl e) = rw e tt
prerelease-plain s (inr h) =
    let (_, h') = and-true (not (is_empty s)) _ h in
    split_on-All (λ x. (x == b'+') ≡ false) b'.' refl s
      (all_of-All-list (valid_identifier true) (valid_identifier-plain true) (split_on b'.' s) h')

-- Digits alone in the numbers of the core.
abbrev IsDigits : Bytes → Type 0
IsDigits s = All (λ x. is_digit x ≡ true) s

valid_core_number-IsDigits : (s : Bytes) → valid_core_number s ≡ true → IsDigits s
unfolding valid_core_number
valid_core_number-IsDigits s h =
    let (_, h'') = and-true (not (is_empty s) && not (leading_zero s)) _ h in
    all_of-All is_digit (λ x e. e) s h''

-- A character that is no digit is nowhere in digits.
digits-plain :
    (c : ℕ) → is_digit c ≡ false → (s : Bytes) → IsDigits s → All (λ x. (x == c) ≡ false) s
digits-plain c hc s h = All-map-All s (λ x e. ground arith) h

abbrev part_option : Bytes → Option Bytes
part_option [] = none
part_option (x ∷ xs) = some (x ∷ xs)

cut-part :
    (c : ℕ) (before part : Bytes)
    → All (λ x. (x == c) ≡ false) before
    → cut c (before ++ part_text c part) ≡ (before, part_option part)
cut-part c before [] h = rw (append-nil before) (cut-none c before h)
cut-part c before (x ∷ xs) h = cut-append c before (x ∷ xs) h

valid_part-part_option :
    (part : Bytes) (reject : Bool)
    → IsPart part reject
    → valid_part (part_option part) reject ≡ true
valid_part-part_option [] reject h = refl
valid_part-part_option (x ∷ xs) reject (inl e) = cc
valid_part-part_option (x ∷ xs) reject (inr h) = h

text_or_empty-part_option : (part : Bytes) → text_or_empty (part_option part) ≡ part
text_or_empty-part_option [] = refl
text_or_empty-part_option (x ∷ xs) = refl

valid_core-IsDigits :
    (v : Version) → valid_core v ≡ true → IsDigits v.major × IsDigits v.minor × IsDigits v.patch
valid_core-IsDigits v h =
    let (h', hp) = and-true (valid_core_number v.major && valid_core_number v.minor) _ h in
    let (ha, hi) = and-true (valid_core_number v.major) _ h' in
    (
      valid_core_number-IsDigits v.major ha,
      valid_core_number-IsDigits v.minor hi,
      valid_core_number-IsDigits v.patch hp,
    )

-- The core of a version holds digits and dots.
core_text-plain :
    (c : ℕ)
    → is_digit c ≡ false
    → (b'.' == c) ≡ false
    → (v : Version) → valid_core v ≡ true
    → All (λ x. (x == c) ≡ false) (core_text v)
core_text-plain c hc hd v h =
    let (ha, hi, hp) = valid_core-IsDigits v h in
    let plain = digits-plain c hc in
    All-append (λ x. (x == c) ≡ false) v.major (b'.' ∷ v.minor ++ (b'.' ∷ v.patch))
      (plain v.major ha)
      (
        hd,
        All-append (λ x. (x == c) ≡ false) v.minor (b'.' ∷ v.patch) (plain v.minor hi)
            (hd, plain v.patch hp),
      )

part_text-plain :
    (P : ℕ → Type 0) (c : ℕ) (part : Bytes) → P c → All P part → All P (part_text c part)
part_text-plain P c [] hc h = tt
part_text-plain P c (x ∷ xs) hc h = (hc, h)

parse_major-core_text :
    (v : Version)
    → valid_core v ≡ true
    → parse_major (part_option v.prerelease) (part_option v.build) (cut b'.' (core_text v)) ≡ some v
parse_major-core_text v h =
    let (ha, hi, hp) = valid_core-IsDigits v h in
    let plain = digits-plain b'.' refl in
    rw
      (
        cut-append b'.' v.major (v.minor ++ (b'.' ∷ v.patch)) (plain v.major ha),
        cut-append b'.' v.minor v.patch (plain v.minor hi),
        cut-none b'.' v.patch (plain v.patch hp),
        h,
        text_or_empty-part_option v.prerelease,
        text_or_empty-part_option v.build,
      )
      refl

parse_version-version_text : (v : Version) → IsVersion v → parse_version (version_text v) ≡ some v
unfolding parse_version
parse_version-version_text v (valid, p, b) =
    let plus_free =
      All-append (λ x. (x == b'+') ≡ false) (core_text v) (part_text b'-' v.prerelease)
        (core_text-plain b'+' refl refl v valid)
        (part_text-plain (λ x. (x == b'+') ≡ false) b'-' v.prerelease refl
          (prerelease-plain v.prerelease p)) in
    rw
      (
        cut-part b'+' (core_text v ++ part_text b'-' v.prerelease) v.build plus_free,
        cut-part b'-' (core_text v) v.prerelease (core_text-plain b'-' refl refl v valid),
        valid_part-part_option v.build false b,
        valid_part-part_option v.prerelease true p,
      )
      (parse_major-core_text v valid)

-- `parse_version` accepts a text exactly if it is the writing `major.minor.patch`, then
-- `-prerelease` and `+build` unless they are empty, of a version with valid numbers and
-- identifiers, and it returns that version.
pub parse_version_iff :
    (text : Bytes) (v : Version)
    → (parse_version text ≡ some v) ↔ ((text ≡ version_text v) × IsVersion v)
parse_version_iff text v = (
  parse_version-text text v,
  λ h. subst (λ s. parse_version s ≡ some v) (sym h.0) (parse_version-version_text v h.1),
)
