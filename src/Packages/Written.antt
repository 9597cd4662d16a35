-- ===== src/Packages/Written.antt =====
-- `parseVersion` of src/PackageRegistry.cpp: an accepted text is the writing of the version.
use simp.Base.{
  ℕ, Bool, true, false, ◌&&◌, Option, none, some, [], ◌∷◌, ◌++◌, ◌≡◌, ◌⊎◌, inl, inr, refl, sym, ap,
  ap₂, subst, ◌∙◌, if◌then◌else◌, Bytes, append-nil,
}
use simp.Packages.Split.{cut, uncut, uncut-cut}
use simp.Packages.Version.{
  Version, valid_core_number, valid_identifiers, valid_part, text_or_empty, parse_patch,
  parse_minor, parse_major, parse_version,
}

-- A part with the character in front of it, unless it is empty.
abbrev pub part_text : ℕ → Bytes → Bytes
part_text c [] = []
part_text c (x ∷ xs) = c ∷ x ∷ xs

abbrev pub core_text : Version → Bytes
core_text v = v.major ++ (b'.' ∷ v.minor ++ (b'.' ∷ v.patch))

-- A version as it is written.
abbrev pub version_text : Version → Bytes
version_text v = (core_text v ++ part_text b'-' v.prerelease) ++ part_text b'+' v.build

uncut-part :
    (c : ℕ) (before : Bytes) (part : Option Bytes) (reject : Bool)
    → valid_part part reject ≡ true
    → uncut c before part ≡ before ++ part_text c (text_or_empty part)
uncut-part c before none reject h = sym (append-nil before)
uncut-part c before (some []) reject h = cc
uncut-part c before (some (x ∷ xs)) reject h = refl

if-some :
    {A : Type 0} (b : Bool) (x : Option A) (v : A)
    → (if b then x else none) ≡ some v
    → (b ≡ true) × (x ≡ some v)
if-some true x v e = (refl, e)
if-some false x v e = cc

pub and-true : (a b : Bool) → (a && b) ≡ true → (a ≡ true) × (b ≡ true)
and-true true b h = (refl, h)
and-true false b h = cc

abbrev pub valid_core : Version → Bool
valid_core v = valid_core_number v.major && valid_core_number v.minor && valid_core_number v.patch

-- What the readers below keep of the parts behind the core, and that its numbers are valid.
abbrev IsRead : Version → Option Bytes → Option Bytes → Type 0
IsRead v p b =
    (text_or_empty p ≡ v.prerelease) × (text_or_empty b ≡ v.build) × (valid_core v ≡ true)

parse_patch-text :
    (major minor : Bytes) (p b : Option Bytes) (c : Bytes × Option Bytes) (v : Version)
    → parse_patch major minor p b c ≡ some v
    → (uncut b'.' c.0 c.1 ≡ v.patch) × (minor ≡ v.minor) × (major ≡ v.major) × IsRead v p b
parse_patch-text major minor p b (patch, some _) v e = cc
parse_patch-text major minor p b (patch, none) v e =
    let read : Version = record {
      major = major;
      minor = minor;
      patch = patch;
      prerelease = text_or_empty p;
      build = text_or_empty b;
    } in
    let (h, k) =
      if-some (valid_core_number major && valid_core_number minor && valid_core_number patch)
        (some read) v e in
    let w : read ≡ v = cc in
    (
      ap (λ u. u.patch) w,
      ap (λ u. u.minor) w,
      ap (λ u. u.major) w,
      (ap (λ u. u.prerelease) w, ap (λ u. u.build) w, subst (λ u. valid_core u ≡ true) w h),
    )

parse_minor-text :
    (major : Bytes) (p b : Option Bytes) (c : Bytes × Option Bytes) (v : Version)
    → parse_minor major p b c ≡ some v
    → (uncut b'.' c.0 c.1 ≡ v.minor ++ (b'.' ∷ v.patch)) × (major ≡ v.major) × IsRead v p b
parse_minor-text major p b (minor, none) v e = cc
parse_minor-text major p b (minor, some rest) v e =
    let (h0, h1, h2, h3) = parse_patch-text major minor p b (cut b'.' rest) v e in
    (ap₂ (λ s t. s ++ (b'.' ∷ t)) h1 (sym (uncut-cut b'.' rest) ∙ h0), h2, h3)

parse_major-text :
    (p b : Option Bytes) (c : Bytes × Option Bytes) (v : Version)
    → parse_major p b c ≡ some v
    → (uncut b'.' c.0 c.1 ≡ core_text v) × IsRead v p b
parse_major-text p b (major, none) v e = cc
parse_major-text p b (major, some rest) v e =
    let (h0, h1, h2) = parse_minor-text major p b (cut b'.' rest) v e in
    (ap₂ (λ s t. s ++ (b'.' ∷ t)) h1 (sym (uncut-cut b'.' rest) ∙ h0), h2)

-- The parts behind the core are empty or valid.
abbrev pub IsPart : Bytes → Bool → Type 0
IsPart part reject = (part ≡ []) ⊎ (valid_identifiers part reject ≡ true)

-- A version whose numbers and identifiers are valid.
abbrev pub IsVersion : Version → Type 0
IsVersion v = (valid_core v ≡ true) × IsPart v.prerelease true × IsPart v.build false

valid_part-IsPart :
    (part : Option Bytes) (reject : Bool)
    → valid_part part reject ≡ true
    → IsPart (text_or_empty part) reject
valid_part-IsPart none reject h = inl refl
valid_part-IsPart (some []) reject h = inl refl
valid_part-IsPart (some (x ∷ xs)) reject h = inr h

pub parse_version-text :
    (text : Bytes) (v : Version)
    → parse_version text ≡ some v
    → (text ≡ version_text v) × IsVersion v
unfolding parse_version
parse_version-text text v e =
    let build = cut b'+' text in
    let prerelease = cut b'-' build.0 in
    let (h, read) =
      if-some (valid_part build.1 false && valid_part prerelease.1 true)
        (parse_major prerelease.1 build.1 (cut b'.' prerelease.0)) v e in
    let (hb, hp) = and-true (valid_part build.1 false) (valid_part prerelease.1 true) h in
    let (core, (p, b, valid)) =
      parse_major-text prerelease.1 build.1 (cut b'.' prerelease.0) v read in
    (
      sym (uncut-cut b'+' text)
          ∙ uncut-part b'+' build.0 build.1 false hb
          ∙ ap₂ (λ s t. s ++ part_text b'+' t)
              (sym (uncut-cut b'-' build.0)
                ∙ uncut-part b'-' prerelease.0 prerelease.1 true hp
                ∙ ap₂ (λ s t. s ++ part_text b'-' t) (sym (uncut-cut b'.' prerelease.0) ∙ core) p)
              b,
      (
        valid,
        subst (λ s. IsPart s true) p (valid_part-IsPart prerelease.1 true hp),
        subst (λ s. IsPart s false) b (valid_part-IsPart build.1 false hb),
      ),
    )
