-- ===== src/Packages/Best.antt =====
-- The best candidate of `Resolver::select` in src/PackageRegistry.cpp.
use Prim.Native.Nat.{Ordering, lt, eq, gt}
use simp.Base.{
  Bool, true, false, ◌&&◌, Option, none, some, List, [], ◌∷◌, ◌≡◌, ◌⊎◌, inl, inr, refl, sym, ap,
  subst, ◌∙◌, if◌then◌else◌, Bool-cases, In, All,
}
use simp.Packages.Version.{Version, compare_version}
use simp.Packages.Order.{flip, Ordering-cases}
use simp.Packages.Precedence.{
  compare_version-precedence, compare_version-transitive, compare_version-same,
}
use simp.Packages.Manifest.{PackageManifest}
use simp.Packages.Select.{version_of, is_stable, is_greater, is_newer, improves, best_stable}

clash : {A : Type 0} {b : Bool} → b ≡ true → b ≡ false → A
clash e f = let no : true ≡ false = sym e ∙ f in cc

-- Versions that do not come after one another.
not_greater_trans :
    (u v w : Version)
    → is_greater (compare_version u v) ≡ false
    → is_greater (compare_version v w) ≡ false
    → is_greater (compare_version u w) ≡ false
not_greater_trans u v w h k = elim (Ordering-cases (compare_version u v)) [
  | inl uv ↦ elim (Ordering-cases (compare_version v w)) [
    | inl vw ↦ ap is_greater (compare_version-transitive u v w uv vw)
    | inr (inl vw) ↦ ap is_greater (sym ((compare_version-same v w u vw).1) ∙ uv)
    | inr (inr vw) ↦ clash (ap is_greater vw) k
  ]
  | inr (inl uv) ↦ ap is_greater ((compare_version-same u v w uv).0) ∙ k
  | inr (inr uv) ↦ clash (ap is_greater uv) h
]

not_greater_back : (o : Ordering) → is_greater o ≡ true → is_greater (flip o) ≡ false
not_greater_back lt h = cc
not_greater_back eq h = cc
not_greater_back gt h = refl

is_newer_self : (c : PackageManifest) → is_newer c c ≡ false
is_newer_self c =
    ap is_greater ((compare_version-precedence (version_of c) (version_of c)).1.1 refl)

-- Stable, if there is one; and not newer.
abbrev pub Bounded : Option PackageManifest → PackageManifest → Type 0
Bounded none b = Unit
Bounded (some a) b = is_newer a b ≡ false

abbrev pub Stable : Option PackageManifest → Type 0
Stable none = Unit
Stable (some a) = is_stable a ≡ true

pub and-true : (a b : Bool) → (a && b) ≡ true → (a ≡ true) × (b ≡ true)
and-true true b h = (refl, h)
and-true false b h = cc

and-false : (a b : Bool) → b ≡ false → (a && b) ≡ false
and-false true b h = h
and-false false b h = refl

-- The best of the candidates and of what is at hand.
abbrev pub IsBest : Option PackageManifest → List PackageManifest → PackageManifest → Type 0
IsBest o cs b =
    ((o ≡ some b) ⊎ In b cs)
    × (is_stable b ≡ true)
    × Bounded o b
    × All (λ c. (is_stable c && is_newer c b) ≡ false) cs

Bounded-improves :
    (o : Option PackageManifest) (c b : PackageManifest)
    → improves c o ≡ true
    → is_newer c b ≡ false
    → Bounded o b
Bounded-improves none c b h k = tt
Bounded-improves (some a) c b h k =
    not_greater_trans (version_of a) (version_of c) (version_of b)
      (ap is_greater ((compare_version-precedence (version_of c) (version_of a)).0)
        ∙ not_greater_back (compare_version (version_of c) (version_of a)) h)
      k

passed_over :
    (o : Option PackageManifest) (c b : PackageManifest)
    → (is_stable c && improves c o) ≡ false
    → Bounded o b
    → (is_stable c && is_newer c b) ≡ false
passed_over none c b h k = go (is_stable c) h
  where
    go : (s : Bool) → (s && true) ≡ false → (s && is_newer c b) ≡ false
    go true e = cc
    go false e = refl
passed_over (some a) c b h k = go (is_stable c) h
  where
    go : (s : Bool) → (s && is_newer c a) ≡ false → (s && is_newer c b) ≡ false
    go true e = not_greater_trans (version_of c) (version_of a) (version_of b) e k
    go false e = refl

pub best_stable-IsBest :
    (cs : List PackageManifest) (o : Option PackageManifest) (b : PackageManifest)
    → Stable o
    → best_stable o cs ≡ some b
    → IsBest o cs b
unfolding best_stable
best_stable-IsBest [] none b s e = cc
best_stable-IsBest [] (some a) b s e =
    let same : a ≡ b = cc in
    (
      inl e,
      subst (λ c. is_stable c ≡ true) same s,
      subst (λ c. is_newer a c ≡ false) same (is_newer_self a),
      tt,
    )
best_stable-IsBest (c ∷ cs) o b s e = elim (Bool-cases (is_stable c && improves c o)) [
  | inl h ↦
      let (stable, better) = and-true (is_stable c) (improves c o) h in
      let (from, sb, bound, all) =
        best_stable-IsBest cs (some c) b stable
          (subst (λ t. best_stable (if t then some c else o) cs ≡ some b) h e) in
      (
        inr (elim from [ inl f ↦ inl (cc) | inr f ↦ inr f ]),
        sb,
        Bounded-improves o c b better bound,
        (and-false (is_stable c) (is_newer c b) bound, all),
      )
  | inr h ↦
      let (from, sb, bound, all) =
        best_stable-IsBest cs o b s
          (subst (λ t. best_stable (if t then some c else o) cs ≡ some b) h e) in
      (
        elim from [ inl f ↦ inl f | inr f ↦ inr (inr f) ],
        sb,
        bound,
        (passed_over o c b h bound, all),
      )
]
