-- ===== src/Tests/Converge.antt =====
-- `Resolver::resolve` of src/PackageRegistry.cpp on packages that fit all requirements.
use simp.Base.{
  ℕ, Bytes, codes, equal, none, some, List, [], ◌∷◌, ◌≡◌, ◌<◌, inl, inr, refl, sym, subst, In,
  if◌then◌else◌, arith,
}
use simp.Base.Attempts.{Attempt, done}
use simp.Base.Tables.{find}
use simp.Packages.Searches.{walked}
use simp.Packages.Version.{parse_version, compare_version}
use simp.Packages.Manifest.{PackageDependency, ResolvedPackage, PackageManifest}
use simp.Packages.Select.{select}
use simp.Packages.Resolver.{PackageResolution, resolve}
use simp.Packages.Compatible.{Fits, IsCompatible}
use simp.Packages.Convergence.{resolve-converges}

abbrev candidate : Bytes → List PackageDependency → PackageManifest
candidate name dependencies = record {
  resolved = record {
    name = name;
    version = codes "1.0.0";
    package_root = codes "/m/";
    source_path = codes "/m/lib.cw";
    export_kind = codes "class";
    export_name = codes "Main";
    dependencies = dependencies;
    libraries = [];
    library_paths = [];
  };
  signature = [];
}

abbrev net : PackageManifest
net = candidate (codes "net") (record { name = codes "log"; version = codes "1.0.0" } ∷ [])

abbrev log : PackageManifest
log = candidate (codes "log") []

abbrev manifest : Bytes → PackageManifest
manifest x = if equal x (codes "net") then net else log

abbrev rank : Bytes → ℕ
rank x = if equal x (codes "net") then 1 else 0

abbrev discover : Bytes → Attempt (List PackageManifest)
discover x = done (manifest x ∷ [])

abbrev tree_sha256 : Bytes → Attempt Bytes
tree_sha256 path = done (codes "abc")

abbrev file_name : Bytes → Bytes
file_name path = path

abbrev names : List Bytes
names = codes "net" ∷ codes "log" ∷ []

abbrev choose : Bytes → Bytes → Attempt PackageManifest
choose = select [] discover tree_sha256 file_name none

choose_fitting :
    (x required : Bytes)
    → choose x [] ≡ done (manifest x)
    → choose x (manifest x).resolved.version ≡ done (manifest x)
    → Fits manifest x required
    → choose x required ≡ done (manifest x)
choose_fitting x required newest same (inl e) =
    subst (λ r. choose x r ≡ done (manifest x)) (sym e) newest
choose_fitting x required newest same (inr e) = subst (λ r. choose x r ≡ done (manifest x)) e same

choose-net :
    (required : Bytes)
    → Fits manifest (codes "net") required
    → choose (codes "net") required ≡ done (manifest (codes "net"))
unfolding select equal parse_version compare_version
choose-net required fits = choose_fitting (codes "net") required refl refl fits

choose-log :
    (required : Bytes)
    → Fits manifest (codes "log") required
    → choose (codes "log") required ≡ done (manifest (codes "log"))
unfolding select equal parse_version compare_version
choose-log required fits = choose_fitting (codes "log") required refl refl fits

each_name :
    (P : Bytes → Type 0) → P (codes "net") → P (codes "log") → (x : Bytes) → In x names → P x
each_name P p q x (inl e) = subst P (sym e) p
each_name P p q x (inr (inl e)) = subst P (sym e) q
each_name P p q x (inr (inr i)) = absurd i

Requires : Bytes → Type 0
Requires x =
    (d : PackageDependency)
    → In d (manifest x).resolved.dependencies
    → (In d.name names × Fits manifest d.name d.version) × (rank d.name < rank x)

-- The dependency of `net` is `log`.
log-required :
    (d : PackageDependency)
    → d ≡ record { name = codes "log"; version = codes "1.0.0" }
    → (In d.name names × Fits manifest d.name d.version) × (rank d.name < 1)
unfolding equal
log-required d e =
    subst (λ c. (In c.name names × Fits manifest c.name c.version) × (rank c.name < 1)) (sym e)
      ((inr (inl refl), inr refl), omega arith)

all-Requires : (x : Bytes) → In x names → Requires x
unfolding Requires equal
all-Requires =
    each_name (λ x. Requires x) (λ d i. elim i [ inl e ↦ log-required d e | inr i' ↦ absurd i' ])
      (λ d i. absurd i)

packages-IsCompatible : IsCompatible choose names manifest rank
unfolding Requires
packages-IsCompatible = record {
  chosen = λ x required i fits.
      each_name (λ y. (r : Bytes) → Fits manifest y r → choose y r ≡ done (manifest y)) choose-net
        choose-log x i required fits;
  closed = λ x d i j. (all-Requires x i d j).0;
  lower = λ x d i j. (all-Requires x i d j).1;
}

net-known : (x : Bytes) → In x (codes "net" ∷ []) → In x names × (rank x < 2)
unfolding equal
net-known x (inl e) = subst (λ y. In y names × (rank y < 2)) (sym e) (inl refl, omega arith)
net-known x (inr i) = absurd i

resolve-converges_example :
    (r : PackageResolution) × (resolve [] discover tree_sha256 file_name 2 none (codes "net" ∷ [])
      ≡ walked r)
    × ((x : Bytes) (p : ResolvedPackage) → find x r.packages ≡ some p → p ≡ (manifest x).resolved)
resolve-converges_example =
    resolve-converges [] discover tree_sha256 file_name 2 none (codes "net" ∷ []) names manifest
      rank (λ x i. (manifest x, [], refl)) packages-IsCompatible net-known
