-- ===== src/Packages/Resolver.antt =====
-- `Resolver::visit` and `Resolver::resolve` of src/PackageRegistry.cpp.
use simp.Base.{
  ℕ, zero, suc, Bool, true, false, not, ◌&&◌, Option, none, some, List, [], ◌∷◌, ◌++◌, ◌==◌,
  if◌then◌else◌, Bytes, codes, equal,
}
use simp.Base.Attempts.{Attempt, done, invalid}
use simp.Base.Tables.{Table, find, assign, is_member, case_option}
use simp.Packages.Searches.{Search, walked, thrown, exhausted, ◌>>=◌, search_of}
use simp.Packages.Manifest.{
  PackageDependency, ResolvedPackage, PackageManifest, ModuleVersionPolicy,
}
use simp.Packages.Select.{select}
use simp.Packages.Sorted.{assign_sorted}

pub record PackageResolution : Type 0 where
  pub packages : Table ResolvedPackage
  pub link_order : List ResolvedPackage

-- `state` is 1 while the dependencies of a package are visited, and 2 behind that.
pub record Graph : Type 0 where
  pub packages : Table ResolvedPackage
  pub preorder : List ResolvedPackage
  pub state : Table ℕ
  pub restart : Bool

-- A `std::map`: its keys are sorted, so that equal maps are equal lists.
abbrev pub Pins : Type 0
Pins = Table Bytes

unfoldable pub same_pins : Pins → Pins → Bool
unfolding equal
same_pins [] [] = true
same_pins [] (q ∷ qs) = false
same_pins (p ∷ ps) [] = false
same_pins ((k, v) ∷ ps) ((j, w) ∷ qs) = equal k j && equal v w && same_pins ps qs

-- The version that a dependency requires, unless it is empty.
unfoldable pub pin : Bool → Bytes → Bytes → Pins → Attempt Pins
unfolding find assign_sorted equal
pin locked name [] pins = done pins
pin true name (c ∷ required) pins =
    done (case_option (find name pins) (assign_sorted name (c ∷ required) pins) λ _. pins)
pin false name (c ∷ required) pins =
    let pinned = done (assign_sorted name (c ∷ required) pins) in
    case_option (find name pins) pinned λ version.
      if equal version (c ∷ required)
      then pinned
      else invalid (
          codes "conflicting package versions for '"
          ++ name
          ++ codes "': "
          ++ version
          ++ codes " and "
          ++ c ∷ required)

-- A package that was visited before.
unfoldable pub revisit : Bytes → PackageManifest → ResolvedPackage → Graph → Search Graph
unfolding find equal
revisit name manifest existing g =
    if not (equal existing.version manifest.resolved.version)
    then walked (record g { restart = true })
    else if case_option (find name g.state) false (λ s. s == 1)
    then thrown (codes "cyclic package dependency involving '" ++ name ++ codes "'")
    else walked g

unfoldable pub enter : Bytes → ResolvedPackage → Graph → Graph
unfolding assign
enter name resolved g = record {
  packages = assign name resolved g.packages;
  preorder = g.preorder ++ resolved ∷ [];
  state = assign name 1 g.state;
  restart = g.restart;
}

unfoldable pub leave : Bytes → Graph → Graph
unfolding assign
leave name g = record g { state = assign name 2 g.state }

-- The graph, and the pins that are discovered.
abbrev pub Visited : Type 0
Visited = Graph × Pins

unfoldable pub each_dependency :
    (Bytes → Bytes → Visited → Search Visited) → List PackageDependency → Visited → Search Visited
each_dependency visit [] s = walked s
each_dependency visit (d ∷ dependencies) s =
    visit d.name d.version s >>= each_dependency visit dependencies

abbrev pub no_graph : Graph
no_graph = record { packages = []; preorder = []; state = []; restart = false }

abbrev pub pin_of : Pins → Bytes → Bytes
pin_of pins name = case_option (find name pins) [] λ version. version

-- The roots with the versions that are pinned.
abbrev pub pinned_roots : Pins → List Bytes → List PackageDependency
pinned_roots pins [] = []
pinned_roots pins (name ∷ names) =
    (record { name = name; version = pin_of pins name }) ∷ pinned_roots pins names

abbrev pub state_text : Pins → Bytes
state_text [] = []
state_text ((name, version) ∷ pins) = name ++ b'=' ∷ version ++ b'\n' ∷ state_text pins

abbrev pub no_limit : {A : Type 0} → Search A
no_limit = thrown (codes "package version resolution exceeded its limit")

-- `select`, and whether there is a policy.
module _ (choose : Bytes → Bytes → Attempt PackageManifest) (locked : Bool) where
  -- One unit of fuel is one level of dependencies.
  unfoldable pub visit : ℕ → Bytes → Bytes → Visited → Search Visited
  unfolding pin revisit enter leave each_dependency find
  visit zero name required s = exhausted
  visit (suc f) name required (g, pins) = search_of (pin locked name required pins) >>= λ pins'.
      search_of (choose name required) >>= λ manifest.
      case_option (find name g.packages)
        (each_dependency (visit f) manifest.resolved.dependencies
            (enter name manifest.resolved g, pins')
          >>= λ (g', pins''). walked (leave name g', pins''))
        λ existing. revisit name manifest existing g >>= λ g'. walked (g', pins')

  -- The loop over the attempts that are left, on the pins and the previous states.
  unfoldable pub attempt_loop : ℕ → ℕ → List Bytes → Pins → List Bytes → Search Graph
  unfolding visit each_dependency same_pins find is_member
  attempt_loop f zero names pins previous = walked no_graph
  attempt_loop f (suc k) names pins previous =
      each_dependency (visit f) (pinned_roots pins names) (no_graph, []) >>= λ (g, discovered).
      let again = attempt_loop f k names discovered previous in
      let changed = attempt_loop f k names discovered (state_text discovered ∷ previous) in
      if g.restart
      then if k == 0 then no_limit else again
      else if same_pins discovered pins
      then walked g
      else if is_member (state_text discovered) previous
      then thrown (codes "package version constraints do not converge")
      else if k == 0
      then no_limit
      else changed

abbrev pub is_some : {A : Type 0} → Option A → Bool
is_some none = false
is_some (some a) = true

abbrev pub is_none_found : {A : Type 0} → List A → Bool
is_none_found [] = true
is_none_found (x ∷ xs) = false

abbrev pub no_resolution : PackageResolution
no_resolution = record { packages = []; link_order = [] }

abbrev pub resolution_of : Graph → PackageResolution
resolution_of g = record { packages = g.packages; link_order = g.preorder }

module _ (roots : List Bytes) (discover : Bytes → Attempt (List PackageManifest))
    (tree_sha256 : Bytes → Attempt Bytes) (file_name : Bytes → Bytes) where
  -- The requested names that are packages: all of them under a policy.
  unfoldable pub package_roots : Option ModuleVersionPolicy → List Bytes → Search (List Bytes)
  package_roots (some policy) names = walked names
  package_roots none [] = walked []
  package_roots none (name ∷ names) = search_of (discover name) >>= λ candidates.
      package_roots none names >>= λ rest.
      walked (if is_none_found candidates then rest else name ∷ rest)

  abbrev pub resolve_roots : ℕ → Option ModuleVersionPolicy → List Bytes → Search PackageResolution
  resolve_roots f policy [] = walked no_resolution
  resolve_roots f policy (name ∷ names) =
      attempt_loop (select roots discover tree_sha256 file_name policy) (is_some policy) f 64
        (name ∷ names) [] []
      >>= λ g. walked (resolution_of g)

  unfoldable pub resolve : ℕ → Option ModuleVersionPolicy → List Bytes → Search PackageResolution
  unfolding package_roots attempt_loop
  resolve f policy requested = package_roots policy requested >>= resolve_roots f policy
