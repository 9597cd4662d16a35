-- ===== src/Packages/Locked.antt =====
-- What `readLockedPolicy` of src/PackageRegistry.cpp returns.
use simp.Base.{
  ℕ, suc, ◌≡◌, refl, sym, ap, ◌∙◌, subst, Bool, Option, none, some, List, [], ◌∷◌, inl, inr, Bytes,
  In, map, length, arith,
}
use simp.Base.Attempts.{Attempt}
use simp.Base.Tables.{Table, find, find-In}
use simp.Packages.Missing.{missing_all}
use simp.Packages.Manifest.{ModuleVersionPolicy}
use simp.Packages.Searches.{Ends, ends, throws, Ends-bind, Ends-if}
use simp.Packages.Lock.{Lock}
use simp.Packages.LockChecks.{
  target, each_locked, visit_locked, check_lock, no_lock, read_locked_policy,
}
use simp.Packages.LockOrder.{IsOrdered, bottom, AreStates, Visits}
use simp.Packages.LockVisits.{each-Ends, visit-Ends}
use simp.Packages.LockLines.{AreExact, lock_lines-Ends}
use simp.Packages.LockPackages.{IsPackage, packages-Ends, metadata-Ends}

pub record IsLock (policy : ModuleVersionPolicy) : Type 0 where
  pub exact : AreExact policy.versions
  pub packages : (x : Bytes) (vs : List Bytes) → In (x, vs) policy.versions → IsPackage policy x vs
  pub order : List Bytes
  pub ordered : IsOrdered policy.locked_dependencies order
  pub complete : (x : Bytes) (vs : List Bytes) → In (x, vs) policy.versions → In x order

abbrev names_of : ModuleVersionPolicy → List Bytes
names_of policy = map (λ e. e.0) policy.versions

keys-In :
    (table : Table (List Bytes)) (x : Bytes)
    → In x (map (λ e. e.0) table)
    → (vs : List Bytes) × In (x, vs) table
keys-In [] x i = absurd i
keys-In ((n, vs) ∷ table) x (inl e) = (vs, inl (ap (λ y. (y, vs)) e))
keys-In ((n, vs) ∷ table) x (inr i) = let (ws, j) = keys-In table x i in (ws, inr j)

In-keys :
    (table : Table (List Bytes)) (x : Bytes) (vs : List Bytes)
    → In (x, vs) table
    → In x (map (λ e. e.0) table)
In-keys [] x vs i = absurd i
In-keys ((n, ws) ∷ table) x vs (inl e) = inl (ap (λ p. p.0) e)
In-keys ((n, ws) ∷ table) x vs (inr i) = inr (In-keys table x vs i)

length-keys : (table : Table (List Bytes)) → length (map (λ e. e.0) table) ≡ length table
length-keys [] = refl
length-keys (e ∷ table) = omega (arith, length-keys table)

-- The dependencies of locked modules are locked modules.
names-closed :
    (policy : ModuleVersionPolicy)
    → ((x : Bytes) (vs : List Bytes) → In (x, vs) policy.versions → IsPackage policy x vs)
    → (x d : Bytes) (ds : List Bytes) → In x (names_of policy)
    → find x policy.locked_dependencies ≡ some ds
    → In d ds
    → In (target d) (names_of policy)
names-closed policy packages x d ds i found j =
    let (vs, k) = keys-In policy.versions x i in
    let (_, (es, found', targets)) = packages x vs k in
    let same : es ≡ ds = some-same (sym found' ∙ found) in
    let (locked, f, _) = targets d (subst (λ l. In d l) (sym same) j) in
    find-In (target d) locked policy.versions f
  where
    some-same : {a b : List Bytes} → some a ≡ some b → a ≡ b
    some-same e = cc

no_states : (dependencies : Table (List Bytes)) → AreStates dependencies [] []
unfolding find
no_states dependencies = record {
  ordered = bottom;
  left = λ x i. absurd i;
  either = λ x k e. absurd (cc e);
}

module _ (path : Bytes) where
  Visits-Ends :
      (policy : ModuleVersionPolicy)
      → ((x : Bytes) (vs : List Bytes) → In (x, vs) policy.versions → IsPackage policy x vs)
      → Ends (Visits policy.locked_dependencies [] [] (names_of policy)) (
          each_locked
            (visit_locked path policy.locked_dependencies (suc (length policy.versions)))
            (map (λ e. e.0) policy.versions)
            [])
  Visits-Ends policy packages =
      let closed = names-closed policy packages in
      let f = suc (length policy.versions) in
      each-Ends path policy.locked_dependencies (names_of policy) closed
        (visit_locked path policy.locked_dependencies f) f
        (visit-Ends path policy.locked_dependencies (names_of policy) closed f) (names_of policy) []
        [] (λ x i. i) (omega (arith, missing_all ℕ (names_of policy), length-keys policy.versions))
        (no_states policy.locked_dependencies)

  check_lock-Ends :
      (sha256 : Attempt Bytes) (s : Lock)
      → AreExact s.policy.versions
      → Ends (λ p. IsLock p) (check_lock path sha256 s)
  unfolding check_lock
  check_lock-Ends sha256 s exact = Ends-bind (metadata-Ends path sha256 s) λ t e.
      Ends-bind (packages-Ends path t.policy t.policy.versions) λ _ packages.
        Ends-bind (Visits-Ends t.policy packages) λ states (order, a, visited). ends (record {
          exact = subst (λ l. AreExact l.policy.versions) (sym e) exact;
          packages = packages;
          order = order;
          ordered = a.sound.ordered;
          complete = λ x vs i. visited x (In-keys t.policy.versions x vs i);
        })

  -- Whatever a lock holds, `readLockedPolicy` throws or returns a policy, in which each module has
  -- one valid version and a package of this version with a hash; its dependencies are locked
  -- modules in the versions that they are locked in, and the modules can be put in an order in
  -- which each has its dependencies behind it.
  pub read_locked_policy-IsLock :
      (lines : Option (List Bytes)) (bad : Bool) (manifest_sha256 : Attempt Bytes)
      → Ends (λ p. IsLock p) (read_locked_policy path lines bad manifest_sha256)
  unfolding read_locked_policy
  read_locked_policy-IsLock none bad manifest_sha256 = throws
  read_locked_policy-IsLock (some lines) bad manifest_sha256 =
      Ends-bind (lock_lines-Ends path 0 lines (no_lock path) λ x vs i. absurd i)
        λ s exact. Ends-if bad (λ _. throws) λ _. check_lock-Ends manifest_sha256 s exact
