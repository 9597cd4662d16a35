-- ===== src/Tests/Lock.antt =====
-- Runs of `readLockedPolicy` of src/PackageRegistry.cpp, and its theorem at a concrete input.
use simp.Base.{Bytes, codes, false, some, List, [], ◌∷◌, ◌++◌, ◌≡◌, refl, map}
use simp.Base.Attempts.{done}
use simp.Packages.Manifest.{ModuleVersionPolicy}
use simp.Packages.Searches.{Search, walked, thrown, exhausted, Ends}
use simp.Packages.LockChecks.{read_locked_policy}
use simp.Packages.Locked.{IsLock, read_locked_policy-IsLock}

abbrev hash : Bytes
hash = codes "00112233445566778899aabbccddeeff00112233445566778899aabbccddeeff"

abbrev quoted : Bytes → Bytes → Bytes
quoted key text = key ++ codes " = \"" ++ text ++ codes "\""

abbrev package_lines : Bytes → Bytes → List Bytes
package_lines name dependencies =
    (codes "[packages." ++ name ++ codes "]")
    ∷ quoted (codes "repo") (codes "builtin")
    ∷ quoted (codes "version") (codes "1.0.0")
    ∷ quoted (codes "ref") (codes "builtin")
    ∷ quoted (codes "commit") (codes "builtin")
    ∷ quoted (codes "sha256") hash
    ∷ (codes "dependencies = [" ++ dependencies ++ codes "]")
    ∷ []

abbrev lock : Bytes → List Bytes
lock dependencies =
    codes "schema = 1 # of the lock"
      ∷ quoted (codes "manifest-sha256") hash
      ∷ codes "[modules]"
      ∷ codes "net = [\"1.0.0\"]"
      ∷ codes "log = [\"1.0.0\"]"
      ∷ package_lines (codes "net") (codes "\"log=1.0.0\"")
    ++ package_lines (codes "log") dependencies

abbrev locked_names : Search ModuleVersionPolicy → Search (List Bytes)
locked_names (walked p) = walked (map (λ e. e.0) p.locked_dependencies)
locked_names (thrown m) = thrown m
locked_names exhausted = exhausted

read_lock :
    locked_names (read_locked_policy (codes "a.lock") (some (lock [])) false (done hash))
    ≡ walked (codes "log" ∷ codes "net" ∷ [])
unfolding read_locked_policy
read_lock = refl

read_cycle :
    locked_names
      (read_locked_policy (codes "a.lock") (some (lock (codes "\"net=1.0.0\""))) false (done hash))
    ≡ thrown (
        codes
          "a.lock: cyclic locked dependency involving 'log'; run 'cwhip-pkg install' to verify or regenerate the lock")
unfolding read_locked_policy
read_cycle = refl

read_locked_policy-IsLock_example :
    Ends (λ p. IsLock p) (read_locked_policy (codes "a.lock") (some (lock [])) false (done hash))
read_locked_policy-IsLock_example =
    read_locked_policy-IsLock (codes "a.lock") (some (lock [])) false (done hash)
