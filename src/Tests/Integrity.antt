-- ===== src/Tests/Integrity.antt =====
-- Runs of the hash of src/PackageIntegrity.cpp, and its theorems at concrete inputs.
use simp.Base.{Bytes, codes, List, [], ◌∷◌, ◌≡◌, refl}
use simp.Integrity.Sha256.{zeros, package_file_sha256, package_tree_sha256}
use simp.Integrity.Digest.{IsDigest}
use simp.Integrity.Streaming.{
  concat, tree_message, package_file_sha256-IsDigest, package_tree_sha256-IsDigest,
}

sha256_abc :
    package_file_sha256 (codes "ab" ∷ codes "c" ∷ [])
    ≡ codes "ba7816bf8f01cfea414140de5dae2223b00361a396177a9cb410ff61f20015ad"
unfolding package_file_sha256
sha256_abc = refl

sha256_empty :
    package_file_sha256 []
    ≡ codes "e3b0c44298fc1c149afbf4c8996fb92427ae41e4649b934ca495991b7852b855"
unfolding package_file_sha256
sha256_empty = refl

sha256_two_blocks :
    package_file_sha256 (codes "abcdbcdecdefdefgefghfghighijhijkijkljklmklmnlmnomnopnopq" ∷ [])
    ≡ codes "248d6a61d20638b8e5c026930c3e6039a33ce45964ff2167f6ecedd419db06c1"
unfolding package_file_sha256
sha256_two_blocks = refl

abbrev pieces : List Bytes
pieces = zeros 60 ∷ codes "end of file" ∷ []

abbrev files : List (Bytes × List Bytes)
files = (codes "a.cw", pieces) ∷ (codes "lib/b.cw", codes "class B" ∷ []) ∷ []

package_file_sha256-IsDigest_example : IsDigest (concat pieces) (package_file_sha256 pieces)
package_file_sha256-IsDigest_example = package_file_sha256-IsDigest pieces

package_tree_sha256-IsDigest_example : IsDigest (tree_message files) (package_tree_sha256 files)
package_tree_sha256-IsDigest_example = package_tree_sha256-IsDigest files
