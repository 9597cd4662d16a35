-- ===== src/Integrity/Streaming.antt =====
-- The buffered hash of src/PackageIntegrity.cpp computes the digest of the whole message.
use simp.Base.{
  ℕ, ◌+◌, ◌%◌, ◌^◌, List, [], ◌∷◌, ◌++◌, ◌≡◌, inl, inr, refl, sym, subst, ◌∙◌, arith, ◌==◌,
  Bool-cases, Bytes, length, length-append, append_assoc, append-nil,
}
use simp.Integrity.Sha256.{
  Sha256, initial, push, update_loop, update, hash_pieces, package_file_sha256, hash_tree,
  package_tree_sha256,
}
use simp.Integrity.Digest.{IsDigest}
use simp.Integrity.Finish.{finish-IsDigest}
use simp.Integrity.Buffer.{Holds, initial-Holds, push-Holds}

update_loop-Holds :
    (content : Bytes) (h : Sha256) (m : Bytes)
    → Holds h m
    → Holds (update_loop h content) (m ++ content)
unfolding update_loop
update_loop-Holds [] h m r = subst (Holds h) (sym (append-nil m)) r
update_loop-Holds (x ∷ content) h m r =
    subst (Holds (update_loop (push h x) content)) (append_assoc m (x ∷ []) content)
      (update_loop-Holds content (push h x) (m ++ (x ∷ [])) (push-Holds h m x r))

push-bytes : (h : Sha256) (x : ℕ) → (push h x).bytes ≡ h.bytes
unfolding push
push-bytes h x = elim (Bool-cases (h.used + 1 == 64)) [ inl e ↦ rw e refl | inr e ↦ rw e refl ]

update_loop-bytes : (content : Bytes) (h : Sha256) → (update_loop h content).bytes ≡ h.bytes
unfolding update_loop
update_loop-bytes [] h = refl
update_loop-bytes (x ∷ content) h = update_loop-bytes content (push h x) ∙ push-bytes h x

-- The hash has taken in the message, and counted its bytes.
abbrev IsFed : Sha256 → Bytes → Type 0
IsFed h m = Holds h m × (h.bytes ≡ length m % 2 ^ 64)

update-IsFed :
    (h : Sha256) (m content : Bytes) → IsFed h m → IsFed (update h content) (m ++ content)
unfolding update
update-IsFed h m content (r, e) =
    let counted : Sha256 = record {
      state = h.state;
      block = h.block;
      used = h.used;
      bytes = (h.bytes + length content) % 2 ^ 64;
    } in
    (
      update_loop-Holds content counted m (record {
        whole = r.whole;
        pending = r.pending;
        old = r.old;
        blocks = r.blocks;
        split = r.split;
        hashed = r.hashed;
        block = r.block;
        size = r.size;
        used = r.used;
        room = r.room;
        aligned = r.aligned;
      }),
      update_loop-bytes content counted ∙ omega (arith, e, length-append m content),
    )

abbrev pub concat : List Bytes → Bytes
concat [] = []
concat (piece ∷ pieces) = piece ++ concat pieces

hash_pieces-IsFed :
    (pieces : List Bytes) (h : Sha256) (m : Bytes)
    → IsFed h m
    → IsFed (hash_pieces h pieces) (m ++ concat pieces)
unfolding hash_pieces
hash_pieces-IsFed [] h m r = subst (IsFed h) (sym (append-nil m)) r
hash_pieces-IsFed (piece ∷ pieces) h m r =
    subst (IsFed (hash_pieces (update h piece) pieces)) (append_assoc m piece (concat pieces))
      (hash_pieces-IsFed pieces (update h piece) (m ++ piece) (update-IsFed h m piece r))

-- The files of a tree as one message: each name and each content with a zero behind it.
abbrev pub tree_message : List (Bytes × List Bytes) → Bytes
tree_message [] = []
tree_message ((name, pieces) ∷ files) =
    (((name ++ (0 ∷ [])) ++ concat pieces) ++ (0 ∷ [])) ++ tree_message files

reassociate :
    (m a b c d e : Bytes) → ((((m ++ a) ++ b) ++ c) ++ d) ++ e ≡ m ++ ((((a ++ b) ++ c) ++ d) ++ e)
reassociate m a b c d e = simp append_assoc

hash_tree-IsFed :
    (files : List (Bytes × List Bytes)) (h : Sha256) (m : Bytes)
    → IsFed h m
    → IsFed (hash_tree h files) (m ++ tree_message files)
unfolding hash_tree
hash_tree-IsFed [] h m r = subst (IsFed h) (sym (append-nil m)) r
hash_tree-IsFed ((name, pieces) ∷ files) h m r =
    let h1 = update h name in
    let h2 = update h1 (0 ∷ []) in
    let h3 = hash_pieces h2 pieces in
    let r1 = update-IsFed h m name r in
    let r2 = update-IsFed h1 (m ++ name) (0 ∷ []) r1 in
    let r3 = hash_pieces-IsFed pieces h2 ((m ++ name) ++ (0 ∷ [])) r2 in
    let r4 = update-IsFed h3 (((m ++ name) ++ (0 ∷ [])) ++ concat pieces) (0 ∷ []) r3 in
    subst (IsFed (hash_tree (update h3 (0 ∷ [])) files))
      (reassociate m name (0 ∷ []) (concat pieces) (0 ∷ []) (tree_message files))
      (hash_tree-IsFed files (update h3 (0 ∷ []))
        ((((m ++ name) ++ (0 ∷ [])) ++ concat pieces) ++ (0 ∷ [])) r4)

initial-IsFed : IsFed initial []
unfolding initial
initial-IsFed = (initial-Holds, refl)

-- Whatever the pieces in which a file is read, its hash is the SHA-256 digest of the file as
-- FIPS 180-4 pads and divides it into blocks.
pub package_file_sha256-IsDigest :
    (pieces : List Bytes) → IsDigest (concat pieces) (package_file_sha256 pieces)
unfolding package_file_sha256
package_file_sha256-IsDigest pieces =
    let (r, e) = hash_pieces-IsFed pieces initial [] initial-IsFed in
    finish-IsDigest (hash_pieces initial pieces) (concat pieces) r e

-- The hash of a tree is the SHA-256 digest of one message, in which each name and each content,
-- in the order of the files, has a zero byte behind it.
pub package_tree_sha256-IsDigest :
    (files : List (Bytes × List Bytes)) → IsDigest (tree_message files) (package_tree_sha256 files)
unfolding package_tree_sha256
package_tree_sha256-IsDigest files =
    let (r, e) = hash_tree-IsFed files initial [] initial-IsFed in
    finish-IsDigest (hash_tree initial files) (tree_message files) r e
