-- ===== src/Integrity/Digest.antt =====
-- The SHA-256 digest of a whole message, as FIPS 180-4 defines it, over the `compress` of
-- src/PackageIntegrity.cpp.
use simp.Base.{ℕ, zero, suc, ◌*◌, ◌/◌, ◌%◌, ◌-◌, ◌^◌, List, [], ◌∷◌, ◌++◌, ◌≡◌, Bytes, length}
use simp.Integrity.Sha256.{zeros, initial_state, compress, hex_words}

-- The last `n` bytes of a number, the most significant one first.
abbrev pub big_endian : ℕ → ℕ → Bytes
big_endian zero bits = []
big_endian (suc n) bits = (bits / 256 ^ n) % 256 ∷ big_endian n bits

-- A one, zeros up to 8 bytes before a multiple of 64 bytes, and the size in bits.
abbrev pub padding : ℕ → Bytes
padding size = 128 ∷ zeros ((119 - size % 64) % 64) ++ big_endian 8 ((size * 8) % 2 ^ 64)

-- Compression block after block takes the first words to the last ones.
pub data Hashes : List ℕ → Bytes → List ℕ → Type 0 where
  hashes_nil : (state : List ℕ) → Hashes state [] state
  hashes_block :
      {state last : List ℕ} (block rest : Bytes)
      → length block ≡ 64
      → Hashes (compress state block) rest last
      → Hashes state (block ++ rest) last

-- The text of the digest of the message.
abbrev pub IsDigest : Bytes → Bytes → Type 0
IsDigest message digest =
    (last : List ℕ) × Hashes initial_state (message ++ padding (length message)) last
    × (digest ≡ hex_words last)
