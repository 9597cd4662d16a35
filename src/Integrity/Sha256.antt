-- ===== src/Integrity/Sha256.antt =====
-- The class `Sha256` of src/PackageIntegrity.cpp.
use simp.Base.{
  ℕ, zero, suc, ◌+◌, ◌*◌, ◌/◌, ◌%◌, ◌-◌, ◌^◌, List, [], ◌∷◌, ◌++◌, ◌==◌, ltb, if◌then◌else◌, Bytes,
  length, get_or, drop, take,
}
use simp.Integrity.Words.{sum, xor, conj, complement, shift_right, rotate}

-- `state_`, `block_`, `used_` and `bytes_`.
pub record Sha256 : Type 0 where
  pub state : List ℕ
  pub block : Bytes
  pub used : ℕ
  pub bytes : ℕ

-- `block[index] = value`; an index out of range does not occur.
abbrev pub set : Bytes → ℕ → ℕ → Bytes
set [] index value = []
set (_ ∷ block) zero value = value ∷ block
set (x ∷ block) (suc index) value = x ∷ set block index value

abbrev pub zeros : ℕ → Bytes
zeros zero = []
zeros (suc n) = 0 ∷ zeros n

-- `std::fill` of the indices from `first` to before `last` with 0.
abbrev pub fill : Bytes → ℕ → ℕ → Bytes
fill block first last = take first block ++ (zeros (last - first) ++ drop last block)

unfoldable constants : List ℕ
constants =
    1116352408 ∷ 1899447441 ∷ 3049323471 ∷ 3921009573 ∷ 961987163 ∷ 1508970993 ∷ 2453635748
    ∷ 2870763221 ∷ 3624381080 ∷ 310598401 ∷ 607225278 ∷ 1426881987 ∷ 1925078388 ∷ 2162078206
    ∷ 2614888103 ∷ 3248222580 ∷ 3835390401 ∷ 4022224774 ∷ 264347078 ∷ 604807628 ∷ 770255983
    ∷ 1249150122 ∷ 1555081692 ∷ 1996064986 ∷ 2554220882 ∷ 2821834349 ∷ 2952996808 ∷ 3210313671
    ∷ 3336571891 ∷ 3584528711 ∷ 113926993 ∷ 338241895 ∷ 666307205 ∷ 773529912 ∷ 1294757372
    ∷ 1396182291 ∷ 1695183700 ∷ 1986661051 ∷ 2177026350 ∷ 2456956037 ∷ 2730485921 ∷ 2820302411
    ∷ 3259730800 ∷ 3345764771 ∷ 3516065817 ∷ 3600352804 ∷ 4094571909 ∷ 275423344 ∷ 430227734
    ∷ 506948616 ∷ 659060556 ∷ 883997877 ∷ 958139571 ∷ 1322822218 ∷ 1537002063 ∷ 1747873779
    ∷ 1955562222 ∷ 2024104815 ∷ 2227730452 ∷ 2361852424 ∷ 2428436474 ∷ 2756734187 ∷ 3204031479
    ∷ 3329325298 ∷ []

unfoldable pub initial_state : List ℕ
initial_state =
    1779033703 ∷ 3144134277 ∷ 1013904242 ∷ 2773480762 ∷ 1359893119 ∷ 2600822924 ∷ 528734635
    ∷ 1541459225 ∷ []

-- The first 16 words of a block, most significant byte first.
unfoldable block_words : ℕ → Bytes → List ℕ
block_words zero block = []
block_words (suc n) (a ∷ b ∷ c ∷ d ∷ block) =
    (((a * 256 + b) * 256 + c) * 256 + d) ∷ block_words n block
block_words (suc n) block = []

abbrev small_sigma : ℕ → ℕ → ℕ → ℕ → ℕ
small_sigma a b c word = xor (xor (rotate word a) (rotate word b)) (shift_right word c)

abbrev big_sigma : ℕ → ℕ → ℕ → ℕ → ℕ
big_sigma a b c word = xor (xor (rotate word a) (rotate word b)) (rotate word c)

-- The words from the 17th on; the words are at hand the last one first.
unfoldable expand : ℕ → List ℕ → List ℕ
expand zero words = words
expand (suc n) words =
    let left = get_or words 14 0 in
    let right = get_or words 1 0 in
    let word =
      sum (sum (sum (get_or words 15 0) (small_sigma 7 18 3 left)) (get_or words 6 0))
        (small_sigma 17 19 10 right) in
    expand n (word ∷ words)

abbrev reverse_onto : List ℕ → List ℕ → List ℕ
reverse_onto [] ys = ys
reverse_onto (x ∷ xs) ys = reverse_onto xs (x ∷ ys)

-- One round on the eight working words.
unfoldable round : ℕ → ℕ → List ℕ → List ℕ
round constant word work =
    let w0 = get_or work 0 0 in
    let w1 = get_or work 1 0 in
    let w2 = get_or work 2 0 in
    let w4 = get_or work 4 0 in
    let w5 = get_or work 5 0 in
    let w6 = get_or work 6 0 in
    let first =
      sum
        (sum
          (sum (sum (get_or work 7 0) (big_sigma 6 11 25 w4))
            (xor (conj w4 w5) (conj (complement w4) w6)))
          constant)
        word in
    let second = sum (big_sigma 2 13 22 w0) (xor (xor (conj w0 w1) (conj w0 w2)) (conj w1 w2)) in
    sum first second ∷ w0 ∷ w1 ∷ w2 ∷ sum (get_or work 3 0) first ∷ w4 ∷ w5 ∷ w6 ∷ []

unfoldable rounds : List ℕ → List ℕ → List ℕ → List ℕ
rounds (constant ∷ cs) (word ∷ ws) work = rounds cs ws (round constant word work)
rounds _ _ work = work

abbrev sums : List ℕ → List ℕ → List ℕ
sums (a ∷ as') (b ∷ bs) = sum a b ∷ sums as' bs
sums _ _ = []

unfoldable pub compress : List ℕ → Bytes → List ℕ
unfolding constants block_words expand round rounds
compress state block =
    let words = reverse_onto (expand 48 (reverse_onto (block_words 16 block) [])) [] in
    sums state (rounds constants words state)

unfoldable pub initial : Sha256
unfolding initial_state
initial = record { state = initial_state; block = zeros 64; used = 0; bytes = 0 }

-- One byte: a full block is compressed.
unfoldable pub push : Sha256 → ℕ → Sha256
unfolding compress
push hash byte =
    let block = set hash.block hash.used byte in
    let used = hash.used + 1 in
    if used == 64
    then record { state = compress hash.state block; block = block; used = 0; bytes = hash.bytes }
    else record { state = hash.state; block = block; used = used; bytes = hash.bytes }

unfoldable pub update_loop : Sha256 → Bytes → Sha256
unfolding push
update_loop hash [] = hash
update_loop hash (byte ∷ content) = update_loop (push hash byte) content

unfoldable pub update : Sha256 → Bytes → Sha256
unfolding update_loop
update hash content =
    update_loop
      (record {
        state = hash.state;
        block = hash.block;
        used = hash.used;
        bytes = (hash.bytes + length content) % 2 ^ 64;
      })
      content

-- The eight bytes of the size, the last one first, from index 63 down.
abbrev pub put_size : ℕ → ℕ → ℕ → Bytes → Bytes
put_size zero index bits block = block
put_size (suc n) index bits block =
    put_size n (index + 1) bits (set block (63 - index) ((bits / 256 ^ index) % 256))

unfoldable hex_digit : ℕ → ℕ
hex_digit d = if ltb d 10 then b'0' + d else b'a' + (d - 10)

unfoldable hex_word : ℕ → ℕ → Bytes
hex_word zero word = []
hex_word (suc n) word = hex_digit ((word / 16 ^ n) % 16) ∷ hex_word n word

-- `std::hex` with eight digits for each word.
unfoldable pub hex_words : List ℕ → Bytes
unfolding hex_digit hex_word
hex_words [] = []
hex_words (word ∷ state) = hex_word 8 word ++ hex_words state

-- The block of the end mark, if the size does not fit behind it.
unfoldable pub end_block : Sha256 → Sha256
unfolding compress
end_block hash =
    let block = set hash.block hash.used 128 in
    let used = hash.used + 1 in
    if ltb 56 used
    then record {
      state = compress hash.state (fill block used 64);
      block = fill block used 64;
      used = 0;
      bytes = hash.bytes;
    }
    else record { state = hash.state; block = block; used = used; bytes = hash.bytes }

unfoldable pub finish : Sha256 → Bytes
unfolding compress end_block hex_words
finish hash =
    let bits = (hash.bytes * 8) % 2 ^ 64 in
    let last = end_block hash in
    hex_words (compress last.state (put_size 8 0 bits (fill last.block last.used 56)))

-- `hashFile`: the file is read in pieces of at most 8192 bytes.
unfoldable pub hash_pieces : Sha256 → List Bytes → Sha256
unfolding update
hash_pieces hash [] = hash
hash_pieces hash (piece ∷ pieces) = hash_pieces (update hash piece) pieces

unfoldable pub package_file_sha256 : List Bytes → Bytes
unfolding initial hash_pieces finish
package_file_sha256 pieces = finish (hash_pieces initial pieces)

-- The loop of `packageTreeSha256` on the sorted names with the pieces of their files.
unfoldable pub hash_tree : Sha256 → List (Bytes × List Bytes) → Sha256
unfolding update hash_pieces
hash_tree hash [] = hash
hash_tree hash ((name, pieces) ∷ files) =
    let named = update (update hash name) (0 ∷ []) in
    hash_tree (update (hash_pieces named pieces) (0 ∷ [])) files

unfoldable pub package_tree_sha256 : List (Bytes × List Bytes) → Bytes
unfolding initial hash_tree finish
package_tree_sha256 files = finish (hash_tree initial files)
