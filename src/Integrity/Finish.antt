-- ===== src/Integrity/Finish.antt =====
-- `Sha256::finish` of src/PackageIntegrity.cpp pads the message that the hash has taken in.
use simp.Base.{
  ℕ, zero, suc, ◌+◌, ◌*◌, ◌/◌, ◌%◌, ◌-◌, ◌^◌, ◌≤◌, ◌<◌, [], ◌∷◌, ◌++◌, ◌≡◌, inl, inr, refl, sym, ap,
  ap₂, subst, ◌∙◌, arith, ltb, Bool-cases, Bytes, length, drop, length-append, append_assoc,
  append-nil,
}
use simp.Integrity.Sha256.{
  Sha256, set, zeros, fill, initial_state, compress, put_size, end_block, finish,
}
use simp.Integrity.Digest.{big_endian, padding, Hashes, IsDigest}
use simp.Integrity.Buffer.{
  Hashes-snoc, take-append, drop-length, length-drop, length-zeros, zeros-append, Holds,
  Holds-Filled, emptied,
}

-- Writing behind a text of fixed length.
set-behind : (a b : Bytes) (i j x : ℕ) → i ≡ length a + j → set (a ++ b) i x ≡ a ++ set b j x
set-behind [] b i j x e = ap (λ k. set b k x) {x = i} {y = j} (omega (arith, e))
set-behind (y ∷ a) b zero j x e = ground arith
set-behind (y ∷ a) b (suc i) j x e = ap (◌∷◌ y) (set-behind a b i j x (omega (arith, e)))

abbrev put_tail : ℕ → ℕ → ℕ → Bytes → Bytes
put_tail zero index bits tail = tail
put_tail (suc n) index bits tail =
    put_tail n (index + 1) bits (set tail (7 - index) ((bits / 256 ^ index) % 256))

put_size-append :
    (n index bits : ℕ) (a tail : Bytes)
    → length a ≡ 56
    → n + index ≡ 8
    → put_size n index bits (a ++ tail) ≡ a ++ put_tail n index bits tail
put_size-append zero index bits a tail size e = refl
put_size-append (suc n) index bits a tail size e =
    let byte = (bits / 256 ^ index) % 256 in
    ap (put_size n (index + 1) bits)
      (set-behind a tail (63 - index) (7 - index) byte (omega (arith, size, e)))
    ∙ put_size-append n (index + 1) bits a (set tail (7 - index) byte) size (omega (arith, e))

put_tail-eight :
    (bits : ℕ) (tail : Bytes) → length tail ≡ 8 → put_tail 8 0 bits tail ≡ big_endian 8 bits
put_tail-eight bits [] e = ground arith
put_tail-eight bits (_ ∷ []) e = ground arith
put_tail-eight bits (_ ∷ _ ∷ []) e = ground arith
put_tail-eight bits (_ ∷ _ ∷ _ ∷ []) e = ground arith
put_tail-eight bits (_ ∷ _ ∷ _ ∷ _ ∷ []) e = ground arith
put_tail-eight bits (_ ∷ _ ∷ _ ∷ _ ∷ _ ∷ []) e = ground arith
put_tail-eight bits (_ ∷ _ ∷ _ ∷ _ ∷ _ ∷ _ ∷ []) e = ground arith
put_tail-eight bits (_ ∷ _ ∷ _ ∷ _ ∷ _ ∷ _ ∷ _ ∷ []) e = ground arith
put_tail-eight bits (_ ∷ _ ∷ _ ∷ _ ∷ _ ∷ _ ∷ _ ∷ _ ∷ []) e = refl
put_tail-eight bits (_ ∷ _ ∷ _ ∷ _ ∷ _ ∷ _ ∷ _ ∷ _ ∷ _ ∷ _) e = ground arith

length-big_endian : (n bits : ℕ) → length (big_endian n bits) ≡ n
length-big_endian zero bits = refl
length-big_endian (suc n) bits = ap suc (length-big_endian n bits)

-- Zeros behind what a buffer holds.
fill-append :
    (a b : Bytes) (n last : ℕ)
    → n ≡ length a
    → fill (a ++ b) n last ≡ a ++ (zeros (last - n) ++ drop last (a ++ b))
fill-append a b n last e =
    ap (λ s. s ++ (zeros (last - n) ++ drop last (a ++ b))) (take-append a b n e)

-- The end mark is in, and the size fits behind what the buffer holds: so many zeros are in or
-- to come as the padding has.
record Ended (last : Sha256) (m : Bytes) : Type 0 where
  more : ℕ
  holds : Holds last ((m ++ (128 ∷ [])) ++ zeros more)
  fits : last.used ≤ 56
  count : more + (56 - last.used) ≡ (119 - length m % 64) % 64

late_zeros :
    (blocks used size : ℕ)
    → size + 1 ≡ 64 * blocks + used
    → used ≤ 64
    → 56 < used
    → 64 - used + 56 ≡ (119 - size % 64) % 64
late_zeros blocks used size e le lt = omega (arith, e, le, lt)

early_zeros :
    (blocks used size : ℕ)
    → size + 1 ≡ 64 * blocks + used
    → used ≤ 56
    → 0 < used
    → 0 + (56 - used) ≡ (119 - size % 64) % 64
early_zeros blocks used size e le lt = omega (arith, e, le, lt)

end_block-Ended : (h : Sha256) (m : Bytes) → Holds h m → Ended (end_block h) m
unfolding end_block
end_block-Ended h m r =
    let f = Holds-Filled h m 128 r in
    let total : length m + 1 ≡ 64 * f.blocks + length f.pending = omega (
      arith,
      length-append m (128 ∷ []),
      ap length f.split,
      length-append f.whole f.pending,
      f.aligned,
    ) in
    elim (Bool-cases (ltb 56 (h.used + 1))) [
      | inl e ↦
          let n = 64 - (h.used + 1) in
          let filled : fill (set h.block h.used 128) (h.used + 1) 64 ≡ f.pending ++ zeros n =
            ap (λ s. fill s (h.used + 1) 64) f.block
            ∙ fill-append f.pending f.old (h.used + 1) 64 f.used
            ∙ ap (λ s. f.pending ++ (zeros n ++ s))
                (drop-length (f.pending ++ f.old) 64
                  (omega (arith, length-append f.pending f.old, f.size)))
            ∙ ap (λ s. f.pending ++ s) (append-nil (zeros n)) in
          let full : length (f.pending ++ zeros n) ≡ 64 =
            omega (arith, length-append f.pending (zeros n), length-zeros n, f.used, f.size) in
          let whole : (m ++ (128 ∷ [])) ++ zeros n ≡ f.whole ++ (f.pending ++ zeros n) =
            ap (λ s. s ++ zeros n) f.split ∙ append_assoc f.whole f.pending (zeros n) in
          rw e (record {
            more = n;
            holds =
                emptied _ ((m ++ (128 ∷ [])) ++ zeros n) (f.blocks + 1)
                  (rw (whole, filled) (Hashes-snoc (f.pending ++ zeros n) full f.hashed))
                  (ap length filled ∙ full) refl
                  (ap length whole
                    ∙ omega (arith, length-append f.whole (f.pending ++ zeros n), full, f.aligned));
            fits = omega arith;
            count =
                late_zeros f.blocks (h.used + 1) (length m) (omega (arith, total, f.used))
                  (omega (arith, f.used, f.size)) (ground arith);
          })
      | inr e ↦ rw e (record {
        more = 0;
        holds = record {
          whole = f.whole;
          pending = f.pending;
          old = f.old;
          blocks = f.blocks;
          split = append-nil (m ++ (128 ∷ [])) ∙ f.split;
          hashed = f.hashed;
          block = f.block;
          size = f.size;
          used = f.used;
          room = ground (arith, f.used);
          aligned = f.aligned;
        };
        fits = ground arith;
        count =
            early_zeros f.blocks (h.used + 1) (length m) (omega (arith, total, f.used))
              (ground arith) (omega arith);
      })
    ]

-- The padding of a message that an ended block leaves to its last block.
padding-split :
    (m : Bytes) (more later bits : ℕ)
    → more + later ≡ (119 - length m % 64) % 64
    → bits ≡ (length m * 8) % 2 ^ 64
    → ((m ++ (128 ∷ [])) ++ zeros more) ++ (zeros later ++ big_endian 8 bits)
      ≡ m ++ padding (length m)
padding-split m more later bits e eb =
    append_assoc (m ++ (128 ∷ [])) (zeros more) (zeros later ++ big_endian 8 bits)
    ∙ append_assoc m (128 ∷ []) (zeros more ++ (zeros later ++ big_endian 8 bits))
    ∙ ap (λ s. m ++ (128 ∷ s))
        (sym (append_assoc (zeros more) (zeros later) (big_endian 8 bits))
          ∙ ap₂ (λ z b. z ++ big_endian 8 b) (zeros-append more later ∙ ap zeros e) eb)

-- The last block, with the size in it.
last_block :
    (last : Sha256) (m : Bytes) (bits : ℕ) (r : Holds last m)
    → last.used ≤ 56
    → Hashes initial_state
        (m ++ (zeros (56 - last.used) ++ big_endian 8 bits))
        (compress last.state (put_size 8 0 bits (fill last.block last.used 56)))
last_block last m bits r fits =
    let n = 56 - last.used in
    let tail = drop 56 (r.pending ++ r.old) in
    let front = r.pending ++ zeros n in
    let size : length front ≡ 56 =
      omega (arith, length-append r.pending (zeros n), length-zeros n, r.used, fits) in
    let eight : length tail ≡ 8 =
      omega (arith, length-drop 56 (r.pending ++ r.old), length-append r.pending r.old, r.size) in
    let filled : fill last.block last.used 56 ≡ front ++ tail =
      ap (λ s. fill s last.used 56) r.block
      ∙ fill-append r.pending r.old last.used 56 r.used
      ∙ sym (append_assoc r.pending (zeros n) tail) in
    let block : put_size 8 0 bits (fill last.block last.used 56) ≡ front ++ big_endian 8 bits =
      ap (put_size 8 0 bits) filled
      ∙ put_size-append 8 0 bits front tail size (omega arith)
      ∙ ap (λ s. front ++ s) (put_tail-eight bits tail eight) in
    let whole : m ++ (zeros n ++ big_endian 8 bits) ≡ r.whole ++ (front ++ big_endian 8 bits) =
      ap (λ s. s ++ (zeros n ++ big_endian 8 bits)) r.split
      ∙ append_assoc r.whole r.pending (zeros n ++ big_endian 8 bits)
      ∙ ap (λ s. r.whole ++ s) (sym (append_assoc r.pending (zeros n) (big_endian 8 bits))) in
    rw (whole, block)
      (Hashes-snoc (front ++ big_endian 8 bits)
        (length-append front (big_endian 8 bits) ∙ omega (arith, size, length-big_endian 8 bits))
        r.hashed)

bits_of_size : (bytes size : ℕ) → bytes ≡ size % 2 ^ 64 → (bytes * 8) % 2 ^ 64 ≡ (size * 8) % 2 ^ 64
bits_of_size bytes size e = omega (arith, e)

pub finish-IsDigest :
    (h : Sha256) (m : Bytes) → Holds h m → h.bytes ≡ length m % 2 ^ 64 → IsDigest m (finish h)
unfolding finish
finish-IsDigest h m r e =
    let ended = end_block-Ended h m r in
    let last = end_block h in
    let bits = (h.bytes * 8) % 2 ^ 64 in
    (
      compress last.state (put_size 8 0 bits (fill last.block last.used 56)),
      subst
          (λ s.
            Hashes initial_state s
              (compress last.state (put_size 8 0 bits (fill last.block last.used 56))))
          (padding-split m ended.more (56 - last.used) bits ended.count
            (bits_of_size h.bytes (length m) e))
          (last_block last ((m ++ (128 ∷ [])) ++ zeros ended.more) bits ended.holds ended.fits),
      refl,
    )
