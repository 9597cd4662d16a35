-- ===== src/Integrity/Buffer.antt =====
-- The buffer of the hash of src/PackageIntegrity.cpp holds the end of the message.
use simp.Base.{
  ℕ, zero, suc, ◌+◌, ◌*◌, ◌-◌, ◌≤◌, ◌<◌, List, [], ◌∷◌, ◌++◌, ◌≡◌, inl, inr, refl, sym, ap, subst,
  ◌∙◌, arith, ◌==◌, Bool-cases, Bytes, length, drop, take, length-append, append_assoc, append-nil,
}
use simp.Integrity.Sha256.{Sha256, set, zeros, initial_state, compress, initial, push}
use simp.Integrity.Digest.{Hashes, hashes_nil, hashes_block}

pub Hashes-snoc :
    {a b : List ℕ} {p : Bytes} (block : Bytes)
    → length block ≡ 64
    → Hashes a p b
    → Hashes a (p ++ block) (compress b block)
Hashes-snoc block e (hashes_nil state) =
    subst (λ s. Hashes state s (compress state block)) (append-nil block)
      (hashes_block block [] e (hashes_nil (compress state block)))
Hashes-snoc {a} {b} block e (hashes_block first rest e' h) =
    subst (λ s. Hashes a s (compress b block)) (sym (append_assoc first rest block))
      (hashes_block first (rest ++ block) e' (Hashes-snoc block e h))

-- Writing at the end of what a buffer holds.
pub set-append :
    (a : Bytes) (i : ℕ) (o x : ℕ) (b : Bytes) → i ≡ length a → set (a ++ (o ∷ b)) i x ≡ a ++ (x ∷ b)
set-append [] zero o x b e = refl
set-append [] (suc i) o x b e = ground arith
set-append (y ∷ a) zero o x b e = ground arith
set-append (y ∷ a) (suc i) o x b e = ap (◌∷◌ y) (set-append a i o x b (omega (arith, e)))

pub take-append : (a b : Bytes) (i : ℕ) → i ≡ length a → take i (a ++ b) ≡ a
take-append [] b zero e = refl
take-append [] b (suc i) e = ground arith
take-append (y ∷ a) b zero e = ground arith
take-append (y ∷ a) b (suc i) e = ap (◌∷◌ y) (take-append a b i (omega (arith, e)))

pub drop-length : (a : Bytes) (i : ℕ) → length a ≤ i → drop i a ≡ []
drop-length [] zero e = refl
drop-length [] (suc i) e = refl
drop-length (y ∷ a) zero e = ground arith
drop-length (y ∷ a) (suc i) e = drop-length a i (omega (arith, e))

pub length-drop : (i : ℕ) (a : Bytes) → length (drop i a) ≡ length a - i
length-drop zero a = omega arith
length-drop (suc i) [] = omega arith
length-drop (suc i) (x ∷ a) = length-drop i a ∙ omega arith

pub length-zeros : (n : ℕ) → length (zeros n) ≡ n
length-zeros zero = refl
length-zeros (suc n) = ap suc (length-zeros n)

pub zeros-append : (a b : ℕ) → zeros a ++ zeros b ≡ zeros (a + b)
zeros-append zero b = ap zeros {x = b} {y = 0 + b} (omega arith)
zeros-append (suc a) b =
    ap (◌∷◌ 0) (zeros-append a b) ∙ ap zeros {x = suc (a + b)} {y = suc a + b} (omega arith)

-- The message that the hash has taken in: whole blocks are compressed, and the rest stands at
-- the front of the buffer.
pub record Holds (h : Sha256) (m : Bytes) : Type 0 where
  pub whole : Bytes
  pub pending : Bytes
  pub old : Bytes
  pub blocks : ℕ
  pub split : m ≡ whole ++ pending
  pub hashed : Hashes initial_state whole h.state
  pub block : h.block ≡ pending ++ old
  pub size : length pending + length old ≡ 64
  pub used : h.used ≡ length pending
  pub room : length pending < 64
  pub aligned : length whole ≡ 64 * blocks

-- The buffer with one more byte, which need not be compressed yet.
pub record Filled (h : Sha256) (m : Bytes) (x : ℕ) : Type 0 where
  pub whole : Bytes
  pub pending : Bytes
  pub old : Bytes
  pub blocks : ℕ
  pub split : m ++ (x ∷ []) ≡ whole ++ pending
  pub hashed : Hashes initial_state whole h.state
  pub block : set h.block h.used x ≡ pending ++ old
  pub size : length pending + length old ≡ 64
  pub used : h.used + 1 ≡ length pending
  pub aligned : length whole ≡ 64 * blocks

fill-one :
    (h : Sha256) (m : Bytes) (x : ℕ) (whole pending old : Bytes) (blocks : ℕ)
    → m ≡ whole ++ pending
    → Hashes initial_state whole h.state
    → h.block ≡ pending ++ old
    → length pending + length old ≡ 64
    → h.used ≡ length pending
    → length pending < 64
    → length whole ≡ 64 * blocks
    → Filled h m x
fill-one h m x whole pending [] blocks e hashed b size used room aligned = ground arith
fill-one h m x whole pending (o ∷ old) blocks e hashed b size used room aligned = record {
  whole = whole;
  pending = pending ++ (x ∷ []);
  old = old;
  blocks = blocks;
  split = ap (λ s. s ++ (x ∷ [])) e ∙ append_assoc whole pending (x ∷ []);
  hashed = hashed;
  block =
      ap (λ s. set s h.used x) b
      ∙ set-append pending h.used o x old used
      ∙ sym (append_assoc pending (x ∷ []) old);
  size = omega (arith, length-append pending (x ∷ []), size);
  used = omega (arith, length-append pending (x ∷ []), used);
  aligned = aligned;
}

pub Holds-Filled : (h : Sha256) (m : Bytes) (x : ℕ) → Holds h m → Filled h m x
Holds-Filled h m x r =
    fill-one h m x r.whole r.pending r.old r.blocks r.split r.hashed r.block r.size r.used r.room
      r.aligned

-- The buffer with nothing in front.
pub emptied :
    (h : Sha256) (m : Bytes) (blocks : ℕ)
    → Hashes initial_state m h.state
    → length h.block ≡ 64
    → h.used ≡ 0
    → length m ≡ 64 * blocks
    → Holds h m
emptied h m blocks hashed size used aligned = record {
  whole = m;
  pending = [];
  old = h.block;
  blocks = blocks;
  split = sym (append-nil m);
  hashed = hashed;
  block = refl;
  size = omega (arith, size);
  used = used;
  room = omega arith;
  aligned = aligned;
}

length-nil : (old : Bytes) → length old ≡ 0 → old ≡ []
length-nil [] e = refl
length-nil (x ∷ old) e = ground arith

pub initial-Holds : Holds initial []
unfolding initial
initial-Holds = emptied initial [] 0 (hashes_nil initial_state) refl refl refl

pub push-Holds : (h : Sha256) (m : Bytes) (x : ℕ) → Holds h m → Holds (push h x) (m ++ (x ∷ []))
unfolding push
push-Holds h m x r =
    let f = Holds-Filled h m x r in
    elim (Bool-cases (h.used + 1 == 64)) [
      | inl e ↦
          let full : length f.pending ≡ 64 = ground (arith, f.used) in
          let none_left = length-nil f.old (omega (arith, full, f.size)) in
          let whole : set h.block h.used x ≡ f.pending =
            f.block ∙ ap (λ s. f.pending ++ s) none_left ∙ append-nil f.pending in
          rw e (
            emptied _ (m ++ (x ∷ [])) (f.blocks + 1)
              (rw (f.split, whole) (Hashes-snoc f.pending full f.hashed)) (ap length whole ∙ full)
              refl
              (ap length f.split ∙ omega (arith, length-append f.whole f.pending, full, f.aligned)))
      | inr e ↦ rw e (record {
        whole = f.whole;
        pending = f.pending;
        old = f.old;
        blocks = f.blocks;
        split = f.split;
        hashed = f.hashed;
        block = f.block;
        size = f.size;
        used = f.used;
        room = ground (arith, f.used, f.size);
        aligned = f.aligned;
      })
    ]
