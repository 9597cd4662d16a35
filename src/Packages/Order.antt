-- ===== src/Packages/Order.antt =====
-- Three-way comparisons: the negative, zero or positive `int` of a comparison is an `Ordering`.
use Prim.Native.Nat.{compare, Ordering, lt, eq, gt}
use simp.Base.{List, [], ◌∷◌, ◌≡◌, ◌⊎◌, inl, inr, refl, ap₂, arith}

-- The sign of the comparison the other way round.
abbrev pub flip : Ordering → Ordering
flip lt = gt
flip eq = eq
flip gt = lt

-- `if (const auto result = …; result != 0) return result;` and what follows it.
abbrev pub then_by : Ordering → Ordering → Ordering
then_by lt o = lt
then_by eq o = o
then_by gt o = gt

-- A comparison that is a total order.
pub record IsOrder {A : Type 0} (cmp : A → A → Ordering) : Type 0 where
  pub flips : (a b : A) → cmp b a ≡ flip (cmp a b)
  pub same : (a b : A) → cmp a b ≡ eq → a ≡ b
  pub chains : (a b c : A) → cmp a b ≡ lt → cmp b c ≡ lt → cmp a c ≡ lt

pub flip-eq : (o : Ordering) → o ≡ flip o → o ≡ eq
flip-eq lt e = cc
flip-eq eq e = refl
flip-eq gt e = cc

module _ {A : Type 0} {cmp : A → A → Ordering} (o : IsOrder cmp) where
  pub compare_self : (a : A) → cmp a a ≡ eq
  compare_self a = flip-eq (cmp a a) (o.flips a a)

-- Lexicographic order of lists; a proper prefix is smaller.
abbrev pub compare_lists : {A : Type 0} → (A → A → Ordering) → List A → List A → Ordering
compare_lists cmp [] [] = eq
compare_lists cmp [] (b ∷ bs) = lt
compare_lists cmp (a ∷ as') [] = gt
compare_lists cmp (a ∷ as') (b ∷ bs) = then_by (cmp a b) (compare_lists cmp as' bs)

pub compare-IsOrder : IsOrder compare
compare-IsOrder = record {
  flips = λ a b. ground arith;
  same = λ a b e. ground arith;
  chains = λ a b c e f. ground arith;
}

-- The first of two comparisons decides, unless it finds no difference.
abbrev pub compare_pairs :
    {A B : Type 0} → (A → A → Ordering) → (B → B → Ordering) → A × B → A × B → Ordering
compare_pairs f g p q = then_by (f p.0 q.0) (g p.1 q.1)

flip-then_by : (o p : Ordering) → then_by (flip o) (flip p) ≡ flip (then_by o p)
flip-then_by lt p = refl
flip-then_by eq p = refl
flip-then_by gt p = refl

pub Ordering-cases : (o : Ordering) → (o ≡ lt) ⊎ ((o ≡ eq) ⊎ (o ≡ gt))
Ordering-cases lt = inl refl
Ordering-cases eq = inr (inl refl)
Ordering-cases gt = inr (inr refl)

then_by-lt : (o p : Ordering) → then_by o p ≡ lt → (o ≡ lt) ⊎ ((o ≡ eq) × (p ≡ lt))
then_by-lt lt p h = inl refl
then_by-lt eq p h = inr (refl, h)
then_by-lt gt p h = cc

then_by-eq : (o p : Ordering) → then_by o p ≡ eq → (o ≡ eq) × (p ≡ eq)
then_by-eq lt p h = cc
then_by-eq eq p h = (refl, h)
then_by-eq gt p h = cc

module _ {A : Type 0} {f : A → A → Ordering} (o : IsOrder f) where
  -- The chain of a lexicographic comparison, with the rest compared by `p`, `q` and `r`.
  then_by-chains :
      (a b c : A) (p q r : Ordering)
      → (p ≡ lt → q ≡ lt → r ≡ lt)
      → then_by (f a b) p ≡ lt
      → then_by (f b c) q ≡ lt
      → then_by (f a c) r ≡ lt
  then_by-chains a b c p q r rest h k = elim (then_by-lt (f a b) p h) [
    | inl ab ↦ elim (then_by-lt (f b c) q k) [
      | inl bc ↦ rw (o.chains a b c ab bc)
      | inr (bc, _) ↦ rw (← o.same b c bc, ab)
    ]
    | inr (ab, p_lt) ↦ elim (then_by-lt (f b c) q k) [
      | inl bc ↦ rw (o.same a b ab, bc)
      | inr (bc, q_lt) ↦ rw (o.same a b ab, bc) (rest p_lt q_lt)
    ]
  ]

  pub compare_lists-IsOrder : IsOrder (compare_lists f)
  compare_lists-IsOrder = record { flips = flips; same = same; chains = chains }
    where
      flips : (s t : List A) → compare_lists f t s ≡ flip (compare_lists f s t)
      flips [] [] = refl
      flips [] (b ∷ t) = refl
      flips (a ∷ s) [] = refl
      flips (a ∷ s) (b ∷ t) =
          rw (o.flips a b, flips s t) (flip-then_by (f a b) (compare_lists f s t))

      same : (s t : List A) → compare_lists f s t ≡ eq → s ≡ t
      same [] [] h = refl
      same [] (b ∷ t) h = cc
      same (a ∷ s) [] h = cc
      same (a ∷ s) (b ∷ t) h =
          let (h0, h1) = then_by-eq (f a b) (compare_lists f s t) h in
          ap₂ (λ x y. x ∷ y) (o.same a b h0) (same s t h1)

      chains :
          (s t u : List A)
          → compare_lists f s t ≡ lt
          → compare_lists f t u ≡ lt
          → compare_lists f s u ≡ lt
      chains [] [] u h k = k
      chains [] (b ∷ t) [] h k = cc
      chains [] (b ∷ t) (c ∷ u) h k = refl
      chains (a ∷ s) [] u h k = cc
      chains (a ∷ s) (b ∷ t) [] h k = cc
      chains (a ∷ s) (b ∷ t) (c ∷ u) h k =
          then_by-chains a b c (compare_lists f s t) (compare_lists f t u) (compare_lists f s u)
            (chains s t u) h k

  pub compare_pairs-IsOrder :
      {B : Type 0} {g : B → B → Ordering} → IsOrder g → IsOrder (compare_pairs f g)
  compare_pairs-IsOrder {g} o' = record {
    flips = λ p q. rw (o.flips p.0 q.0, o'.flips p.1 q.1) (flip-then_by (f p.0 q.0) (g p.1 q.1));
    same = λ p q h.
        let (h0, h1) = then_by-eq (f p.0 q.0) (g p.1 q.1) h in
        ap₂ (λ x y. (x, y)) (o.same p.0 q.0 h0) (o'.same p.1 q.1 h1);
    chains = λ p q r.
        then_by-chains p.0 q.0 r.0 (g p.1 q.1) (g q.1 r.1) (g p.1 r.1) (o'.chains p.1 q.1 r.1);
  }

-- The order of `A` carried back along a function that tells values apart.
pub IsOrder-pull :
    {A B : Type 0} {f : B → B → Ordering} (key : A → B)
    → ((a b : A) → key a ≡ key b → a ≡ b)
    → IsOrder f
    → IsOrder (λ a b. f (key a) (key b))
IsOrder-pull key injective o = record {
  flips = λ a b. o.flips (key a) (key b);
  same = λ a b h. injective a b (o.same (key a) (key b) h);
  chains = λ a b c. o.chains (key a) (key b) (key c);
}
