-- ===== src/Inheritance/Dominance.antt =====
-- Which candidates dominate others in `selectOverload` of src/SemanticInheritance.cpp.
use simp.Base.{
  ℕ, zero, suc, ◌<◌, ◌≤◌, ◌≡◌, ◌↔◌, refl, sym, ◌∙◌, Bool, true, false, ◌&&◌, List, [], ◌∷◌, ◌==◌,
  ==_iff, ltb, leb, equal, equal_iff, length, get_or, All, In, subst, Bool-cases, inl, inr, arith,
}
use simp.Inheritance.Access.{MethodPointer}
use simp.Inheritance.Overloads.{
  Viable, same_pointer, no_worse, strictly_better, dominates, is_dominated,
}

-- The ranks of every argument are no worse, and those of one are better.
abbrev pub AreBetter : List ℕ → List ℕ → Type 0
AreBetter xs ys =
    ((i : ℕ) → i < length ys → get_or xs i 0 ≤ get_or ys i 0)
    × ((i : ℕ) × (i < length ys) × (get_or xs i 0 < get_or ys i 0))

-- One address is one owner and one index.
abbrev pub AreSame : MethodPointer → MethodPointer → Type 0
AreSame p q = (p.owner ≡ q.owner) × (p.index ≡ q.index)

abbrev pub Dominates : Viable → Viable → Type 0
Dominates other v = (¬ AreSame v.candidate other.candidate) × AreBetter other.ranks v.ranks

and-true : (a b : Bool) → a && b ≡ true → (a ≡ true) × (b ≡ true)
and-true a b h = ground arith

same_pointer_iff : (p q : MethodPointer) → (same_pointer p q ≡ true) ↔ AreSame p q
unfolding same_pointer
same_pointer_iff p q = (
  λ e.
      let (o, i) = and-true (equal p.owner q.owner) (p.index == q.index) e in
      ((equal_iff p.owner q.owner).0 o, (==_iff p.index q.index).0 i),
  λ (o, i). rw ((equal_iff p.owner q.owner).1 o, (==_iff p.index q.index).1 i) refl,
)

no_worse_iff :
    (xs ys : List ℕ)
    → length xs ≡ length ys
    → (no_worse xs ys ≡ true) ↔ ((i : ℕ) → i < length ys → get_or xs i 0 ≤ get_or ys i 0)
unfolding no_worse
no_worse_iff [] [] l = (λ _ i k. absurd (omega (arith, k)), λ _. refl)
no_worse_iff [] (y ∷ ys) l = absurd (omega (arith, l))
no_worse_iff (x ∷ xs) [] l = absurd (omega (arith, l))
no_worse_iff (x ∷ xs) (y ∷ ys) l =
    let rest = no_worse_iff xs ys (omega (arith, l)) in
    elim (Bool-cases (leb x y)) [
      | inl e ↦ (
        λ k i. head-le x y xs ys e (rest.0 (rw e at k)) i,
        λ k. rw e (rest.1 λ i c. k (suc i) (omega (arith, c))),
      )
      | inr e ↦ (λ k. absurd (cc (rw e at k)), λ k. absurd (above x y e (k 0 (omega arith))))
    ]
  where
    head-le :
        (x y : ℕ) (xs ys : List ℕ)
        → leb x y ≡ true
        → ((i : ℕ) → i < length ys → get_or xs i 0 ≤ get_or ys i 0)
        → (i : ℕ) → i < length (y ∷ ys)
        → get_or (x ∷ xs) i 0 ≤ get_or (y ∷ ys) i 0
    head-le x y xs ys e k zero c = ground arith
    head-le x y xs ys e k (suc i) c = k i (omega (arith, c))

    above : (x y : ℕ) → leb x y ≡ false → ¬ x ≤ y
    above x y e c = ground arith

strictly_better_iff :
    (xs ys : List ℕ)
    → length xs ≡ length ys
    → (strictly_better xs ys ≡ true) ↔ ((i : ℕ) × (i < length ys) × (get_or xs i 0 < get_or ys i 0))
unfolding strictly_better
strictly_better_iff [] [] l = (λ e. absurd (cc e), λ (i, c, _). absurd (omega (arith, c)))
strictly_better_iff [] (y ∷ ys) l = absurd (omega (arith, l))
strictly_better_iff (x ∷ xs) [] l = absurd (omega (arith, l))
strictly_better_iff (x ∷ xs) (y ∷ ys) l =
    let rest = strictly_better_iff xs ys (omega (arith, l)) in
    elim (Bool-cases (ltb x y)) [
      | inl e ↦ (λ _. (0, omega arith, below x y e), λ _. rw e refl)
      | inr e ↦ (
        λ k. let (i, c, d) = rest.0 (rw e at k) in (suc i, omega (arith, c), d),
        λ (i, c, d). rw e (rest.1 (behind x y xs ys e i c d)),
      )
    ]
  where
    below : (x y : ℕ) → ltb x y ≡ true → x < y
    below x y e = ground arith

    behind :
        (x y : ℕ) (xs ys : List ℕ)
        → ltb x y ≡ false
        → (i : ℕ) → i < length (y ∷ ys)
        → get_or (x ∷ xs) i 0 < get_or (y ∷ ys) i 0
        → (j : ℕ) × (j < length ys) × (get_or xs j 0 < get_or ys j 0)
    behind x y xs ys e zero c d = absurd (ground arith)
    behind x y xs ys e (suc i) c d = (i, omega (arith, c), d)

dominates_iff :
    (other v : Viable)
    → length other.ranks ≡ length v.ranks
    → (dominates other v ≡ true) ↔ Dominates other v
unfolding dominates
dominates_iff other v l =
    let same = same_pointer_iff v.candidate other.candidate in
    let worse = no_worse_iff other.ranks v.ranks l in
    let better = strictly_better_iff other.ranks v.ranks l in
    elim (Bool-cases (same_pointer v.candidate other.candidate)) [
      | inl e ↦ (λ k. absurd (cc (rw e at k)), λ (n, _). absurd (n (same.0 e)))
      | inr e ↦ (
        λ k.
            let (a, b) =
              and-true (no_worse other.ranks v.ranks) (strictly_better other.ranks v.ranks)
                (rw e at k) in
            ((λ s. absurd (cc (same.1 s, e))), (worse.0 a, better.0 b)),
        λ (_, (a, b)). rw (e, worse.1 a, better.1 b) refl,
      )
    ]

-- All candidates have as many ranks.
abbrev pub HaveRanks : ℕ → List Viable → Type 0
HaveRanks n = All λ v. length v.ranks ≡ n

abbrev pub IsDominated : Viable → List Viable → Type 0
IsDominated v viable = (other : Viable) × In other viable × Dominates other v

pub is_dominated_iff :
    (n : ℕ) (v : Viable) (viable : List Viable)
    → length v.ranks ≡ n
    → HaveRanks n viable
    → (is_dominated v viable ≡ true) ↔ IsDominated v viable
unfolding is_dominated
is_dominated_iff n v [] l h = (λ e. absurd (cc e), λ (_, k, _). absurd k)
is_dominated_iff n v (o ∷ os) l h =
    let rest = is_dominated_iff n v os l h.1 in
    let here = dominates_iff o v (h.0 ∙ sym l) in
    elim (Bool-cases (dominates o v)) [
      | inl e ↦ (λ _. (o, inl refl, here.0 e), λ _. rw e refl)
      | inr e ↦ (
        λ k. let (p, i, d) = rest.0 (rw e at k) in (p, inr i, d),
        λ (p, i, d). rw e (elim i [
          | inl e' ↦ absurd (cc (here.1 (subst (λ x. Dominates x v) e' d), e))
          | inr i' ↦ rest.1 (p, i', d)
        ]),
      )
    ]
