-- ===== src/Inheritance/Chosen.antt =====
-- What `selectOverload` returns among viable candidates.
use simp.Base.{
  ℕ, ◌≡◌, refl, sym, ap, Bool, false, List, [], ◌∷◌, some, In, Bool-cases, ◌⊎◌, inl, inr, drop,
  subst,
}
use simp.Inheritance.Access.{MethodPointer}
use simp.Inheritance.Overloads.{Viable, is_dominated, best_of, sole, choose}
use simp.Inheritance.Dominance.{HaveRanks, IsDominated, is_dominated_iff}

module _ (n : ℕ) (viable : List Viable) (h : HaveRanks n viable) where
  best_none :
      (vs : List Viable)
      → HaveRanks n vs
      → best_of viable vs ≡ []
      → (w : Viable) → In w vs
      → IsDominated w viable
  unfolding best_of
  best_none [] hv e w k = absurd k
  best_none (v ∷ vs) hv e w k = elim (Bool-cases (is_dominated v viable)) [
    | inl d ↦ elim k [
      | inl e' ↦
          subst (λ x. IsDominated x viable) (sym e') ((is_dominated_iff n v viable hv.0 h).0 d)
      | inr k' ↦ best_none vs hv.1 (rw d at e) w k'
    ]
    | inr d ↦ absurd (cc (rw d at e))
  ]

  -- The candidate is viable, is dominated by none, and every other one is dominated.
  abbrev pub IsBest : List Viable → MethodPointer → Type 0
  IsBest vs p =
      (v : Viable) × In v vs
      × (v.candidate ≡ p)
      × (¬ IsDominated v viable)
      × ((w : Viable) → In w vs → (w ≡ v) ⊎ IsDominated w viable)

  IsBest-one :
      (vs : List Viable) (p : MethodPointer)
      → HaveRanks n vs
      → best_of viable vs ≡ p ∷ []
      → IsBest vs p
  unfolding best_of
  IsBest-one [] p hv e = absurd (cc e)
  IsBest-one (v ∷ vs) p hv e = elim (Bool-cases (is_dominated v viable)) [
    | inl d ↦
        let (b, i, same, top, rest) = IsBest-one vs p hv.1 (rw d at e) in
        (
          b,
          inr i,
          same,
          top,
          λ w k. elim k [
            | inl e' ↦ inr (
                subst (λ x. IsDominated x viable) (sym e')
                  ((is_dominated_iff n v viable hv.0 h).0 d))
            | inr k' ↦ rest w k'
          ],
        )
    | inr d ↦
        let e' : v.candidate ∷ best_of viable vs ≡ p ∷ [] = rw d at e in
        (
          v,
          inl refl,
          cc e',
          (λ k. absurd (cc ((is_dominated_iff n v viable hv.0 h).1 k, d))),
          λ w k. elim k [
            | inl same ↦ inl same
            | inr k' ↦ inr (best_none vs hv.1 (ap (drop 1) e') w k')
          ],
        )
  ]

sole-some :
    (best : List MethodPointer) (p : MethodPointer) (b : Bool)
    → sole best ≡ (some p, b)
    → (b ≡ false) × (best ≡ p ∷ [])
sole-some [] p b e = absurd (cc (ap (λ x. x.0) e))
sole-some (q ∷ []) p b e = (cc (ap (λ x. x.1) e), cc (ap (λ x. x.0) e))
sole-some (q ∷ r ∷ rs) p b e = absurd (cc (ap (λ x. x.0) e))

-- If all viable candidates have as many ranks and one is selected, then the call is not ambiguous,
-- the selected candidate is viable, no viable candidate dominates it, and every other one is
-- dominated by a viable one: its ranks are nowhere better and somewhere worse.
pub choose-IsBest :
    (n : ℕ) (viable : List Viable) (p : MethodPointer) (ambiguous : Bool)
    → HaveRanks n viable
    → choose viable ≡ (some p, ambiguous)
    → (ambiguous ≡ false)
      × ((v : Viable) × In v viable
          × (v.candidate ≡ p)
          × (¬ IsDominated v viable)
          × ((w : Viable) → In w viable → (w ≡ v) ⊎ IsDominated w viable))
unfolding choose
choose-IsBest n [] p b h e = absurd (cc (ap (λ x. x.0) e))
choose-IsBest n (v ∷ vs) p b h e =
    let (none_ambiguous, one) = sole-some (best_of (v ∷ vs) (v ∷ vs)) p b e in
    (none_ambiguous, IsBest-one n (v ∷ vs) h (v ∷ vs) p h one)
