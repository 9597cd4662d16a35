-- ===== src/Packages/Split.antt =====
-- `std::string::find` of a character with the `substr` calls around it: a text cut at the first
-- occurrence, and at every occurrence.
use simp.Base.{
  ℕ, false, Option, none, some, List, [], ◌∷◌, ◌++◌, ◌≡◌, inl, inr, refl, sym, ap, ap₂, ◌∙◌, arith,
  ◌==◌, if◌then◌else◌, Bool-cases, Bytes, All,
}

-- What stands before the first `c`, and behind it if there is one.
unfoldable pub cut : ℕ → Bytes → Bytes × Option Bytes
cut c [] = ([], none)
cut c (x ∷ xs) =
    let (before, behind) = cut c xs in if x == c then ([], some xs) else (x ∷ before, behind)

abbrev cons_head : ℕ → List Bytes → List Bytes
cons_head x [] = (x ∷ []) ∷ []
cons_head x (p ∷ ps) = (x ∷ p) ∷ ps

-- The parts between the occurrences of `c`.
unfoldable pub split_on : ℕ → Bytes → List Bytes
split_on c [] = [] ∷ []
split_on c (x ∷ xs) = let rest = split_on c xs in if x == c then [] ∷ rest else cons_head x rest

-- The text with `c` between the parts.
abbrev pub join_with : ℕ → List Bytes → Bytes
join_with c [] = []
join_with c (p ∷ []) = p
join_with c (p ∷ q ∷ ps) = p ++ (c ∷ join_with c (q ∷ ps))

join_with-cons_head :
    (c x : ℕ) (ps : List Bytes) → join_with c (cons_head x ps) ≡ x ∷ join_with c ps
join_with-cons_head c x [] = refl
join_with-cons_head c x (p ∷ []) = refl
join_with-cons_head c x (p ∷ q ∷ ps) = refl

data IsCons : List Bytes → Type 0 where
  is_cons : (p : Bytes) (ps : List Bytes) → IsCons (p ∷ ps)

cons_head-IsCons : (x : ℕ) (ps : List Bytes) → IsCons (cons_head x ps)
cons_head-IsCons x [] = is_cons _ _
cons_head-IsCons x (p ∷ ps) = is_cons _ _

split_on-IsCons : (c : ℕ) (s : Bytes) → IsCons (split_on c s)
unfolding split_on
split_on-IsCons c [] = is_cons _ _
split_on-IsCons c (x ∷ xs) = elim (Bool-cases (x == c)) [
  | inl h ↦ rw h (is_cons _ _)
  | inr h ↦ rw h (cons_head-IsCons x (split_on c xs))
]

join_with-nil_cons :
    (c : ℕ) {ps : List Bytes} → IsCons ps → join_with c ([] ∷ ps) ≡ c ∷ join_with c ps
join_with-nil_cons c (is_cons p ps) = refl

pub join_with-split_on : (c : ℕ) (s : Bytes) → join_with c (split_on c s) ≡ s
unfolding split_on
join_with-split_on c [] = refl
join_with-split_on c (x ∷ xs) = elim (Bool-cases (x == c)) [
  | inl h ↦ rw h (
      join_with-nil_cons c (split_on-IsCons c xs)
      ∙ ap₂ (λ y ys. y ∷ ys) (ground arith) (join_with-split_on c xs))
  | inr h ↦ rw h (join_with-cons_head c x (split_on c xs) ∙ ap (◌∷◌ x) (join_with-split_on c xs))
]

-- Parts tell texts apart.
pub split_on-injective : (c : ℕ) (s t : Bytes) → split_on c s ≡ split_on c t → s ≡ t
split_on-injective c s t e =
    sym (join_with-split_on c s) ∙ ap (join_with c) e ∙ join_with-split_on c t

-- The cut of a text that is put together around a `c`.
pub cut-append :
    (c : ℕ) (s t : Bytes) → All (λ x. (x == c) ≡ false) s → cut c (s ++ c ∷ t) ≡ (s, some t)
unfolding cut
cut-append c [] t h = ground arith
cut-append c (x ∷ s) t (hx, h) = rw hx (ap (λ r. (x ∷ r.0, r.1)) (cut-append c s t h))

pub cut-none : (c : ℕ) (s : Bytes) → All (λ x. (x == c) ≡ false) s → cut c s ≡ (s, none)
unfolding cut
cut-none c [] h = refl
cut-none c (x ∷ s) (hx, h) = rw hx (ap (λ r. (x ∷ r.0, r.1)) (cut-none c s h))

-- A text is what its cut says.
abbrev pub uncut : ℕ → Bytes → Option Bytes → Bytes
uncut c before none = before
uncut c before (some behind) = before ++ (c ∷ behind)

uncut-cons :
    (c x : ℕ) (before : Bytes) (behind : Option Bytes)
    → uncut c (x ∷ before) behind ≡ x ∷ uncut c before behind
uncut-cons c x before none = refl
uncut-cons c x before (some t) = refl

pub uncut-cut : (c : ℕ) (s : Bytes) → uncut c (cut c s).0 (cut c s).1 ≡ s
unfolding cut
uncut-cut c [] = refl
uncut-cut c (x ∷ xs) = elim (Bool-cases (x == c)) [
  | inl h ↦ rw h (ap (λ y. y ∷ xs) (ground arith))
  | inr h ↦ rw h (uncut-cons c x (cut c xs).0 (cut c xs).1 ∙ ap (◌∷◌ x) (uncut-cut c xs))
]
