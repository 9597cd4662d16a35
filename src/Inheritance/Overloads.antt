-- ===== src/Inheritance/Overloads.antt =====
-- The choice among viable candidates in `selectOverload` of src/SemanticInheritance.cpp.
use simp.Base.{
  ℕ, Bool, true, false, not, ◌&&◌, List, [], ◌∷◌, Option, none, some, ◌==◌, ltb, leb, equal,
  if◌then◌else◌,
}
use simp.Inheritance.Access.{MethodPointer}

-- A candidate with the ranks of its arguments.
pub record Viable : Type 0 where
  pub candidate : MethodPointer
  pub ranks : List ℕ

-- `==` of two pointers.
unfoldable pub same_pointer : MethodPointer → MethodPointer → Bool
same_pointer p q = equal p.owner q.owner && p.index == q.index

-- The loop over the indices of the ranks. All candidates have one for each argument.
unfoldable pub no_worse : List ℕ → List ℕ → Bool
no_worse (x ∷ xs) (y ∷ ys) = let rest = no_worse xs ys in if leb x y then rest else false
no_worse _ _ = true

unfoldable pub strictly_better : List ℕ → List ℕ → Bool
strictly_better (x ∷ xs) (y ∷ ys) =
    let rest = strictly_better xs ys in if ltb x y then true else rest
strictly_better _ _ = false

-- Whether `other` dominates `v`.
unfoldable pub dominates : Viable → Viable → Bool
dominates other v =
    not (same_pointer v.candidate other.candidate)
    && no_worse other.ranks v.ranks
    && strictly_better other.ranks v.ranks

unfoldable pub is_dominated : Viable → List Viable → Bool
is_dominated v [] = false
is_dominated v (other ∷ others) =
    let rest = is_dominated v others in if dominates other v then true else rest

unfoldable pub best_of : List Viable → List Viable → List MethodPointer
best_of viable [] = []
best_of viable (v ∷ vs) =
    let rest = best_of viable vs in if is_dominated v viable then rest else v.candidate ∷ rest

-- The end of the function: the candidate, and `ambiguous`.
abbrev pub sole : List MethodPointer → Option MethodPointer × Bool
sole (best ∷ []) = (some best, false)
sole _ = (none, true)

unfoldable pub choose : List Viable → Option MethodPointer × Bool
choose [] = (none, false)
choose (v ∷ vs) = sole (best_of (v ∷ vs) (v ∷ vs))
