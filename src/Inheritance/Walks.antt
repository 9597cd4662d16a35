-- ===== src/Inheritance/Walks.antt =====
-- The recursion over the bases of a class that the functions of src/SemanticInheritance.cpp share.
use simp.Base.{Bool, true, false, List, [], ◌∷◌, Bytes, if◌then◌else◌, ◌+◌, ℕ, ◌&&◌, ◌||◌, not}
use simp.Base.Tables.{Table, find, is_member, case_option}
use simp.Ast.Declarations.{ClassDeclaration}
use simp.Inheritance.Classes.{Base}

-- The fuel of a walk is the number of levels of base classes that it may go up. `exhausted` has no
-- counterpart in the program.
pub data Walk (A : Type 0) : Type 0 where
  walked : A → Walk A
  exhausted : Walk A

infixl 5 ◌>>=◌
abbrev pub ◌>>=◌ : {A B : Type 0} → Walk A → (A → Walk B) → Walk B
walked a >>= f = f a
exhausted >>= f = exhausted

-- A walk over one class, with the names in `seenVirtual`.
abbrev pub Visit : Type 0 → Type 0
Visit A = ClassDeclaration → List Bytes → Walk (A × List Bytes)

-- Whether the search goes up to a base.
abbrev pub Enters : Type 0
Enters = Base → ClassDeclaration → Walk Bool

module _ (classes : Table ClassDeclaration) where
  -- The loop that stops at the first base in which the search succeeds.
  unfoldable pub any_base : (Base → ClassDeclaration → Walk Bool) → List Base → Walk Bool
  any_base visit [] = walked false
  any_base visit (b ∷ bases) =
      let rest = any_base visit bases in
      case_option (find b.name classes) rest
        λ c. visit b c >>= λ found. if found then walked true else rest

  -- A virtual base is entered once.
  abbrev pub skips : Base → List Bytes → Bool
  skips b seen = b.is_virtual && is_member b.name seen

  abbrev pub mark : Base → List Bytes → List Bytes
  mark b seen = if b.is_virtual then b.name ∷ seen else seen

  -- The loop that adds up the counts of the bases.
  unfoldable pub count_bases : Enters → Visit ℕ → List Base → List Bytes → Walk (ℕ × List Bytes)
  count_bases enters visit [] seen = walked (0, seen)
  count_bases enters visit (b ∷ bases) seen =
      let skipped = count_bases enters visit bases seen in
      case_option (find b.name classes) skipped λ c. enters b c >>= λ entered.
      if not entered || skips b seen
      then skipped
      else (visit c (mark b seen) >>= λ (count, seen').
          count_bases enters visit bases seen' >>= λ (more, seen''). walked (count + more, seen''))
