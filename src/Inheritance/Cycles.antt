-- ===== src/Inheritance/Cycles.antt =====
-- The search for inheritance cycles in `SemanticAnalyzer::analyze` of src/SemanticAnalyzer.cpp.
use simp.Base.{
  ℕ, zero, suc, List, [], ◌∷◌, ◌++◌, Bytes, codes, equal, drop, length, if◌then◌else◌,
  SourceLocation,
}
use simp.Base.Tables.{is_member, case_option}
use simp.Base.Loaded.{Loaded, loaded, rejected, exhausted}
use simp.Ast.Expressions.{start_of_file}
use simp.Ast.Declarations.{ClassDeclaration}
use simp.Parser.Verdict.{Verdict, accepted, refused, ◌>>=◌}
use simp.Naming.Resolve.{Names, find_class}

-- The location of the first base. There are as many locations as names.
abbrev pub first_location : List SourceLocation → SourceLocation
first_location [] = start_of_file
first_location (l ∷ ls) = l

-- `pending` and `path`.
abbrev pub Search : Type 0
Search = List ClassDeclaration × List Bytes

abbrev pub cycle_message : Bytes → Bytes
cycle_message name = codes "inheritance cycle involving class '" ++ name ++ b'\'' ∷ []

-- An exception leaves the loop.
abbrev judge : Verdict Search → (Search → Loaded Unit) → Loaded Unit
judge (accepted s) next = next s
judge (refused l m) next = rejected l m

module _ (n : Names) (name : Bytes) where
  -- The loop over the bases of an ancestor.
  unfoldable pub cycle_bases :
      List Bytes → List SourceLocation → List ClassDeclaration → List Bytes → Verdict Search
  cycle_bases [] locations pending path = accepted (pending, path)
  cycle_bases (b ∷ bases) locations pending path =
      let known = cycle_bases bases (drop 1 locations) pending path in
      if is_member b path
      then if equal b name then refused (first_location locations) (cycle_message b) else known
      else (find_class n b (first_location locations) >>= λ found.
          case_option found (cycle_bases bases (drop 1 locations) pending (b ∷ path))
            λ c. cycle_bases bases (drop 1 locations) (c ∷ pending) (b ∷ path))

  -- The loop over `pending`, whose end is the front of the list.
  unfoldable pub cycle_loop : ℕ → Search → Loaded Unit
  cycle_loop zero s = exhausted
  cycle_loop (suc f) ([], path) = loaded tt
  cycle_loop (suc f) (ancestor ∷ pending, path) =
      judge (cycle_bases ancestor.base_class_names ancestor.base_locations pending path)
        (cycle_loop f)

-- Each class is pushed once.
unfoldable pub check_cycles : Names → ClassDeclaration → Loaded Unit
check_cycles n declaration =
    cycle_loop n declaration.name (suc (suc (length n.classes)))
      (declaration ∷ [], declaration.name ∷ [])
