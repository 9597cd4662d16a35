-- ===== src/Inheritance/Methods.antt =====
-- `findMethod`, `findOverloads`, `virtualBaseNames` and `inheritedFields` of
-- src/SemanticInheritance.cpp.
use simp.Base.{
  ℕ, zero, suc, Bool, true, false, not, ◌&&◌, List, [], ◌∷◌, ◌++◌, Bytes, Option, none, some, ◌==◌,
  equal, if◌then◌else◌,
}
use simp.Base.Tables.{Table, find, is_member, case_option}
use simp.Ast.Declarations.{FieldDeclaration, MethodDeclaration, ClassDeclaration}
use simp.Mangling.Methods.{same_parameter_types}
use simp.Inheritance.Classes.{Analyzer, Base, bases_of}
use simp.Inheritance.Walks.{Walk, walked, exhausted, ◌>>=◌}
use simp.Inheritance.Access.{MethodPointer, base_path_accessible}
use simp.Inheritance.Members.{method_of, accessible_member_count}

module _ (a : Analyzer) where
  -- The loop of `findMethod`, which goes on in the first base that has the method.
  unfoldable pub method_bases :
      ℕ
      → (ClassDeclaration → Walk (Option MethodPointer))
      → ClassDeclaration
      → Bytes
      → List Bytes
      → Walk (Option MethodPointer)
  method_bases f visit declaration name [] = walked none
  method_bases f visit declaration name (base ∷ bases) =
      let rest = method_bases f visit declaration name bases in
      case_option (find base a.classes) rest λ c.
        if base_path_accessible a declaration (base ∷ [])
        then (accessible_member_count a f c name true >>= λ count.
            if count == 0 then rest else visit c)
        else rest

  unfoldable pub find_method : Bytes → ℕ → ClassDeclaration → Walk (Option MethodPointer)
  find_method name zero declaration = exhausted
  find_method name (suc f) declaration =
      case_option (method_of declaration.name name 0 declaration.methods)
        (accessible_member_count a (suc f) declaration name true >>= λ count.
          if count == 1
          then method_bases f (find_method name f) declaration name declaration.base_class_names
          else walked none)
        λ found. walked (some found)

-- The lambda `add`.
unfoldable pub has_overload : MethodPointer → List MethodPointer → Bool
has_overload candidate [] = false
has_overload candidate (existing ∷ found) =
    let rest = has_overload candidate found in
    if same_parameter_types existing.method candidate.method then true else rest

unfoldable pub add_overload : MethodPointer → List MethodPointer → List MethodPointer
add_overload candidate found =
    if has_overload candidate found then found else found ++ candidate ∷ []

-- The methods that the loop of `findOverloads` adds.
abbrev pub is_overload : Bytes → MethodDeclaration → Bool
is_overload name m = equal m.name name && not m.constructor && not m.destructor

abbrev pub pointer : Bytes → ℕ → MethodDeclaration → MethodPointer
pointer owner i m = record { owner = owner; index = i; method = m }

unfoldable pub add_methods :
    Bytes → Bytes → ℕ → List MethodDeclaration → List MethodPointer → List MethodPointer
add_methods owner name i [] found = found
add_methods owner name i (m ∷ ms) found =
    let candidate = pointer owner i m in
    add_methods owner name (suc i) ms
      (if is_overload name m then add_overload candidate found else found)

-- `result` and `seen`.
abbrev pub VirtualNames : Type 0
VirtualNames = List Bytes × List Bytes

module _ (classes : Table ClassDeclaration) where
  -- The loop over the bases that hands on what was collected.
  unfoldable pub each_base :
      {S : Type 0} → (ClassDeclaration → S → Walk S) → List Bytes → S → Walk S
  each_base visit [] s = walked s
  each_base visit (base ∷ bases) s =
      let skipped = each_base visit bases s in
      case_option (find base classes) skipped λ c. visit c s >>= λ s'. each_base visit bases s'

  unfoldable pub visit_overloads :
      Bytes → ℕ → ClassDeclaration → List MethodPointer → Walk (List MethodPointer)
  visit_overloads name zero current found = exhausted
  visit_overloads name (suc f) current found =
      each_base (visit_overloads name f) current.base_class_names
        (add_methods current.name name 0 current.methods found)

  unfoldable pub find_overloads : ℕ → ClassDeclaration → Bytes → Walk (List MethodPointer)
  find_overloads f declaration name = visit_overloads name f declaration []

  unfoldable pub virtual_bases :
      (ClassDeclaration → VirtualNames → Walk VirtualNames)
      → List Base
      → VirtualNames
      → Walk VirtualNames
  virtual_bases visit [] s = walked s
  virtual_bases visit (b ∷ bases) (result, seen) =
      let skipped = virtual_bases visit bases (result, seen) in
      case_option (find b.name classes) skipped λ c.
        if b.is_virtual
        then if is_member b.name seen
          then skipped
          else (visit c (result, b.name ∷ seen) >>= λ (result', seen').
              virtual_bases visit bases (result' ++ b.name ∷ [], seen'))
        else (visit c (result, seen) >>= λ s'. virtual_bases visit bases s')

  unfoldable pub visit_virtual : ℕ → ClassDeclaration → VirtualNames → Walk VirtualNames
  visit_virtual zero current s = exhausted
  visit_virtual (suc f) current s = virtual_bases (visit_virtual f) (bases_of current) s

  unfoldable pub virtual_base_names : ℕ → ClassDeclaration → Walk (List Bytes)
  virtual_base_names f declaration =
      visit_virtual f declaration ([], []) >>= λ (result, _). walked result

  unfoldable pub inherited_fields : ℕ → ClassDeclaration → Walk (List FieldDeclaration)
  inherited_fields zero declaration = exhausted
  inherited_fields (suc f) declaration =
      each_base (λ c fields. inherited_fields f c >>= λ inherited. walked (fields ++ inherited))
        declaration.base_class_names []
      >>= λ fields. walked (fields ++ declaration.fields)
