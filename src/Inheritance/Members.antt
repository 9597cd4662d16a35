-- ===== src/Inheritance/Members.antt =====
-- The lookups and the counts of fields, enum members and methods of src/SemanticInheritance.cpp.
use simp.Base.{
  ℕ, zero, suc, Bool, true, false, not, ◌&&◌, ◌||◌, List, [], ◌∷◌, Bytes, Option, none, some, ◌==◌,
  equal, if◌then◌else◌,
}
use simp.Base.Tables.{find, case_option}
use simp.Ast.Declarations.{
  FieldDeclaration, EnumMemberDeclaration, MethodDeclaration, ClassDeclaration,
}
use simp.Inheritance.Classes.{Analyzer, Base, bases_of}
use simp.Inheritance.Walks.{Walk, walked, exhausted, ◌>>=◌, Visit, Enters, skips, mark, count_bases}
use simp.Inheritance.Access.{
  MethodPointer, base_path_accessible, member_accessible, method_access, field_access, enum_access,
}

abbrev is_some : {A : Type 0} → Option A → Bool
is_some none = false
is_some (some x) = true

-- The first declaration of a name.
unfoldable pub field_of : Bytes → List FieldDeclaration → Option FieldDeclaration
field_of name [] = none
field_of name (d ∷ ds) = let rest = field_of name ds in if equal d.name name then some d else rest

unfoldable pub enum_member_of : Bytes → List EnumMemberDeclaration → Option EnumMemberDeclaration
enum_member_of name [] = none
enum_member_of name (d ∷ ds) =
    let rest = enum_member_of name ds in if equal d.name name then some d else rest

-- The first method of a name that is no constructor, where the methods behind `i` stand.
unfoldable pub method_of : Bytes → Bytes → ℕ → List MethodDeclaration → Option MethodPointer
method_of owner name i [] = none
method_of owner name i (m ∷ ms) =
    let rest = method_of owner name (suc i) ms in
    if equal m.name name && not m.constructor
    then some (record { owner = owner; index = i; method = m })
    else rest

-- How many declarations have a name.
unfoldable pub fields_named : Bytes → List FieldDeclaration → ℕ
fields_named name [] = 0
fields_named name (d ∷ ds) =
    let rest = fields_named name ds in if equal d.name name then suc rest else rest

unfoldable pub enum_members_named : Bytes → List EnumMemberDeclaration → ℕ
enum_members_named name [] = 0
enum_members_named name (d ∷ ds) =
    let rest = enum_members_named name ds in if equal d.name name then suc rest else rest

-- `declaredHere`, which counts constructors.
unfoldable pub declares : Bytes → Bool → ClassDeclaration → Bool
declares name true c = is_some (method_access name c.methods)
declares name false c =
    is_some (field_access name c.fields) || is_some (enum_access name c.enum_members)

-- `hasMember`, which does not.
unfoldable pub has_member : Bytes → Bool → ClassDeclaration → Bool
has_member name true c = is_some (method_of c.name name 0 c.methods)
has_member name false c = declares name false c

abbrev one_if : Bool → ℕ
one_if b = if b then 1 else 0

abbrev pub enters_all : Enters
enters_all b c = walked true

module _ (a : Analyzer) where
  -- A base through which a field can be read.
  unfoldable pub enters_readable : ℕ → Bytes → ClassDeclaration → Enters
  enters_readable f name current b c =
      if base_path_accessible a current (b.name ∷ [])
      then member_accessible a f c name false
      else walked false

  -- The loop of `findField` and `findEnumMember`, which ends when a second member is found.
  unfoldable pub find_bases :
      {A : Type 0}
      → Enters
      → Visit (Option A)
      → List Base
      → Option A
      → List Bytes
      → Walk (Option A × List Bytes)
  find_bases enters visit [] result seen = walked (result, seen)
  find_bases enters visit (b ∷ bases) result seen =
      let skipped = find_bases enters visit bases result seen in
      case_option (find b.name a.classes) skipped λ c. enters b c >>= λ entered.
      if not entered || skips a.classes b seen
      then skipped
      else (visit c (mark a.classes b seen) >>= λ (candidate, seen').
          case_option candidate (find_bases enters visit bases result seen') λ found.
            case_option result (find_bases enters visit bases (some found) seen')
              λ first. walked (none, seen'))

  unfoldable pub visit_member :
      {A : Type 0} → Bytes → (ClassDeclaration → Option A) → ℕ → Visit (Option A)
  visit_member name own zero current seen = exhausted
  visit_member name own (suc f) current seen =
      case_option (own current)
        (find_bases (enters_readable f name current) (visit_member name own f) (bases_of current)
          none seen)
        λ found. walked (some found, seen)

  unfoldable pub find_field : ℕ → ClassDeclaration → Bytes → Walk (Option FieldDeclaration)
  find_field f declaration name =
      visit_member name (λ c. field_of name c.fields) f declaration [] >>= λ (found, _).
      walked found

  unfoldable pub find_enum_member :
      ℕ → ClassDeclaration → Bytes → Walk (Option EnumMemberDeclaration)
  find_enum_member f declaration name =
      visit_member name (λ c. enum_member_of name c.enum_members) f declaration [] >>= λ (found, _).
      walked found

  -- `countFields`, `countEnumMembers` and `countMethods`, which differ in what they count.
  unfoldable pub visit_count : (ClassDeclaration → ℕ) → ℕ → Visit ℕ
  visit_count own zero current seen = exhausted
  visit_count own (suc f) current seen =
      if own current == 0
      then count_bases a.classes enters_all (visit_count own f) (bases_of current) seen
      else walked (own current, seen)

  abbrev count_of : (ClassDeclaration → ℕ) → ℕ → ClassDeclaration → Walk ℕ
  count_of own f declaration = visit_count own f declaration [] >>= λ (count, _). walked count

  unfoldable pub count_fields : ℕ → ClassDeclaration → Bytes → Walk ℕ
  count_fields f declaration name = count_of (λ c. fields_named name c.fields) f declaration

  unfoldable pub count_enum_members : ℕ → ClassDeclaration → Bytes → Walk ℕ
  count_enum_members f declaration name =
      count_of (λ c. enum_members_named name c.enum_members) f declaration

  unfoldable pub count_methods : ℕ → ClassDeclaration → Bytes → Walk ℕ
  count_methods f declaration name = count_of (λ c. one_if (has_member name true c)) f declaration

  abbrev enters_accessible : ClassDeclaration → Enters
  enters_accessible current b c = walked (base_path_accessible a current (b.name ∷ []))

  abbrev pub count_if_accessible : ℕ → ClassDeclaration → Bytes → Bool → Walk ℕ
  count_if_accessible f c name is_method =
      member_accessible a f c name is_method >>= λ accessible. walked (one_if accessible)

  -- The lambda `visit` of `accessibleMemberCount`.
  unfoldable pub visit_accessible : Bytes → Bool → ℕ → Visit ℕ
  visit_accessible name is_method zero current seen = exhausted
  visit_accessible name is_method (suc f) current seen =
      if has_member name is_method current
      then (count_if_accessible (suc f) current name is_method >>= λ count. walked (count, seen))
      else count_bases a.classes (enters_accessible current) (visit_accessible name is_method f)
          (bases_of current) seen

  unfoldable pub accessible_member_count : ℕ → ClassDeclaration → Bytes → Bool → Walk ℕ
  accessible_member_count zero declaration name is_method = exhausted
  accessible_member_count (suc f) declaration name is_method =
      if declares name is_method declaration
      then count_if_accessible (suc f) declaration name is_method
      else (count_bases a.classes (enters_accessible declaration)
            (visit_accessible name is_method f) (bases_of declaration) []
          >>= λ (count, _). walked count)
