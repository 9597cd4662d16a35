-- ===== src/Inheritance/Total.antt =====
-- About the fuel of the functions of src/SemanticInheritance.cpp on tables of classes.
use simp.Base.{ℕ, Bool, [], Bytes, some, ◌≡◌, length}
use simp.Base.Tables.{find}
use simp.Ast.Declarations.{ClassDeclaration}
use simp.Inheritance.Classes.{Analyzer, IsNamed}
use simp.Inheritance.Bounded.{Bounded, IsAcyclic, named-Bounded}
use simp.Inheritance.Access.{MethodPointer, member_accessible, member_accessible_through}
use simp.Inheritance.Members.{
  find_field, find_enum_member, count_fields, count_enum_members, count_methods,
  accessible_member_count,
}
use simp.Inheritance.Methods.{find_method, find_overloads, virtual_base_names, inherited_fields}
use simp.Inheritance.Assignable.{is_upcast}
use simp.Inheritance.Ends.{Ends, ends, Ends-bind, Ends-if, Ends-case}
use simp.Inheritance.Endings.{
  count_paths-Ends, find_path-Ends, visit_overloads-Ends, visit_virtual-Ends, inherited_fields-Ends,
  member_accessible-Ends, visit_through-Ends, visit_member-Ends, visit_count-Ends,
  accessible_member_count-Ends, find_method-Ends,
}

module _ (a : Analyzer) where
  upcast-Ends :
      (k : ℕ) (target : Bytes) (c : ClassDeclaration)
      → Bounded a.classes k c
      → Ends (is_upcast a k target c)
  unfolding is_upcast
  upcast-Ends k target c h = Ends-bind (count_paths-Ends a.classes target k c [] h) λ (count, _).
      Ends-if _ ends (
        Ends-bind (find_path-Ends a.classes target k c [] h)
          λ path. Ends-case path ends λ _ _. ends)

-- The searches for members, of which access, lookup and counts are made, those for methods and
-- overloads, and those for virtual bases, for inherited fields and for the way to a base, on `k`
-- levels.
abbrev pub SearchesEnd : Analyzer → ℕ → ClassDeclaration → Bytes → Bool → MethodPointer → Type 0
SearchesEnd a k c name is_method p =
    Ends (member_accessible a k c name is_method)
    × Ends (member_accessible_through a k c p)
    × Ends (find_field a k c name)
    × Ends (find_enum_member a k c name)
    × Ends (count_fields a k c name)
    × Ends (count_enum_members a k c name)
    × Ends (count_methods a k c name)
    × Ends (accessible_member_count a k c name is_method)
    × Ends (find_method a name k c)
    × Ends (find_overloads a.classes k c name)
    × Ends (virtual_base_names a.classes k c)
    × Ends (inherited_fields a.classes k c)
    × Ends (is_upcast a k name c)

-- In a table in which each class stands under its own name and none is above itself, the searches
-- from a class of the table keep within as many levels as there are classes.
pub searches-Ends :
    (a : Analyzer) (type : Bytes) (c : ClassDeclaration) (name : Bytes) (is_method : Bool)
    (p : MethodPointer)
    → IsNamed a.classes
    → IsAcyclic a.classes
    → find type a.classes ≡ some c
    → SearchesEnd a (length a.classes) c name is_method p
unfolding member_accessible_through find_field find_enum_member count_fields count_enum_members
    count_methods find_overloads virtual_base_names
searches-Ends a type c name is_method p h ha o =
    let k = length a.classes in
    let hc : Bounded a.classes k c = named-Bounded a.classes h ha type c o in
    (
      member_accessible-Ends a name is_method k c hc,
      visit_through-Ends a c p k c [] hc,
      Ends-bind (visit_member-Ends a name _ k c [] hc) (λ _. ends),
      Ends-bind (visit_member-Ends a name _ k c [] hc) (λ _. ends),
      Ends-bind (visit_count-Ends a _ k c [] hc) (λ _. ends),
      Ends-bind (visit_count-Ends a _ k c [] hc) (λ _. ends),
      Ends-bind (visit_count-Ends a _ k c [] hc) (λ _. ends),
      accessible_member_count-Ends a name is_method k c hc,
      find_method-Ends a name k c hc,
      visit_overloads-Ends a.classes name k c [] hc,
      Ends-bind (visit_virtual-Ends a.classes k c ([], []) hc) (λ _. ends),
      inherited_fields-Ends a.classes k c hc,
      upcast-Ends a k name c hc,
    )
