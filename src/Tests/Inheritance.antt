-- ===== src/Tests/Inheritance.antt =====
-- Runs of src/SemanticInheritance.cpp and of the checks of src/SemanticAnalyzer.cpp that it relies
-- on, and their theorems at concrete inputs.
use simp.Base.{
  ◌≡◌, ◌↔◌, ◌⊎◌, refl, true, false, Bool, String, List, [], ◌∷◌, map, codes, Bytes, none, some,
  equal, All, In, SourceLocation,
}
use simp.Base.Tables.{Table, find, is_member}
use simp.Base.Loaded.{loaded, rejected}
use simp.Ast.Expressions.{start_of_file}
use simp.Ast.Statements.{end}
use simp.Ast.Declarations.{
  AccessLevel, public_level, private_level, MethodDeclaration, ClassDeclaration,
}
use simp.Packages.Split.{split_on}
use simp.Mangling.Types.{is_callback_type}
use simp.Naming.Resolve.{
  Names, qualify, components_of, visible, first_candidate, descend, resolved, lookup_components,
  lookup_class_name, find_class,
}
use simp.Naming.Visible.{IsReachable, lookup_class_name-IsReachable}
use simp.Inheritance.Classes.{Analyzer, table_of, table_of-IsNamed, bases_of}
use simp.Inheritance.Above.{Above, IsSubclass}
use simp.Inheritance.Subclass.{scan_bases, subclass_loop, unvisited_bases, is_subclass_of}
use simp.Inheritance.Subclasses.{is_subclass_of_iff}
use simp.Inheritance.Walks.{walked, any_base}
use simp.Inheritance.Access.{
  MethodPointer, restrict, method_access, declared_access, permits, base_path_accessible,
  restrict_edges, declared_accessible, contains, member_accessible,
}
use simp.Inheritance.Assignable.{
  is_boxed, is_extracted, is_nullable, path_bases, count_paths, path_edges, find_path,
  restrict_path, is_upcast, is_assignable,
}
use simp.Inheritance.Overloads.{
  Viable, same_pointer, no_worse, strictly_better, dominates, is_dominated, best_of, choose,
}
use simp.Inheritance.Dominance.{IsDominated}
use simp.Inheritance.Chosen.{choose-IsBest}
use simp.Inheritance.Total.{SearchesEnd, searches-Ends}
use simp.Inheritance.Outside.{IsPublicPath, IsPublicMember, base_path_accessible-outside}
use simp.Inheritance.PublicMembers.{member_accessible-outside}
use simp.Inheritance.Cycles.{cycle_bases, cycle_loop, check_cycles}
use simp.Inheritance.CycleFree.{
  HasKnownBases, check_cycles-decides, checked-IsAcyclic, table-HasKnownBases,
}
use simp.Inheritance.Bounded.{IsAcyclic}

abbrev method_of_class : String → AccessLevel → MethodDeclaration
method_of_class name access = record {
  name = codes name;
  return_type = codes "int";
  location = start_of_file;
  parameters = [];
  body = end;
  constructor = false;
  destructor = false;
  declaration_only = false;
  external_binding = false;
  external_symbol = [];
  access = access;
}

abbrev class :
    String → List Bytes → List AccessLevel → List Bool → List MethodDeclaration → ClassDeclaration
class name bases accesses virtuals methods = record {
  name = codes name;
  module_name = codes "app";
  imported_module = false;
  builtin = false;
  namespace_path = [];
  base_class_name = [];
  location = start_of_file;
  base_location = start_of_file;
  base_class_names = bases;
  base_locations = map (λ _. start_of_file) bases;
  base_access = accesses;
  base_virtual = virtuals;
  fields = [];
  enum_members = [];
  enum_block_count = 0;
  methods = methods;
}

-- `Animal`, with a dog that is publicly one and a cat that hides it.
abbrev animal : ClassDeclaration
animal =
    class "Animal" [] [] []
      (method_of_class "speak" public_level ∷ method_of_class "think" private_level ∷ [])

abbrev dog : ClassDeclaration
dog = class "Dog" (codes "Animal" ∷ []) (public_level ∷ []) (false ∷ []) []

abbrev cat : ClassDeclaration
cat = class "Cat" (codes "Animal" ∷ []) (private_level ∷ []) (false ∷ []) []

abbrev classes : Table ClassDeclaration
classes = table_of (animal ∷ dog ∷ cat ∷ [])

abbrev analyzer : Analyzer
analyzer = record { classes = classes; current_class = none }

abbrev names : Names
names = record {
  classes = classes;
  namespace_owners = [];
  import_aliases =
      (
        codes "main",
        (codes "D", record { qualified_name = codes "Dog"; module_name = codes "app" }) ∷ [],
      )
      ∷ [];
  current_module = codes "main";
  current_namespace = [];
}

dog_found : find (codes "Dog") classes ≡ some dog
unfolding find equal
dog_found = refl

dog_under_animal : is_subclass_of classes (codes "Dog") (codes "Animal") ≡ true
unfolding is_subclass_of subclass_loop scan_bases unvisited_bases find is_member equal
dog_under_animal = refl

is_subclass_of_iff_example :
    (is_subclass_of classes (codes "Dog") (codes "Animal") ≡ true)
    ↔ IsSubclass classes (codes "Dog") (codes "Animal")
is_subclass_of_iff_example =
    is_subclass_of_iff classes (codes "Dog") (codes "Animal")
      (table_of-IsNamed (animal ∷ dog ∷ cat ∷ []))

-- The check of every class, and what follows of the table.
all_pass : All (λ e. check_cycles names e.1 ≡ loaded tt) classes
unfolding check_cycles cycle_loop cycle_bases find_class find is_member equal
all_pass = (refl, (refl, (refl, tt)))

-- A class that is its own base.
abbrev loop_names : Names
loop_names = record names {
  classes = table_of (class "Ouro" (codes "Ouro" ∷ []) (public_level ∷ []) (false ∷ []) [] ∷ []);
}

own_base :
    check_cycles loop_names (class "Ouro" (codes "Ouro" ∷ []) (public_level ∷ []) (false ∷ []) [])
    ≡ rejected start_of_file (codes "inheritance cycle involving class 'Ouro'")
unfolding check_cycles cycle_loop cycle_bases find_class find is_member equal
own_base = refl

classes-HasKnownBases : HasKnownBases classes
unfolding find equal
classes-HasKnownBases =
    table-HasKnownBases classes (tt, (((animal, refl), tt), (((animal, refl), tt), tt)))

classes-IsAcyclic : IsAcyclic classes
classes-IsAcyclic =
    checked-IsAcyclic names (table_of-IsNamed (animal ∷ dog ∷ cat ∷ [])) classes-HasKnownBases
      all_pass

check_cycles-decides_example :
    ((check_cycles names dog ≡ loaded tt) × (¬ Above classes (codes "Dog") (codes "Dog")))
    ⊎ ((l : SourceLocation) × (m : Bytes) × (check_cycles names dog ≡ rejected l m)
        × Above classes (codes "Dog") (codes "Dog"))
check_cycles-decides_example =
    check_cycles-decides names (codes "Dog") dog (table_of-IsNamed (animal ∷ dog ∷ cat ∷ []))
      classes-HasKnownBases dog_found

abbrev first_method : MethodPointer
first_method = record {
  owner = codes "Animal";
  index = 0;
  method = method_of_class "speak" public_level;
}

searches-Ends_example : SearchesEnd analyzer 3 dog (codes "speak") true first_method
searches-Ends_example =
    searches-Ends analyzer (codes "Dog") dog (codes "speak") true first_method
      (table_of-IsNamed (animal ∷ dog ∷ cat ∷ [])) classes-IsAcyclic dog_found

base_path_accessible-outside_example :
    (base_path_accessible analyzer dog (codes "Animal" ∷ []) ≡ true)
    ↔ IsPublicPath classes (codes "Animal" ∷ []) dog
base_path_accessible-outside_example =
    base_path_accessible-outside analyzer refl dog (codes "Animal" ∷ [])

speaking : member_accessible analyzer 3 dog (codes "speak") true ≡ walked true
unfolding member_accessible contains declared_access method_access any_base bases_of
    declared_accessible permits restrict_edges restrict find equal
speaking = refl

hidden_speaking : member_accessible analyzer 3 cat (codes "speak") true ≡ walked false
unfolding member_accessible contains declared_access method_access any_base bases_of
    declared_accessible permits restrict_edges restrict find equal
hidden_speaking = refl

member_accessible-outside_example :
    (member_accessible analyzer 3 dog (codes "speak") true ≡ walked true)
    ↔ IsPublicMember classes (codes "speak") true dog
member_accessible-outside_example =
    member_accessible-outside analyzer (codes "Dog") dog (codes "speak") true refl
      (table_of-IsNamed (animal ∷ dog ∷ cat ∷ [])) classes-IsAcyclic dog_found

-- A dog is an animal outside of classes; a cat is none.
upcasts :
    (is_assignable analyzer 3 (codes "Animal") (codes "Dog") ≡ walked true)
    × (is_assignable analyzer 3 (codes "Animal") (codes "Cat") ≡ walked false)
unfolding is_assignable is_callback_type is_boxed is_extracted is_nullable is_upcast count_paths
    path_bases find_path path_edges restrict_path restrict permits is_subclass_of subclass_loop
    scan_bases unvisited_bases bases_of find is_member equal
upcasts = (refl, refl)

imported_dog : lookup_class_name names (codes "D") [] ≡ resolved (codes "Dog")
unfolding lookup_class_name lookup_components components_of first_candidate visible qualify descend
    split_on find equal
imported_dog = refl

lookup_class_name-IsReachable_example :
    (c : ClassDeclaration) × (find (codes "Dog") classes ≡ some c)
    × IsReachable names (codes "Dog") c
lookup_class_name-IsReachable_example =
    lookup_class_name-IsReachable names (codes "D") [] (codes "Dog") imported_dog

-- Two candidates, the first of which is better for the second argument.
abbrev better : Viable
better = record { candidate = first_method; ranks = 0 ∷ 1 ∷ [] }

abbrev worse : Viable
worse = record { candidate = record first_method { index = 1 }; ranks = 0 ∷ 2 ∷ [] }

chosen : choose (better ∷ worse ∷ []) ≡ (some first_method, false)
unfolding choose best_of is_dominated dominates same_pointer no_worse strictly_better equal
chosen = refl

choose-IsBest_example :
    (◌≡◌ {A = Bool} false false)
    × ((v : Viable) × In v (better ∷ worse ∷ [])
        × (v.candidate ≡ first_method)
        × (¬ IsDominated v (better ∷ worse ∷ []))
        × ((w : Viable)
            → In w (better ∷ worse ∷ [])
            → (w ≡ v) ⊎ IsDominated w (better ∷ worse ∷ [])))
choose-IsBest_example =
    choose-IsBest 2 (better ∷ worse ∷ []) first_method false (refl, (refl, tt)) chosen
