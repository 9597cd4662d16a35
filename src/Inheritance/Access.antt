-- ===== src/Inheritance/Access.antt =====
-- `basePathAccessible` and the three functions on the access to members of
-- src/SemanticInheritance.cpp.
use simp.Base.{
  ℕ, zero, suc, Bool, true, false, ◌&&◌, ◌||◌, List, [], ◌∷◌, ◌++◌, Bytes, Option, none, some, ◌==◌,
  equal, if◌then◌else◌,
}
use simp.Base.Tables.{find, case_option}
use simp.Ast.Declarations.{
  AccessLevel, public_level, protected_level, private_level, FieldDeclaration,
  EnumMemberDeclaration, MethodDeclaration, ClassDeclaration,
}
use simp.Inheritance.Classes.{Analyzer, Base, bases_of}
use simp.Inheritance.Subclass.{is_subclass_of}
use simp.Inheritance.Walks.{Walk, walked, exhausted, any_base}

-- The locals `effective` and `restrictedAt`.
pub record Restriction : Type 0 where
  pub effective : AccessLevel
  pub restricted_at : Bytes

-- Before the first edge.
abbrev pub unrestricted : Restriction
unrestricted = record { effective = public_level; restricted_at = [] }

abbrev pub is_public : AccessLevel → Bool
is_public public_level = true
is_public _ = false

-- The access to a base, which the class of that name declares.
unfoldable pub restrict : AccessLevel → Bytes → Restriction → Restriction
restrict private_level name r = record { effective = private_level; restricted_at = name }
restrict protected_level name r =
    if is_public r.effective
    then record { effective = protected_level; restricted_at = name }
    else r
restrict public_level name r = r

-- The first base of that name.
unfoldable pub find_base : Bytes → List Base → Option Base
find_base name [] = none
find_base name (b ∷ bases) =
    let rest = find_base name bases in if equal b.name name then some b else rest

-- A method, and where it stands: its address.
pub record MethodPointer : Type 0 where
  pub owner : Bytes
  pub index : ℕ
  pub method : MethodDeclaration

-- The first declaration of a name.
unfoldable pub method_access : Bytes → List MethodDeclaration → Option AccessLevel
method_access name [] = none
method_access name (m ∷ ms) =
    let rest = method_access name ms in if equal m.name name then some m.access else rest

unfoldable pub field_access : Bytes → List FieldDeclaration → Option AccessLevel
field_access name [] = none
field_access name (d ∷ ds) =
    let rest = field_access name ds in if equal d.name name then some d.access else rest

unfoldable pub enum_access : Bytes → List EnumMemberDeclaration → Option AccessLevel
enum_access name [] = none
enum_access name (d ∷ ds) =
    let rest = enum_access name ds in if equal d.name name then some d.access else rest

unfoldable pub declared_access : Bytes → Bool → ClassDeclaration → Option AccessLevel
declared_access name true c = method_access name c.methods
declared_access name false c =
    case_option (field_access name c.fields) (enum_access name c.enum_members) λ access. some access

-- An edge of a path: the class, and its base. The end of the path is the front of the list.
abbrev pub Edge : Type 0
Edge = ClassDeclaration × Base

unfoldable pub restrict_edges : List Edge → Restriction → Restriction
restrict_edges [] r = r
restrict_edges ((c, b) ∷ path) r = restrict_edges path (restrict b.access c.name r)

module _ (a : Analyzer) where
  -- The current class is the one of that name or a subclass.
  abbrev pub is_within : Bytes → ClassDeclaration → Bool
  is_within name current = equal current.name name || is_subclass_of a.classes current.name name

  -- The end of each of the functions: whether the restriction lets the current class through.
  unfoldable pub permits : AccessLevel → Bytes → Bool
  permits public_level name = true
  permits private_level name = case_option a.current_class false λ current. equal current.name name
  permits protected_level name = case_option a.current_class false (is_within name)

  -- The loop over the path.
  unfoldable pub walk_path : List Bytes → ClassDeclaration → Restriction → Option Restriction
  walk_path [] current r = some r
  walk_path (name ∷ path) current r = case_option (find_base name (bases_of current)) none λ b.
      case_option (find name a.classes) none
        λ next. walk_path path next (restrict b.access current.name r)

  unfoldable pub base_path_accessible : ClassDeclaration → List Bytes → Bool
  base_path_accessible owner path =
      case_option (walk_path path owner unrestricted) false λ r. permits r.effective r.restricted_at

  -- A member that `current` declares.
  unfoldable pub declared_accessible : AccessLevel → ClassDeclaration → List Edge → Bool
  declared_accessible access current path =
      let r = restrict_edges path (record { effective = access; restricted_at = current.name }) in
      permits access current.name && permits r.effective r.restricted_at

  -- The lambda `contains` of `memberAccessible`.
  unfoldable pub contains : Bytes → Bool → ℕ → ClassDeclaration → List Edge → Walk Bool
  contains name is_method zero current path = exhausted
  contains name is_method (suc f) current path =
      case_option (declared_access name is_method current)
        (any_base a.classes (λ b c. contains name is_method f c ((current, b) ∷ path))
          (bases_of current))
        λ access. walked (declared_accessible access current path)

  unfoldable pub member_accessible : ℕ → ClassDeclaration → Bytes → Bool → Walk Bool
  member_accessible f owner name is_method = contains name is_method f owner []

  unfoldable pub method_accessible : ClassDeclaration → MethodDeclaration → Bool
  method_accessible owner method = permits method.access owner.name

  -- The loop over the methods of `current`, which looks for the address of one.
  unfoldable pub holds_method :
      ClassDeclaration
      → List Bytes
      → ClassDeclaration
      → MethodPointer
      → ℕ
      → List MethodDeclaration
      → Bool
  holds_method owner path current p i [] = false
  holds_method owner path current p i (m ∷ ms) =
      let rest = holds_method owner path current p (suc i) ms in
      if equal current.name p.owner
        && i == p.index
        && method_accessible current p.method
        && base_path_accessible owner path
      then true
      else rest

  -- The lambda `visit` of `memberAccessibleThrough`.
  unfoldable pub visit_through :
      ClassDeclaration → MethodPointer → ℕ → ClassDeclaration → List Bytes → Walk Bool
  visit_through owner p zero current path = exhausted
  visit_through owner p (suc f) current path =
      if holds_method owner path current p 0 current.methods
      then walked true
      else any_base a.classes (λ b c. visit_through owner p f c (path ++ b.name ∷ []))
          (bases_of current)

  unfoldable pub member_accessible_through : ℕ → ClassDeclaration → MethodPointer → Walk Bool
  member_accessible_through f owner p = visit_through owner p f owner []
