-- ===== src/Naming/Resolve.antt =====
-- `qualify`, `activeImports`, `hasNamespaceOrClass`, `lookupClassName`, `resolveClassName` and
-- `findClass` of src/SemanticAnalyzer.cpp.
use simp.Base.{
  ℕ, zero, suc, Bool, true, false, ◌&&◌, ◌||◌, List, [], ◌∷◌, ◌++◌, Bytes, codes, Option, none,
  some, equal, length, take, if◌then◌else◌, SourceLocation,
}
use simp.Base.Tables.{Table, find, case_option}
use simp.Ast.Declarations.{ClassDeclaration}
use simp.Packages.Split.{split_on}
use simp.Parser.Verdict.{Verdict, accepted, refused, ◌>>=◌}

pub record ImportBinding : Type 0 where
  pub qualified_name : Bytes
  pub module_name : Bytes

-- `classes_`, `namespaceOwners_`, `importAliases_`, `currentModule_` and `currentNamespace_`.
pub record Names : Type 0 where
  pub classes : Table ClassDeclaration
  pub namespace_owners : Table Bytes
  pub import_aliases : Table (Table ImportBinding)
  pub current_module : Bytes
  pub current_namespace : List Bytes

abbrev pub is_empty : Bytes → Bool
is_empty [] = true
is_empty (c ∷ s) = false

-- `+=` of a part, with a dot in front of it if there is something before.
abbrev pub add_part : Bytes → Bytes → Bytes
add_part [] part = part
add_part (c ∷ s) part = (c ∷ s) ++ b'.' ∷ part

abbrev pub join_parts : Bytes → List Bytes → Bytes
join_parts result [] = result
join_parts result (part ∷ parts) = join_parts (add_part result part) parts

unfoldable pub qualify : List Bytes → Bytes → Bytes
qualify path name =
    let result = join_parts [] path in if is_empty name then result else add_part result name

-- The parts of a name between dots. Nothing behind the last dot is no part.
abbrev drop_empty_end : List Bytes → List Bytes
drop_empty_end [] = []
drop_empty_end (p ∷ []) = if is_empty p then [] else p ∷ []
drop_empty_end (p ∷ q ∷ ps) = p ∷ drop_empty_end (q ∷ ps)

unfoldable pub components_of : Bytes → List Bytes
components_of name = drop_empty_end (split_on b'.' name)

-- The name, or the text of the diagnostic.
pub data Lookup : Type 0 where
  resolved : Bytes → Lookup
  unresolved : Bytes → Lookup

module _ (n : Names) where
  abbrev pub active_imports : Table ImportBinding
  active_imports = case_option (find n.current_module n.import_aliases) [] λ imports. imports

  -- The lambda `visible`: a class of the compiler or of `owner`, or a namespace of `owner`.
  unfoldable pub visible : Bytes → Bytes → Bool
  visible candidate owner =
      case_option (find candidate n.classes)
        (case_option (find candidate n.namespace_owners) false λ o. equal o owner)
        λ c.
          c.builtin
          || ((is_empty c.module_name && equal c.name (codes "String"))
              || equal c.module_name owner)

  abbrev is_imported : Bytes → Bool
  is_imported name = case_option (find name active_imports) false λ _. true

  -- The loop over the prefixes of the namespace, from the longest of the given length on.
  unfoldable pub visible_in : Bytes → List Bytes → ℕ → Bool
  visible_in name path zero = visible (qualify [] name) n.current_module || is_imported name
  visible_in name path (suc k) =
      let rest = visible_in name path k in
      if visible (qualify (take (suc k) path) name) n.current_module then true else rest

  unfoldable pub has_namespace_or_class : Bytes → List Bytes → Bool
  has_namespace_or_class name path = visible_in name path (length path)

  -- The same loop in `lookupClassName`: the candidate and its owner.
  unfoldable pub first_candidate : Bytes → List Bytes → ℕ → Option (Bytes × Bytes)
  first_candidate first path zero =
      if visible (qualify [] first) n.current_module
      then some (qualify [] first, n.current_module)
      else case_option (find first active_imports) none
          λ imported. some (imported.qualified_name, imported.module_name)
  first_candidate first path (suc k) =
      let rest = first_candidate first path k in
      let candidate = qualify (take (suc k) path) first in
      if visible candidate n.current_module then some (candidate, n.current_module) else rest

  -- The loop over the components behind the first; `none` if one is not visible.
  unfoldable pub descend : Bytes → Bytes → List Bytes → Option Bytes
  descend owner candidate [] = some candidate
  descend owner candidate (component ∷ components) =
      let next = candidate ++ b'.' ∷ component in
      let rest = descend owner next components in if visible next owner then rest else none

  abbrev quoted : Bytes → Bytes
  quoted name = b'\'' ∷ name ++ b'\'' ∷ []

  unfoldable pub lookup_components : Bytes → List Bytes → List Bytes → Lookup
  lookup_components name path [] = unresolved (codes "unknown class " ++ quoted name)
  lookup_components name path (first ∷ components) =
      case_option (first_candidate first path (length path))
        (unresolved (codes "unknown class " ++ quoted name))
        λ (candidate, owner).
          case_option (descend owner candidate components)
            (unresolved (codes "unknown qualified class " ++ quoted name))
            λ whole.
              case_option (find whole n.classes)
                (unresolved (codes "qualified name " ++ quoted name ++ codes " is not a class"))
                λ _. resolved whole

  unfoldable pub lookup_class_name : Bytes → List Bytes → Lookup
  lookup_class_name name path = lookup_components name path (components_of name)

  abbrev verdict_of : Lookup → SourceLocation → Verdict Bytes
  verdict_of (resolved whole) location = accepted whole
  verdict_of (unresolved message) location = refused location message

  unfoldable pub resolve_class_name : Bytes → List Bytes → SourceLocation → Verdict Bytes
  resolve_class_name name path location = verdict_of (lookup_class_name name path) location

  -- The class; `none` where the code reads `classes_.end()`.
  unfoldable pub find_class : Bytes → SourceLocation → Verdict (Option ClassDeclaration)
  find_class name location =
      case_option (find name n.classes)
        (resolve_class_name name n.current_namespace location >>= λ whole.
          accepted (find whole n.classes))
        λ c. accepted (some c)
