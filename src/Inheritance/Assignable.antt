-- ===== src/Inheritance/Assignable.antt =====
-- `isAssignable` and `conversionRank` of src/SemanticInheritance.cpp.
use simp.Base.{
  ℕ, zero, suc, ◌+◌, Bool, true, false, not, ◌&&◌, ◌||◌, List, [], ◌∷◌, Bytes, Option, none, some,
  ◌==◌, equal, String, codes, if◌then◌else◌,
}
use simp.Base.Tables.{Table, find, is_member, case_option}
use simp.Ast.Expressions.{ExpressionKind}
use simp.Ast.Declarations.{ClassDeclaration}
use simp.Mangling.Types.{is_callback_type}
use simp.Inheritance.Classes.{Analyzer, Base, bases_of}
use simp.Inheritance.Subclass.{is_subclass_of, unvisited_bases}
use simp.Inheritance.Walks.{Walk, walked, exhausted, ◌>>=◌, Visit, skips, mark}
use simp.Inheritance.Access.{Edge, Restriction, unrestricted, restrict, permits}

abbrev is_one_of : Bytes → List String → Bool
is_one_of text [] = false
is_one_of text (name ∷ names) = equal text (codes name) || is_one_of text names

abbrev is_class : Table ClassDeclaration → Bytes → Bool
is_class classes name = case_option (find name classes) false λ _. true

-- The sources of `any`, its targets and those of `null`, among the types that are no classes.
unfoldable pub is_boxed : Bytes → Bool
is_boxed source = is_one_of source (
    "int" ∷ "bool" ∷ "float" ∷ "unsigned" ∷ "String" ∷ "null" ∷ "list" ∷ "dict" ∷ "buffer"
    ∷ "handle" ∷ "type" ∷ [])

unfoldable pub is_extracted : Bytes → Bool
is_extracted target =
    is_one_of target (
      "int" ∷ "bool" ∷ "float" ∷ "unsigned" ∷ "String" ∷ "dict" ∷ "list" ∷ "buffer" ∷ "handle" ∷ [])

unfoldable pub is_nullable : Bytes → Bool
is_nullable target = is_one_of target (
    "buffer" ∷ "handle" ∷ "String" ∷ "list" ∷ "dict" ∷ "int" ∷ "unsigned" ∷ "float" ∷ "bool"
    ∷ "type" ∷ [])

-- From the first edge to the last.
unfoldable pub restrict_path : List Edge → Restriction → Restriction
restrict_path [] r = r
restrict_path ((c, b) ∷ path) r = restrict b.access c.name (restrict_path path r)

module _ (classes : Table ClassDeclaration) (target : Bytes) where
  -- The loop of the lambda `countPaths`.
  unfoldable pub path_bases : Visit ℕ → List Base → List Bytes → Walk (ℕ × List Bytes)
  path_bases visit [] seen = walked (0, seen)
  path_bases visit (b ∷ bases) seen =
      let skipped = path_bases visit bases seen in
      case_option (find b.name classes) skipped λ c.
        if skips classes b seen
        then skipped
        else if equal b.name target
        then (path_bases visit bases (mark classes b seen) >>= λ (more, seen'').
            walked (suc more, seen''))
        else (visit c (mark classes b seen) >>= λ (count, seen').
            path_bases visit bases seen' >>= λ (more, seen''). walked (count + more, seen''))

  unfoldable pub count_paths : ℕ → Visit ℕ
  count_paths zero owner seen = exhausted
  count_paths (suc f) owner seen = path_bases (count_paths f) (bases_of owner) seen

  -- The lambda `findPath`. The end of the path is the front of the list.
  unfoldable pub path_edges :
      (ClassDeclaration → List Edge → Walk (Option (List Edge)))
      → ClassDeclaration
      → List Base
      → List Edge
      → Walk (Option (List Edge))
  path_edges visit owner [] path = walked none
  path_edges visit owner (b ∷ bases) path =
      let rest = path_edges visit owner bases path in
      case_option (find b.name classes) rest λ c.
        if equal b.name target
        then walked (some ((owner, b) ∷ path))
        else (visit c ((owner, b) ∷ path) >>= λ found.
            case_option found rest λ whole. walked (some whole))

  unfoldable pub find_path : ℕ → ClassDeclaration → List Edge → Walk (Option (List Edge))
  find_path zero owner path = exhausted
  find_path (suc f) owner path = path_edges (find_path f) owner (bases_of owner) path

module _ (a : Analyzer) where
  -- Between two classes.
  unfoldable pub is_upcast : ℕ → Bytes → ClassDeclaration → Walk Bool
  is_upcast f target found = count_paths a.classes target f found [] >>= λ (count, _).
      if not (count == 1)
      then walked false
      else (find_path a.classes target f found [] >>= λ path.
          case_option path (walked false) λ edges.
            let r = restrict_path edges unrestricted in
            walked (permits a r.effective r.restricted_at))

  unfoldable pub is_assignable : ℕ → Bytes → Bytes → Walk Bool
  is_assignable f target source =
      if equal target source
      then walked true
      else if is_callback_type target || is_callback_type source
      then walked (is_callback_type target && equal source (codes "null"))
      else if equal target (codes "any")
      then walked (is_boxed source || is_class a.classes source)
      else if equal source (codes "any")
      then walked (is_extracted target || is_class a.classes target)
      else if equal source (codes "null")
      then walked (is_nullable target || is_class a.classes target)
      else case_option (find source a.classes) (walked false) λ found.
        if not (is_class a.classes target) || not (is_subclass_of a.classes source target)
        then walked false
        else is_upcast f target found

  abbrev push_ranked : List Bytes → ℕ → List (Bytes × ℕ) → List (Bytes × ℕ)
  push_ranked [] distance pending = pending
  push_ranked (name ∷ names) distance pending =
      push_ranked names distance ((name, distance + 1) ∷ pending)

  -- The loop of `conversionRank` over the classes above the source.
  unfoldable pub rank_loop : Bytes → ℕ → List (Bytes × ℕ) → List Bytes → ℕ
  rank_loop target zero pending visited = 20
  rank_loop target (suc f) [] visited = 20
  rank_loop target (suc f) ((name, distance) ∷ pending) visited =
      let skipped = rank_loop target f pending visited in
      let unknown = rank_loop target f pending (name ∷ visited) in
      if is_member name visited
      then skipped
      else if equal name target
      then 2 + distance
      else case_option (find name a.classes) unknown
          λ c. rank_loop target f (push_ranked c.base_class_names distance pending) (name ∷ visited)

  abbrev is_integer : ExpressionKind → Bool
  is_integer ExpressionKind.integer = true
  is_integer _ = false

  -- `none` is the rank -1.
  unfoldable pub conversion_rank : ℕ → Bytes → Bytes → ExpressionKind → Walk (Option ℕ)
  conversion_rank f target source kind =
      if equal target source
      then walked (some 0)
      else if equal source (codes "int") && equal target (codes "unsigned") && is_integer kind
      then walked (some 1)
      else if equal source (codes "null") && is_class a.classes target
      then walked (some 2)
      else (is_assignable f target source >>= λ assignable.
          if not assignable
          then walked none
          else if is_class a.classes source && is_class a.classes target
          then walked (
              some
                (rank_loop target (suc (suc (unvisited_bases a.classes []))) ((source, 0) ∷ []) []))
          else walked (some 20))
