-- ===== src/Inheritance/Subclass.antt =====
-- `isSubclassOf` of src/SemanticInheritance.cpp.
use simp.Base.{
  ℕ, zero, suc, ◌+◌, Bool, true, false, List, [], ◌∷◌, Bytes, Option, none, some, equal, length,
  if◌then◌else◌,
}
use simp.Base.Tables.{Table, find, is_member, case_option}
use simp.Ast.Declarations.{ClassDeclaration}

module _ (classes : Table ClassDeclaration) (base : Bytes) where
  -- `pending.push_back` of a class that is found. The end of `pending` is the front of the list.
  abbrev pub push_class : Bytes → List ClassDeclaration → List ClassDeclaration
  push_class name pending = case_option (find name classes) pending λ c. c ∷ pending

  -- The loop over the names of the bases; `none` if `base` is one of them.
  unfoldable pub scan_bases : List Bytes → List ClassDeclaration → Option (List ClassDeclaration)
  scan_bases [] pending = some pending
  scan_bases (name ∷ names) pending =
      let rest = scan_bases names (push_class name pending) in
      if equal name base then none else rest

  -- The loop over `pending`. Each round takes a class from it.
  unfoldable pub subclass_loop : ℕ → List ClassDeclaration → List Bytes → Bool
  subclass_loop zero pending visited = false
  subclass_loop (suc f) [] visited = false
  subclass_loop (suc f) (current ∷ pending) visited =
      let skipped = subclass_loop f pending visited in
      if is_member current.name visited
      then skipped
      else case_option (scan_bases current.base_class_names pending) true
          λ next. subclass_loop f next (current.name ∷ visited)

-- The bases of the classes that are not visited.
unfoldable pub unvisited_bases : Table ClassDeclaration → List Bytes → ℕ
unvisited_bases [] visited = 0
unvisited_bases ((name, c) ∷ classes) visited =
    let rest = unvisited_bases classes visited in
    if is_member name visited then rest else length c.base_class_names + rest

-- Each class is visited once, and its bases are pushed then.
unfoldable pub is_subclass_of : Table ClassDeclaration → Bytes → Bytes → Bool
is_subclass_of classes type base = case_option (find type classes) false λ found.
    if equal type base
    then true
    else subclass_loop classes base (suc (suc (unvisited_bases classes []))) (found ∷ []) []
