-- ===== src/Inheritance/Classes.antt =====
-- The members of `SemanticAnalyzer` that src/SemanticInheritance.cpp reads.
use simp.Base.{
  Bool, List, [], ◌∷◌, Bytes, Option, ◌≡◌, some, inl, inr, equal, equal_iff, Bool-cases,
}
use simp.Base.Tables.{Table, find}
use simp.Ast.Declarations.{AccessLevel, ClassDeclaration}

-- `classes_` and `currentClass_`, which is `nullptr` outside of classes.
pub record Analyzer : Type 0 where
  pub classes : Table ClassDeclaration
  pub current_class : Option ClassDeclaration

-- A class stands in `classes_` under its own name.
abbrev pub IsNamed : Table ClassDeclaration → Type 0
IsNamed classes =
    (name : Bytes) (declaration : ClassDeclaration)
    → find name classes ≡ some declaration
    → declaration.name ≡ name

-- What `baseClassNames`, `baseAccess` and `baseVirtual` hold at one index.
pub record Base : Type 0 where
  pub name : Bytes
  pub access : AccessLevel
  pub is_virtual : Bool

abbrev pub zip_bases : List Bytes → List AccessLevel → List Bool → List Base
zip_bases (n ∷ ns) (a ∷ accesses) (v ∷ vs) =
    (record { name = n; access = a; is_virtual = v }) ∷ zip_bases ns accesses vs
zip_bases _ _ _ = []

-- The three lists have one length.
unfoldable pub bases_of : ClassDeclaration → List Base
bases_of c = zip_bases c.base_class_names c.base_access c.base_virtual

-- Classes under their own names.
abbrev pub table_of : List ClassDeclaration → Table ClassDeclaration
table_of [] = []
table_of (c ∷ cs) = (c.name, c) ∷ table_of cs

pub table_of-IsNamed : (cs : List ClassDeclaration) → IsNamed (table_of cs)
unfolding find
table_of-IsNamed [] name c e = absurd (cc e)
table_of-IsNamed (d ∷ cs) name c e = elim (Bool-cases (equal d.name name)) [
  | inl same ↦ cc (rw same at e, (equal_iff d.name name).0 same)
  | inr other ↦ table_of-IsNamed cs name c (rw other at e)
]
