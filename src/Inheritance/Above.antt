-- ===== src/Inheritance/Above.antt =====
-- The ancestors of a class, by which the searches along base classes are described.
use simp.Base.{Bytes, In, ◌≡◌, ◌⊎◌, some}
use simp.Base.Tables.{Table, find}
use simp.Ast.Declarations.{ClassDeclaration}

-- `Above classes a b`: `b` is named as a base on a path of classes that begins at `a`.
pub data Above (classes : Table ClassDeclaration) : Bytes → Bytes → Type 0 where
  direct :
      {a b : Bytes} {c : ClassDeclaration}
      → find a classes ≡ some c
      → In b c.base_class_names
      → Above classes a b
  through :
      {a m b : Bytes} {c : ClassDeclaration}
      → find a classes ≡ some c
      → In m c.base_class_names
      → Above classes m b
      → Above classes a b

-- What `isSubclassOf` means: a class is a subclass of itself and of what is above it.
abbrev pub IsSubclass : Table ClassDeclaration → Bytes → Bytes → Type 0
IsSubclass classes type base =
    ((c : ClassDeclaration) × (find type classes ≡ some c))
    × ((type ≡ base) ⊎ Above classes type base)

-- One base further up.
pub along :
    {classes : Table ClassDeclaration} {m b : Bytes} {c : ClassDeclaration} (a : Bytes)
    → Above classes a m
    → find m classes ≡ some c
    → In b c.base_class_names
    → Above classes a b
along a (direct o k) hm hb = through o k (direct hm hb)
along a (through {m = n} o k r) hm hb = through o k (along n r hm hb)
