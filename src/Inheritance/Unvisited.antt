-- ===== src/Inheritance/Unvisited.antt =====
-- The measure of the searches along base classes: a class counts with its bases until it is visited.
use simp.Base.{
  ◌+◌, ◌≤◌, ◌≡◌, refl, sym, true, false, List, [], ◌∷◌, Bytes, some, equal, equal_self, equal_iff,
  length, Bool-cases, inl, inr, arith,
}
use simp.Base.Tables.{Table, find, is_member}
use simp.Ast.Declarations.{ClassDeclaration}
use simp.Inheritance.Subclass.{unvisited_bases}

member_more :
    (key v : Bytes) (visited : List Bytes)
    → is_member key visited ≡ true
    → is_member key (v ∷ visited) ≡ true
unfolding is_member
member_more key v visited h = elim (Bool-cases (equal v key)) [ inl e ↦ rw e refl | inr e ↦ rw e h ]

member_other :
    (key v : Bytes) (visited : List Bytes)
    → equal v key ≡ false
    → is_member key (v ∷ visited) ≡ is_member key visited
unfolding is_member
member_other key v visited e = rw e refl

unvisited-fewer :
    (classes : Table ClassDeclaration) (v : Bytes) (visited : List Bytes)
    → unvisited_bases classes (v ∷ visited) ≤ unvisited_bases classes visited
unfolding unvisited_bases
unvisited-fewer [] v visited = omega arith
unvisited-fewer ((key, c) ∷ classes) v visited =
    let rest = unvisited-fewer classes v visited in
    elim (Bool-cases (is_member key visited)) [
      | inl e ↦ rw (e, member_more key v visited e) rest
      | inr e ↦ elim (Bool-cases (is_member key (v ∷ visited))) [
        | inl e' ↦ rw (e, e') (omega (arith, rest))
        | inr e' ↦ rw (e, e') (omega (arith, rest))
      ]
    ]

not_equal : (s t : Bytes) → equal s t ≡ false → equal t s ≡ false
not_equal s t e = elim (Bool-cases (equal t s)) [
  | inl same ↦ absurd (cc (e, (equal_iff s t).1 (sym ((equal_iff t s).0 same))))
  | inr other ↦ other
]

pub unvisited-visit :
    (classes : Table ClassDeclaration) (v : Bytes) (c : ClassDeclaration) (visited : List Bytes)
    → find v classes ≡ some c
    → is_member v visited ≡ false
    → unvisited_bases classes (v ∷ visited) + length c.base_class_names
      ≤ unvisited_bases classes visited
unfolding find is_member unvisited_bases
unvisited-visit [] v c visited h e = cc
unvisited-visit ((key, d) ∷ classes) v c visited h e = elim (Bool-cases (equal key v)) [
  | inl same ↦
      let here : d ≡ c = cc (rw same at h) in
      let key_v : key ≡ v = (equal_iff key v).0 same in
      let fewer = unvisited-fewer classes v visited in
      rw (key_v, e, equal_self v, here) (omega (arith, fewer))
  | inr other ↦
      let rest = unvisited-visit classes v c visited (rw other at h) e in
      elim (Bool-cases (is_member key visited)) [
        | inl m ↦ rw (not_equal key v other, m) rest
        | inr m ↦ rw (not_equal key v other, m) (omega (arith, rest))
      ]
]
