-- ===== src/Inheritance/PublicMembers.antt =====
-- `memberAccessible` of src/SemanticInheritance.cpp outside of classes.
use simp.Base.{
  ℕ, suc, zero, ◌≡◌, refl, ap, ◌∙◌, Bool, true, false, ◌&&◌, List, [], ◌∷◌, Bytes, some, none,
  Option-cases, All, inl, inr, ◌↔◌, length, arith,
}
use simp.Base.Tables.{find}
use simp.Ast.Declarations.{AccessLevel, public_level, ClassDeclaration}
use simp.Inheritance.Classes.{Analyzer, bases_of, IsNamed}
use simp.Inheritance.Walks.{Walk, walked, exhausted}
use simp.Inheritance.Access.{
  Restriction, restrict, declared_access, permits, Edge, restrict_edges, declared_accessible,
  contains, member_accessible,
}
use simp.Inheritance.Bounded.{IsAcyclic, named-Bounded}
use simp.Inheritance.Ends.{Ends}
use simp.Inheritance.Endings.{member_accessible-Ends}
use simp.Inheritance.Outside.{
  IsPublicMember, declared, inherited, any-true, any-false, restrict-public, permits-public,
  public-permits,
}

abbrev ArePublic : List Edge → Type 0
ArePublic = All λ e. e.1.access ≡ public_level

edges-public :
    (edges : List Edge) (r : Restriction)
    → (restrict_edges edges r).effective ≡ public_level
    → ArePublic edges × (r.effective ≡ public_level)
unfolding restrict_edges
edges-public [] r e = (tt, e)
edges-public ((c, b) ∷ edges) r e =
    let (rest, q) = edges-public edges (restrict b.access c.name r) e in
    let (here, p) = restrict-public b.access c.name r q in ((here, rest), p)

public-edges :
    (edges : List Edge) (r : Restriction)
    → ArePublic edges
    → r.effective ≡ public_level
    → (restrict_edges edges r).effective ≡ public_level
unfolding restrict_edges restrict
public-edges [] r h e = e
public-edges ((c, b) ∷ edges) r (here, h) e = rw here (public-edges edges r h e)

and-true : (a b : Bool) → a && b ≡ true → (a ≡ true) × (b ≡ true)
and-true a b h = ground arith

module _ (a : Analyzer) (outside : a.current_class ≡ none) where
  declared-public :
      (access : AccessLevel) (c : ClassDeclaration) (edges : List Edge)
      → declared_accessible a access c edges ≡ true
      → (access ≡ public_level) × ArePublic edges
  unfolding declared_accessible
  declared-public access c edges e =
      let (_, p) = and-true (permits a access c.name) _ e in
      let (h, q) = edges-public edges _ (permits-public a outside _ _ p) in (q, h)

  public-declared :
      (access : AccessLevel) (c : ClassDeclaration) (edges : List Edge)
      → access ≡ public_level
      → ArePublic edges
      → declared_accessible a access c edges ≡ true
  unfolding declared_accessible
  public-declared access c edges e h =
      rw (public-permits a outside access c.name e)
        (public-permits a outside _ _ (public-edges edges _ h e))

  module _ (name : Bytes) (is_method : Bool) where
    contains-true :
        (f : ℕ) (c : ClassDeclaration) (edges : List Edge)
        → contains a name is_method f c edges ≡ walked true
        → IsPublicMember a.classes name is_method c × ArePublic edges
    unfolding contains
    contains-true zero c edges e = absurd (cc e)
    contains-true (suc f) c edges e = elim (Option-cases (declared_access name is_method c)) [
      | inl o ↦
          let (b, d, i, k, r) = any-true a.classes _ (bases_of c) (rw o at e) in
          let (p, (q, h)) = contains-true f d ((c, b) ∷ edges) r in (inherited b o i q k p, h)
      | inr (access, o) ↦
          let (p, h) = declared-public access c edges (inner (rw o at e)) in
          (declared (o ∙ ap some p), h)
    ]
      where
        inner : {x y : Bool} → walked x ≡ walked y → x ≡ y
        inner e = cc e

    contains-false :
        (f : ℕ) (c : ClassDeclaration) (edges : List Edge)
        → contains a name is_method f c edges ≡ walked false
        → ArePublic edges
        → ¬ IsPublicMember a.classes name is_method c
    unfolding contains
    contains-false zero c edges e h p = absurd (cc e)
    contains-false (suc f) c edges e h (declared o) =
        absurd (cc (rw o at e, public-declared public_level c edges refl h))
    contains-false (suc f) c edges e h (inherited b o i q k p) =
        contains-false f _ ((c, b) ∷ edges) (any-false a.classes _ (bases_of c) (rw o at e) b _ i k)
          (q, h) p

-- Outside of classes, in a table of named classes without cycles, a member is accessible exactly
-- when a class that declares it first on some path of bases declares it public and each base on
-- that path is public.
pub member_accessible-outside :
    (a : Analyzer) (type : Bytes) (c : ClassDeclaration) (name : Bytes) (is_method : Bool)
    → a.current_class ≡ none
    → IsNamed a.classes
    → IsAcyclic a.classes
    → find type a.classes ≡ some c
    → (member_accessible a (length a.classes) c name is_method ≡ walked true)
      ↔ IsPublicMember a.classes name is_method c
unfolding member_accessible
member_accessible-outside a type c name is_method outside h ha o = (
  λ e. (contains-true a outside name is_method (length a.classes) c [] e).0,
  λ p. back p (contains a name is_method (length a.classes) c []) refl (
      member_accessible-Ends a name is_method (length a.classes) c
        (named-Bounded a.classes h ha type c o)),
)
  where
    back :
        IsPublicMember a.classes name is_method c
        → (w : Walk Bool) → contains a name is_method (length a.classes) c [] ≡ w
        → Ends w
        → w ≡ walked true
    back p (walked true) e k = refl
    back p (walked false) e k =
        absurd (contains-false a outside name is_method (length a.classes) c [] e tt p)
    back p exhausted e k = elim k [ ]
