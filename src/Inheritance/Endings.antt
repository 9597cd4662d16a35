-- ===== src/Inheritance/Endings.antt =====
-- The walks of src/SemanticInheritance.cpp from a class that is bounded by their fuel.
use simp.Base.{
  ℕ, zero, suc, Bool, true, false, List, [], ◌∷◌, Bytes, Option, none, ◌==◌, inl, inr, In,
}
use simp.Base.Tables.{Table}
use simp.Ast.Declarations.{AccessLevel, ClassDeclaration}
use simp.Inheritance.Classes.{Analyzer, Base, zip_bases, bases_of}
use simp.Inheritance.Bounded.{Bounded, bounded}
use simp.Inheritance.Access.{
  Edge, MethodPointer, declared_access, contains, member_accessible, holds_method, visit_through,
  base_path_accessible,
}
use simp.Inheritance.Members.{
  enters_readable, visit_member, visit_count, enters_all, has_member, declares, count_if_accessible,
  visit_accessible, accessible_member_count, method_of,
}
use simp.Inheritance.Methods.{
  find_method, visit_overloads, VirtualNames, visit_virtual, inherited_fields,
}
use simp.Inheritance.Assignable.{count_paths, find_path}
use simp.Inheritance.Ends.{
  Ends, ends, Ends-bind, Ends-if, Ends-case, EachFound, Ends-any_base, Ends-count_bases,
  Ends-path_bases, Ends-path_edges, Ends-each_base, Ends-virtual_bases, Ends-find_bases,
  Ends-method_bases,
}

-- A base of the class is among the names of its bases.
zip-In :
    (ns : List Bytes) (accesses : List AccessLevel) (vs : List Bool) (b : Base)
    → In b (zip_bases ns accesses vs)
    → In b.name ns
zip-In [] accesses vs b h = absurd h
zip-In (n ∷ ns) [] vs b h = absurd h
zip-In (n ∷ ns) (x ∷ accesses) [] b h = absurd h
zip-In (n ∷ ns) (x ∷ accesses) (v ∷ vs) b (inl e) = inl (cc e)
zip-In (n ∷ ns) (x ∷ accesses) (v ∷ vs) b (inr h) = inr (zip-In ns accesses vs b h)

bases-In : (c : ClassDeclaration) (b : Base) → In b (bases_of c) → In b.name c.base_class_names
unfolding bases_of
bases-In c b h = zip-In c.base_class_names c.base_access c.base_virtual b h

module _ (classes : Table ClassDeclaration) where
  up :
      {k : ℕ} {c : ClassDeclaration}
      → Bounded classes (suc k) c
      → EachFound classes (bases_of c) (λ b d. Bounded classes k d)
  up {c} (bounded h) b d hb o = h b.name d (bases-In c b hb) o

  pub count_paths-Ends :
      (target : Bytes) (k : ℕ) (c : ClassDeclaration) (seen : List Bytes)
      → Bounded classes k c
      → Ends (count_paths classes target k c seen)
  unfolding count_paths
  count_paths-Ends target zero c seen h = elim h [ ]
  count_paths-Ends target (suc k) c seen h =
      Ends-path_bases classes target _ (bases_of c) seen
        λ b d hb o s. count_paths-Ends target k d s (up h b d hb o)

  pub find_path-Ends :
      (target : Bytes) (k : ℕ) (c : ClassDeclaration) (path : List Edge)
      → Bounded classes k c
      → Ends (find_path classes target k c path)
  unfolding find_path
  find_path-Ends target zero c path h = elim h [ ]
  find_path-Ends target (suc k) c path h =
      Ends-path_edges classes target _ c (bases_of c) path
        λ b d hb o p. find_path-Ends target k d p (up h b d hb o)

  pub visit_overloads-Ends :
      (name : Bytes) (k : ℕ) (c : ClassDeclaration) (found : List MethodPointer)
      → Bounded classes k c
      → Ends (visit_overloads classes name k c found)
  unfolding visit_overloads
  visit_overloads-Ends name zero c found h = elim h [ ]
  visit_overloads-Ends name (suc k) c found (bounded h) =
      Ends-each_base classes _ c.base_class_names _
        λ n d hn o t. visit_overloads-Ends name k d t (h n d hn o)

  pub visit_virtual-Ends :
      (k : ℕ) (c : ClassDeclaration) (s : VirtualNames)
      → Bounded classes k c
      → Ends (visit_virtual classes k c s)
  unfolding visit_virtual
  visit_virtual-Ends zero c s h = elim h [ ]
  visit_virtual-Ends (suc k) c (result, seen) h =
      Ends-virtual_bases classes _ (bases_of c) result seen
        λ b d hb o t. visit_virtual-Ends k d t (up h b d hb o)

  pub inherited_fields-Ends :
      (k : ℕ) (c : ClassDeclaration) → Bounded classes k c → Ends (inherited_fields classes k c)
  unfolding inherited_fields
  inherited_fields-Ends zero c h = elim h [ ]
  inherited_fields-Ends (suc k) c (bounded h) =
      Ends-bind
        (Ends-each_base classes _ c.base_class_names []
          λ n d hn o t. Ends-bind (inherited_fields-Ends k d (h n d hn o)) λ _. ends)
        λ _. ends

module _ (a : Analyzer) where
  pub contains-Ends :
      (name : Bytes) (is_method : Bool) (k : ℕ) (c : ClassDeclaration) (path : List Edge)
      → Bounded a.classes k c
      → Ends (contains a name is_method k c path)
  unfolding contains
  contains-Ends name is_method zero c path h = elim h [ ]
  contains-Ends name is_method (suc k) c path h =
      Ends-case (declared_access name is_method c)
        (Ends-any_base a.classes _ (bases_of c)
          λ b d hb o. contains-Ends name is_method k d _ (up a.classes h b d hb o))
        λ _ _. ends

  pub member_accessible-Ends :
      (name : Bytes) (is_method : Bool) (k : ℕ) (c : ClassDeclaration)
      → Bounded a.classes k c
      → Ends (member_accessible a k c name is_method)
  unfolding member_accessible
  member_accessible-Ends name is_method k c h = contains-Ends name is_method k c [] h

  pub visit_through-Ends :
      (owner : ClassDeclaration) (p : MethodPointer) (k : ℕ) (c : ClassDeclaration)
      (path : List Bytes)
      → Bounded a.classes k c
      → Ends (visit_through a owner p k c path)
  unfolding visit_through
  visit_through-Ends owner p zero c path h = elim h [ ]
  visit_through-Ends owner p (suc k) c path h =
      Ends-if (holds_method a owner path c p 0 c.methods) ends (
        Ends-any_base a.classes _ (bases_of c)
          λ b d hb o. visit_through-Ends owner p k d _ (up a.classes h b d hb o))

  readable-Ends :
      (name : Bytes) (current : ClassDeclaration) (b : Base) (k : ℕ) (c : ClassDeclaration)
      → Bounded a.classes k c
      → Ends (enters_readable a k name current b c)
  unfolding enters_readable
  readable-Ends name current b k c h =
      Ends-if (base_path_accessible a current (b.name ∷ []))
        (member_accessible-Ends name false k c h) ends

  pub visit_member-Ends :
      {A : Type 0} (name : Bytes) (own : ClassDeclaration → Option A) (k : ℕ) (c : ClassDeclaration)
      (seen : List Bytes)
      → Bounded a.classes k c
      → Ends (visit_member a name own k c seen)
  unfolding visit_member
  visit_member-Ends name own zero c seen h = elim h [ ]
  visit_member-Ends name own (suc k) c seen h =
      Ends-case (own c)
        (Ends-find_bases a _ _ (bases_of c) none seen λ b d hb o.
          let hd = up a.classes h b d hb o in
          (readable-Ends name c b k d hd, λ s. visit_member-Ends name own k d s hd))
        λ _ _. ends

  pub visit_count-Ends :
      (own : ClassDeclaration → ℕ) (k : ℕ) (c : ClassDeclaration) (seen : List Bytes)
      → Bounded a.classes k c
      → Ends (visit_count a own k c seen)
  unfolding visit_count
  visit_count-Ends own zero c seen h = elim h [ ]
  visit_count-Ends own (suc k) c seen h =
      Ends-if (own c == 0)
        (Ends-count_bases a.classes enters_all _ (bases_of c) seen
          λ b d hb o. (ends, λ s. visit_count-Ends own k d s (up a.classes h b d hb o)))
        ends

  if_accessible-Ends :
      (name : Bytes) (is_method : Bool) (k : ℕ) (c : ClassDeclaration)
      → Bounded a.classes k c
      → Ends (count_if_accessible a k c name is_method)
  if_accessible-Ends name is_method k c h =
      Ends-bind (member_accessible-Ends name is_method k c h) λ _. ends

  visit_accessible-Ends :
      (name : Bytes) (is_method : Bool) (k : ℕ) (c : ClassDeclaration) (seen : List Bytes)
      → Bounded a.classes k c
      → Ends (visit_accessible a name is_method k c seen)
  unfolding visit_accessible
  visit_accessible-Ends name is_method zero c seen h = elim h [ ]
  visit_accessible-Ends name is_method (suc k) c seen h =
      Ends-if (has_member name is_method c)
        (Ends-bind (if_accessible-Ends name is_method (suc k) c h) λ _. ends)
        (Ends-count_bases a.classes _ _ (bases_of c) seen λ b d hb o.
          (ends, λ s. visit_accessible-Ends name is_method k d s (up a.classes h b d hb o)))

  pub accessible_member_count-Ends :
      (name : Bytes) (is_method : Bool) (k : ℕ) (c : ClassDeclaration)
      → Bounded a.classes k c
      → Ends (accessible_member_count a k c name is_method)
  unfolding accessible_member_count
  accessible_member_count-Ends name is_method zero c h = elim h [ ]
  accessible_member_count-Ends name is_method (suc k) c h =
      Ends-if (declares name is_method c) (if_accessible-Ends name is_method (suc k) c h) (
        Ends-bind
          (Ends-count_bases a.classes _ _ (bases_of c) [] λ b d hb o.
            (ends, λ s. visit_accessible-Ends name is_method k d s (up a.classes h b d hb o)))
          λ _. ends)

  pub find_method-Ends :
      (name : Bytes) (k : ℕ) (c : ClassDeclaration)
      → Bounded a.classes k c
      → Ends (find_method a name k c)
  unfolding find_method
  find_method-Ends name zero c h = elim h [ ]
  find_method-Ends name (suc k) c (bounded h) =
      Ends-case (method_of c.name name 0 c.methods)
        (Ends-bind (accessible_member_count-Ends name true (suc k) c (bounded h)) λ count.
          Ends-if (count == 1)
            (Ends-method_bases a k _ c name c.base_class_names λ n d hn o. (
              accessible_member_count-Ends name true k d (h n d hn o),
              find_method-Ends name k d (h n d hn o),
            ))
            ends)
        λ _ _. ends
