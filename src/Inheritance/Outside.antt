-- ===== src/Inheritance/Outside.antt =====
-- About `basePathAccessible` of src/SemanticInheritance.cpp outside of classes.
use simp.Base.{
  ◌≡◌, refl, sym, ap, ap₂, subst, ◌∙◌, Bool, true, false, List, [], ◌∷◌, Bytes, some, none,
  Option-cases, Bool-cases, In, inl, inr, if◌then◌else◌, ◌↔◌,
}
use simp.Base.Tables.{Table, find}
use simp.Ast.Declarations.{
  AccessLevel, public_level, protected_level, private_level, ClassDeclaration,
}
use simp.Inheritance.Classes.{Analyzer, Base, bases_of}
use simp.Inheritance.Walks.{Walk, walked, exhausted, ◌>>=◌, any_base}
use simp.Inheritance.Access.{
  Restriction, unrestricted, is_public, restrict, find_base, declared_access, permits, walk_path,
  base_path_accessible,
}

-- A path of bases each of which is found and declared public where it is named.
pub data IsPublicPath (classes : Table ClassDeclaration)
    : List Bytes → ClassDeclaration → Type 0 where
  here : {c : ClassDeclaration} → IsPublicPath classes [] c
  up :
      {name : Bytes} {path : List Bytes} {c d : ClassDeclaration} (b : Base)
      → find_base name (bases_of c) ≡ some b
      → b.access ≡ public_level
      → find name classes ≡ some d
      → IsPublicPath classes path d
      → IsPublicPath classes (name ∷ path) c

-- A member that is public, behind such a path.
pub data IsPublicMember (classes : Table ClassDeclaration) (name : Bytes) (is_method : Bool)
    : ClassDeclaration → Type 0 where
  declared :
      {c : ClassDeclaration}
      → declared_access name is_method c ≡ some public_level
      → IsPublicMember classes name is_method c
  inherited :
      {c d : ClassDeclaration} (b : Base)
      → declared_access name is_method c ≡ none
      → In b (bases_of c)
      → b.access ≡ public_level
      → find b.name classes ≡ some d
      → IsPublicMember classes name is_method d
      → IsPublicMember classes name is_method c

pub bind-walked :
    {A B : Type 0} (w : Walk A) (f : A → Walk B) (x : B)
    → w >>= f ≡ walked x
    → (a : A) × (w ≡ walked a) × (f a ≡ walked x)
bind-walked (walked a) f x e = (a, refl, e)
bind-walked exhausted f x e = absurd (cc e)

module _ (classes : Table ClassDeclaration) (visit : Base → ClassDeclaration → Walk Bool) where
  pub any-true :
      (bases : List Base)
      → any_base classes visit bases ≡ walked true
      → (b : Base) × (d : ClassDeclaration) × In b bases
        × (find b.name classes ≡ some d)
        × (visit b d ≡ walked true)
  unfolding any_base
  any-true [] e = absurd (cc e)
  any-true (b ∷ bases) e = elim (Option-cases (find b.name classes)) [
    | inl o ↦ let (b', d, i, k, r) = any-true bases (rw o at e) in (b', d, inr i, k, r)
    | inr (c, o) ↦
        let (found, e', r) = bind-walked (visit b c) _ true (rw o at e) in
        elim (Bool-cases found) [
          | inl t ↦ (b, c, inl refl, o, e' ∙ ap walked t)
          | inr t ↦ let (b', d, i, k, q) = any-true bases (rw t at r) in (b', d, inr i, k, q)
        ]
  ]

  pub any-false :
      (bases : List Base)
      → any_base classes visit bases ≡ walked false
      → (b : Base) (d : ClassDeclaration) → In b bases
      → find b.name classes ≡ some d
      → visit b d ≡ walked false
  unfolding any_base
  any-false [] e b d i o = absurd i
  any-false (b' ∷ bases) e b d i o = elim (Option-cases (find b'.name classes)) [
    | inl o' ↦ elim i [
      | inl e' ↦ absurd (cc (o', o, ap (λ x. x.name) e'))
      | inr i' ↦ any-false bases (rw o' at e) b d i' o
    ]
    | inr (c, o') ↦
        let (found, e', r) = bind-walked (visit b' c) _ false (rw o' at e) in
        elim (Bool-cases found) [
          | inl t ↦ absurd (cc (rw t at r))
          | inr t ↦ elim i [
            | inl s ↦
                let same : c ≡ d = cc (o', subst (λ x. find x.name classes ≡ some d) s o) in
                ap₂ visit s (sym same) ∙ e' ∙ ap walked t
            | inr i' ↦ any-false bases (rw t at r) b d i' o
          ]
        ]
  ]

pub restrict-public :
    (access : AccessLevel) (name : Bytes) (r : Restriction)
    → (restrict access name r).effective ≡ public_level
    → (access ≡ public_level) × (r.effective ≡ public_level)
unfolding restrict
restrict-public public_level name r e = (refl, e)
restrict-public private_level name r e = absurd (cc e)
restrict-public protected_level name r e =
    absurd (never-public (is_public r.effective) r name refl e)
  where
    never-public :
        (b : Bool) (r : Restriction) (name : Bytes)
        → is_public r.effective ≡ b
        → (if b then record { effective = protected_level; restricted_at = name } else r).effective
          ≡ public_level
        → ⊥
    never-public true r name h e = cc e
    never-public false r name h e = absurd (cc (rw e at h))

module _ (a : Analyzer) (outside : a.current_class ≡ none) where
  pub permits-public :
      (access : AccessLevel) (name : Bytes) → permits a access name ≡ true → access ≡ public_level
  unfolding permits
  permits-public public_level name e = refl
  permits-public protected_level name e = absurd (cc (rw outside at e))
  permits-public private_level name e = absurd (cc (rw outside at e))

  pub public-permits :
      (access : AccessLevel) (name : Bytes) → access ≡ public_level → permits a access name ≡ true
  unfolding permits
  public-permits access name e = rw e refl

  walk-public :
      (path : List Bytes) (c : ClassDeclaration) (r r' : Restriction)
      → walk_path a path c r ≡ some r'
      → r'.effective ≡ public_level
      → IsPublicPath a.classes path c × (r.effective ≡ public_level)
  unfolding walk_path
  walk-public [] c r r' e p = (here, cc (e, p))
  walk-public (name ∷ path) c r r' e p = elim (Option-cases (find_base name (bases_of c))) [
    | inl o ↦ absurd (cc (rw o at e))
    | inr (b, o) ↦ elim (Option-cases (find name a.classes)) [
      | inl o' ↦ absurd (cc (rw (o, o') at e))
      | inr (d, o') ↦
          let (rest, q) = walk-public path d (restrict b.access c.name r) r' (rw (o, o') at e) p in
          let (public_base, q') = restrict-public b.access c.name r q in
          (up b o public_base o' rest, q')
    ]
  ]

  public-walk :
      (path : List Bytes) (c : ClassDeclaration) (r : Restriction)
      → IsPublicPath a.classes path c
      → r.effective ≡ public_level
      → (r' : Restriction) × (walk_path a path c r ≡ some r') × (r'.effective ≡ public_level)
  unfolding walk_path restrict
  public-walk [] c r here p = (r, refl, p)
  public-walk (name ∷ path) c r (up b o public_base o' rest) p =
      let (r', e, q) = public-walk path _ r rest p in (r', rw (o, o', public_base) e, q)

  -- Outside of classes `basePathAccessible` holds of a path exactly when each of its bases is found
  -- and is declared public.
  pub base_path_accessible-outside :
      (owner : ClassDeclaration) (path : List Bytes)
      → (base_path_accessible a owner path ≡ true) ↔ IsPublicPath a.classes path owner
  unfolding base_path_accessible
  base_path_accessible-outside owner path = (
    λ e. elim (Option-cases (walk_path a path owner unrestricted)) [
      | inl o ↦ absurd (cc (rw o at e))
      | inr (r, o) ↦ (walk-public path owner unrestricted r o (permits-public _ _ (rw o at e))).0
    ],
    λ p.
        let (r, o, q) = public-walk path owner unrestricted p refl in
        rw o (public-permits r.effective r.restricted_at q),
  )
