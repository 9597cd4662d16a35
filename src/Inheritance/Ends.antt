-- ===== src/Inheritance/Ends.antt =====
-- Walks that keep within their fuel, and the loops over bases that do if their visits do.
use simp.Base.{
  ℕ, ◌≡◌, ◌≢◌, refl, Bool, true, false, not, ◌||◌, List, [], ◌∷◌, Bytes, Option, some, none, ◌==◌,
  equal, inl, inr, if◌then◌else◌, In,
}
use simp.Base.Tables.{Table, find, is_member, case_option}
use simp.Ast.Declarations.{ClassDeclaration}
use simp.Inheritance.Classes.{Analyzer, Base}
use simp.Inheritance.Walks.{
  Walk, walked, exhausted, ◌>>=◌, Visit, Enters, skips, any_base, count_bases,
}
use simp.Inheritance.Access.{Edge, MethodPointer, base_path_accessible}
use simp.Inheritance.Members.{find_bases, accessible_member_count}
use simp.Inheritance.Methods.{method_bases, each_base, VirtualNames, virtual_bases}
use simp.Inheritance.Assignable.{path_bases, path_edges}

pub data Ends {A : Type 0} : Walk A → Type 0 where
  ends : {a : A} → Ends (walked a)

pub Ends-ne-exhausted : {A : Type 0} {w : Walk A} → Ends w → w ≢ exhausted
Ends-ne-exhausted ends = cc

pub Ends-bind :
    {A B : Type 0} {w : Walk A} {f : A → Walk B} → Ends w → ((a : A) → Ends (f a)) → Ends (w >>= f)
Ends-bind (ends {a}) k = k a

pub Ends-if : {A : Type 0} (b : Bool) {x y : Walk A} → Ends x → Ends y → Ends (if b then x else y)
Ends-if true hx hy = hx
Ends-if false hx hy = hy

pub Ends-case :
    {A B : Type 0} (o : Option A) {x : Walk B} {f : A → Walk B}
    → Ends x
    → ((a : A) → o ≡ some a → Ends (f a))
    → Ends (case_option o x f)
Ends-case none hx hf = hx
Ends-case (some a) hx hf = hf a refl

module _ (classes : Table ClassDeclaration) where
  -- What is asked of the visits of a loop.
  abbrev pub EachFound : List Base → (Base → ClassDeclaration → Type 0) → Type 0
  EachFound bases P =
      (b : Base) (c : ClassDeclaration) → In b bases → find b.name classes ≡ some c → P b c

  abbrev pub EachNamed : List Bytes → (ClassDeclaration → Type 0) → Type 0
  EachNamed names P =
      (n : Bytes) (c : ClassDeclaration) → In n names → find n classes ≡ some c → P c

  pub Ends-any_base :
      (visit : Base → ClassDeclaration → Walk Bool) (bases : List Base)
      → EachFound bases (λ b c. Ends (visit b c))
      → Ends (any_base classes visit bases)
  unfolding any_base
  Ends-any_base visit [] h = ends
  Ends-any_base visit (b ∷ bases) h =
      let rest = Ends-any_base visit bases λ b' c k o. h b' c (inr k) o in
      Ends-case (find b.name classes) rest
        λ c o. Ends-bind (h b c (inl refl) o) λ found. Ends-if found ends rest

  pub Ends-count_bases :
      (enters : Enters) (visit : Visit ℕ) (bases : List Base) (seen : List Bytes)
      → EachFound bases (λ b c. Ends (enters b c) × ((s : List Bytes) → Ends (visit c s)))
      → Ends (count_bases classes enters visit bases seen)
  unfolding count_bases
  Ends-count_bases enters visit [] seen h = ends
  Ends-count_bases enters visit (b ∷ bases) seen h =
      let rest =
        λ (s : List Bytes). Ends-count_bases enters visit bases s λ b' c k o. h b' c (inr k) o in
      Ends-case (find b.name classes) (rest seen) λ c o. Ends-bind (h b c (inl refl) o).0 λ entered.
        Ends-if (not entered || skips classes b seen) (rest seen)
          (Ends-bind ((h b c (inl refl) o).1 _) λ (_, s). Ends-bind (rest s) λ _. ends)

  pub Ends-path_bases :
      (target : Bytes) (visit : Visit ℕ) (bases : List Base) (seen : List Bytes)
      → EachFound bases (λ b c. (s : List Bytes) → Ends (visit c s))
      → Ends (path_bases classes target visit bases seen)
  unfolding path_bases
  Ends-path_bases target visit [] seen h = ends
  Ends-path_bases target visit (b ∷ bases) seen h =
      let rest =
        λ (s : List Bytes). Ends-path_bases target visit bases s λ b' c k o. h b' c (inr k) o in
      Ends-case (find b.name classes) (rest seen) λ c o.
        Ends-if (skips classes b seen) (rest seen) (
          Ends-if (equal b.name target) (Ends-bind (rest _) λ _. ends)
            (Ends-bind (h b c (inl refl) o _) λ (_, s). Ends-bind (rest s) λ _. ends))

  pub Ends-path_edges :
      (target : Bytes) (visit : ClassDeclaration → List Edge → Walk (Option (List Edge)))
      (owner : ClassDeclaration) (bases : List Base) (path : List Edge)
      → EachFound bases (λ b c. (p : List Edge) → Ends (visit c p))
      → Ends (path_edges classes target visit owner bases path)
  unfolding path_edges
  Ends-path_edges target visit owner [] path h = ends
  Ends-path_edges target visit owner (b ∷ bases) path h =
      let rest = Ends-path_edges target visit owner bases path λ b' c k o. h b' c (inr k) o in
      Ends-case (find b.name classes) rest λ c o.
        Ends-if (equal b.name target) ends
          (Ends-bind (h b c (inl refl) o _) λ found. Ends-case found rest λ _ _. ends)

  pub Ends-each_base :
      {S : Type 0} (visit : ClassDeclaration → S → Walk S) (names : List Bytes) (s : S)
      → EachNamed names (λ c. (t : S) → Ends (visit c t))
      → Ends (each_base classes visit names s)
  unfolding each_base
  Ends-each_base visit [] s h = ends
  Ends-each_base {S} visit (n ∷ ns) s h =
      let rest = λ (t : S). Ends-each_base visit ns t λ m c k o. h m c (inr k) o in
      Ends-case (find n classes) (rest s) λ c o. Ends-bind (h n c (inl refl) o s) rest

  pub Ends-virtual_bases :
      (visit : ClassDeclaration → VirtualNames → Walk VirtualNames) (bases : List Base)
      (result seen : List Bytes)
      → EachFound bases (λ b c. (t : VirtualNames) → Ends (visit c t))
      → Ends (virtual_bases classes visit bases (result, seen))
  unfolding virtual_bases
  Ends-virtual_bases visit [] result seen h = ends
  Ends-virtual_bases visit (b ∷ bases) result seen h =
      let rest =
        λ (r s : List Bytes). Ends-virtual_bases visit bases r s λ b' c k o. h b' c (inr k) o in
      Ends-case (find b.name classes) (rest result seen) λ c o.
        Ends-if b.is_virtual
          (Ends-if (is_member b.name seen) (rest result seen)
            (Ends-bind (h b c (inl refl) o _) λ (r, s). rest _ s))
          (Ends-bind (h b c (inl refl) o _) λ (r, s). rest r s)

module _ (a : Analyzer) where
  pub Ends-find_bases :
      {A : Type 0} (enters : Enters) (visit : Visit (Option A)) (bases : List Base)
      (result : Option A) (seen : List Bytes)
      → EachFound a.classes bases (λ b c. Ends (enters b c) × ((s : List Bytes) → Ends (visit c s)))
      → Ends (find_bases a enters visit bases result seen)
  unfolding find_bases
  Ends-find_bases enters visit [] result seen h = ends
  Ends-find_bases {A} enters visit (b ∷ bases) result seen h =
      let rest = λ (r : Option A) (s : List Bytes).
        Ends-find_bases enters visit bases r s λ b' c k o. h b' c (inr k) o in
      Ends-case (find b.name a.classes) (rest result seen) λ c o.
        Ends-bind (h b c (inl refl) o).0 λ entered.
          Ends-if (not entered || skips a.classes b seen) (rest result seen) (
            Ends-bind ((h b c (inl refl) o).1 _) λ (candidate, s).
              Ends-case candidate (rest result s)
                λ found _. Ends-case result (rest (some found) s) λ _ _. ends)

  pub Ends-method_bases :
      (f : ℕ) (visit : ClassDeclaration → Walk (Option MethodPointer))
      (declaration : ClassDeclaration) (name : Bytes) (names : List Bytes)
      → EachNamed a.classes names
          (λ c. Ends (accessible_member_count a f c name true) × Ends (visit c))
      → Ends (method_bases a f visit declaration name names)
  unfolding method_bases
  Ends-method_bases f visit declaration name [] h = ends
  Ends-method_bases f visit declaration name (n ∷ ns) h =
      let rest = Ends-method_bases f visit declaration name ns λ m c k o. h m c (inr k) o in
      Ends-case (find n a.classes) rest λ c o.
        Ends-if (base_path_accessible a declaration (n ∷ []))
          (Ends-bind (h n c (inl refl) o).0
            λ count. Ends-if (count == 0) rest (h n c (inl refl) o).1)
          rest
