-- ===== src/Packages/LockVisits.antt =====
-- The recursion of the search for cycles in a lock, in src/PackageRegistry.cpp.
use simp.Base.{
  ℕ, zero, suc, ◌<◌, ◌≡◌, refl, sym, ap, ◌∙◌, subst, none, some, List, [], ◌∷◌, inl, inr, Bytes, In,
  map, arith, ◌==◌, ==_iff,
}
use simp.Base.Tables.{Table, find, assign, case_option, find-assign_self}
use simp.Packages.Missing.{missing, missing-found, missing-Keeps}
use simp.Packages.Select.{at}
use simp.Packages.Selected.{option-done, done-injective}
use simp.Packages.Searches.{
  Search, walked, ◌>>=◌, search_of, Ends, ends, throws, Ends-bind, Ends-map, Ends-if, Ends-attempt,
}
use simp.Packages.LockChecks.{target, each_locked, visit_locked}
use simp.Packages.LockOrder.{
  AreStates, After-same, After-chain, Visits, ended, unseen, entered-AreStates, entered-Keeps,
  left-After,
}

target-In :
    (ds : List Bytes) (y : Bytes) → In y (map target ds) → (d : Bytes) × In d ds × (y ≡ target d)
target-In [] y j = absurd j
target-In (d ∷ ds) y (inl e) = (d, inl refl, e)
target-In (d ∷ ds) y (inr j) = let (c, i, e) = target-In ds y j in (c, inr i, e)

module _ (path : Bytes) (dependencies : Table (List Bytes)) (names : List Bytes)
    (closed : (x d : Bytes) (ds : List Bytes)
      → In x names
      → find x dependencies ≡ some ds
      → In d ds
      → In (target d) names) where
  -- What is asked of the visits of single names.
  abbrev VisitEnds : (Bytes → Table ℕ → Search (Table ℕ)) → ℕ → Type 0
  VisitEnds visit f =
      (x : Bytes) (states : Table ℕ) (order : List Bytes)
      → In x names
      → missing names states < f
      → AreStates dependencies states order
      → Ends (Visits dependencies states order (x ∷ [])) (visit x states)

  pub each-Ends :
      (visit : Bytes → Table ℕ → Search (Table ℕ)) (f : ℕ)
      → VisitEnds visit f
      → (xs : List Bytes) (states : Table ℕ) (order : List Bytes)
      → ((x : Bytes) → In x xs → In x names)
      → missing names states < f
      → AreStates dependencies states order
      → Ends (Visits dependencies states order xs) (each_locked visit xs states)
  unfolding each_locked
  each-Ends visit f ve [] states order sub hf s =
      ends (order, After-same dependencies states order s, λ x i. absurd i)
  each-Ends visit f ve (x ∷ xs) states order sub hf s =
      Ends-bind (ve x states order (sub x (inl refl)) hf s) λ t (p, a, here).
        let hf' : missing names t < f = omega (arith, hf, missing-Keeps names states t a.keeps) in
        Ends-map (each-Ends visit f ve xs t p (λ y i. sub y (inr i)) hf' a.sound) λ u (q, b, rest).
          (
            q,
            After-chain dependencies states t u order p q a b,
            λ y i. elim i [ inl e ↦ b.more y (here y (inl e)) | inr i' ↦ rest y i' ],
          )

  new_name :
      (f : ℕ) (x : Bytes) (states : Table ℕ) (order : List Bytes)
      → VisitEnds (visit_locked path dependencies f) f
      → find x states ≡ none
      → In x names
      → missing names states < suc f
      → AreStates dependencies states order
      → Ends (Visits dependencies states order (x ∷ [])) (
          search_of (at x dependencies) >>= λ ds.
          each_locked (visit_locked path dependencies f) (map target ds) (assign x 1 states)
          >>= λ after. walked (assign x 2 after))
  new_name f x states order ve new i hf s = Ends-bind (Ends-attempt (at x dependencies)) λ ds hd.
      let (ds', found, same) = option-done (find x dependencies) _ hd in
      let found' : find x dependencies ≡ some ds = found ∙ ap (λ l. some l) (done-injective same) in
      let keeps = entered-Keeps dependencies x states new in
      Ends-bind
        (each-Ends (visit_locked path dependencies f) f ve (map target ds) (assign x 1 states) order
          (λ y j.
            let (d, k, e) = target-In ds y j in
            subst (λ z. In z names) (sym e) (closed x d ds i found' k))
          (omega (
            arith,
            hf,
            missing-found names states (assign x 1 states) x 1 keeps i new
                (find-assign_self x 1 states),
          ))
          (entered-AreStates dependencies x states new order s))
        λ after (order', a, visited). ends (
          x ∷ order',
          left-After dependencies x states new order after order' ds s found' a visited,
          λ y j. elim j [ inl e ↦ inl e | inr j' ↦ absurd j' ],
        )

  pub visit-Ends : (f : ℕ) → VisitEnds (visit_locked path dependencies f) f
  unfolding visit_locked
  visit-Ends zero x states order i hf s = absurd (omega (arith, hf))
  visit-Ends (suc f) x states order i hf s =
      Ends-if (case_option (find x states) 0 (λ k. k) == 1) (λ _. throws)
        λ n1.
          Ends-if (case_option (find x states) 0 (λ k. k) == 2)
            (λ e. ends (
              order,
              After-same dependencies states order s,
              λ y j. elim j [
                | inl same ↦
                    subst (λ z. In z order) (sym same)
                      (ended dependencies x states order s ((==_iff _ 2).0 e))
                | inr j' ↦ absurd j'
              ],
            ))
            λ n2.
              new_name f x states order (visit-Ends f) (unseen dependencies x states order s n1 n2)
                i hf s
