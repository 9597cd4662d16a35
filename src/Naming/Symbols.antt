-- ===== src/Naming/Symbols.antt =====
-- The symbols of `SemanticAnalyzer`: `findSymbolIndex`, `initializationState` and
-- `restoreInitializationState` of src/SemanticAnalyzer.cpp.
use simp.Base.{
  ℕ, ◌≡◌, refl, ap, Bool, List, [], ◌∷◌, ◌++◌, map, Bytes, length, SourceLocation, arith,
}
use simp.Base.Tables.{Table, find, case_option}

pub record SymbolInfo : Type 0 where
  pub name : Bytes
  pub type_text : Bytes
  pub initialized : Bool
  pub location : SourceLocation
  pub read_only : Bool

-- The loop over the scopes, whose innermost is the front of the list.
unfoldable pub find_symbol_index : List (Table ℕ) → List SymbolInfo → Bytes → ℕ
find_symbol_index [] symbols name = length symbols
find_symbol_index (scope ∷ scopes) symbols name =
    let rest = find_symbol_index scopes symbols name in
    case_option (find name scope) rest λ index. index

unfoldable pub initialization_state : List SymbolInfo → List Bool
initialization_state [] = []
initialization_state (s ∷ symbols) = s.initialized ∷ initialization_state symbols

-- There are at least as many symbols as flags.
unfoldable pub restore_initialization_state : List Bool → List SymbolInfo → List SymbolInfo
restore_initialization_state [] symbols = symbols
restore_initialization_state (flag ∷ flags) [] = []
restore_initialization_state (flag ∷ flags) (s ∷ symbols) =
    record s { initialized = flag } ∷ restore_initialization_state flags symbols

-- When a branch has changed flags of the symbols and declared more, restoring the state from before
-- it brings back the flags of those symbols and leaves the others, and no name changes.
pub restore-initialization_state :
    (before changed more : List SymbolInfo)
    → length changed ≡ length before
    → (initialization_state
          (restore_initialization_state (initialization_state before) (changed ++ more))
        ≡ initialization_state before ++ initialization_state more)
      × (map
            (λ s. s.name)
            (restore_initialization_state (initialization_state before) (changed ++ more))
          ≡ map (λ s. s.name) (changed ++ more))
unfolding initialization_state restore_initialization_state
restore-initialization_state [] [] more e = (refl, refl)
restore-initialization_state [] (c ∷ changed) more e = absurd (omega (arith, e))
restore-initialization_state (b ∷ before) [] more e = absurd (omega (arith, e))
restore-initialization_state (b ∷ before) (c ∷ changed) more e =
    let (flags, names) = restore-initialization_state before changed more (omega (arith, e)) in
    (ap (λ fs. b.initialized ∷ fs) flags, ap (λ ns. c.name ∷ ns) names)
