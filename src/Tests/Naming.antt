-- ===== src/Tests/Naming.antt =====
-- Runs on the symbols of src/SemanticAnalyzer.cpp, and their theorem at a concrete input.
use simp.Base.{◌≡◌, refl, true, false, Bool, String, [], ◌∷◌, map, codes, equal}
use simp.Base.Tables.{find}
use simp.Ast.Expressions.{start_of_file}
use simp.Naming.Symbols.{
  SymbolInfo, find_symbol_index, initialization_state, restore_initialization_state,
  restore-initialization_state,
}

abbrev symbol : String → Bool → SymbolInfo
symbol name initialized = record {
  name = codes name;
  type_text = codes "int";
  initialized = initialized;
  location = start_of_file;
  read_only = false;
}

-- `x` is hidden by an inner one.
inner_first :
    find_symbol_index
      (((codes "x", 1) ∷ []) ∷ ((codes "x", 0) ∷ []) ∷ [])
      (symbol "x" true ∷ symbol "x" false ∷ [])
      (codes "x")
    ≡ 1
unfolding find_symbol_index find equal
inner_first = refl

restore-initialization_state_example :
    (initialization_state (
        restore_initialization_state
          (initialization_state (symbol "x" false ∷ []))
          (symbol "x" true ∷ symbol "y" true ∷ []))
      ≡ false ∷ true ∷ [])
    × (map
          (λ s. s.name)
          (restore_initialization_state
            (initialization_state (symbol "x" false ∷ []))
            (symbol "x" true ∷ symbol "y" true ∷ []))
        ≡ codes "x" ∷ codes "y" ∷ [])
unfolding initialization_state
restore-initialization_state_example =
    restore-initialization_state (symbol "x" false ∷ []) (symbol "x" true ∷ [])
      (symbol "y" true ∷ []) refl
