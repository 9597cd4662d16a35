-- ===== src/Naming.antt =====
-- The resolution of names in src/SemanticAnalyzer.cpp.
pub mod Resolve
pub mod Visible
pub mod Symbols
