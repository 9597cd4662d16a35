-- ===== src/Flow.antt =====
-- The checks of control flow at the top of src/SemanticAnalyzer.cpp.
pub mod FallThrough
pub mod Paths
pub mod Completion
