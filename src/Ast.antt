-- ===== src/Ast.antt =====
-- include/cwhip/Ast.hpp: the tree of a program. A `std::unique_ptr` that may be null is a `Child`,
-- and a vector of nodes is a list of its own. DumpStatements and
-- Dump have the listing of src/Ast.cpp, Clone the copy of an expression and Builtin the built-in exception class.
pub mod Expressions
pub mod Statements
pub mod Declarations
pub mod Clone
pub mod DumpStatements
pub mod Dump
pub mod Builtin
