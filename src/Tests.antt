-- ===== src/Tests.antt =====
-- The tests and the theorems at concrete inputs.
mod Lexer
mod Packages
mod Integrity
mod CommandLine
mod Mangling
mod Select
mod Parser
mod Loader
mod Flow
mod Inheritance
mod Naming
mod Resolve
mod Lock
mod Converge
