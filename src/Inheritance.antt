-- ===== src/Inheritance.antt =====
-- src/SemanticInheritance.cpp and the checks of src/SemanticAnalyzer.cpp on which it relies.
pub mod Classes
pub mod Above
pub mod Subclass
pub mod Unvisited
pub mod Scanned
pub mod Subclasses
pub mod Walks
pub mod Access
pub mod Members
pub mod Methods
pub mod Assignable
pub mod Overloads
pub mod Bounded
pub mod Ends
pub mod Endings
pub mod Total
pub mod Dominance
pub mod Chosen
pub mod Outside
pub mod PublicMembers
pub mod Cycles
pub mod CycleSteps
pub mod CycleFree
