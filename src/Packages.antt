-- ===== src/Packages.antt =====
-- src/PackageRegistry.cpp. Versions: Split has the cutting of texts, Version the versions with
-- their comparison, Order, Precedence and Numbers what it compares, Written and Reading that a
-- version is read as it is written. Manifests: Names, Toml and Arrays have the tests on names and
-- the values, Quoting, ArrayItems and ArrayText that values are read back. Packages: Manifest and
-- Select have the choice of a candidate, Best, Selected and Chosen what is chosen. Resolver has the
-- visits of dependencies and the attempts; Graphs, Visits, Descent and Resolution are about what
-- they leave behind, SortedPins, Pinned, Compatible, Together and Convergence about when they
-- succeed. Lock has the lines of a lock and LockChecks the checks, LockOrder, LockVisits, LockLines,
-- LockPackages and Locked what is read. Sorted, Missing and Searches are shared: maps in order, fuel
-- for names, and code that may throw.
pub mod Split
pub mod Version
pub mod Order
pub mod Precedence
pub mod Written
pub mod Reading
pub mod Names
pub mod Toml
pub mod Quoting
pub mod Manifest
pub mod Select
pub mod Arrays
pub mod ArrayItems
pub mod ArrayText
pub mod Best
pub mod Numbers
pub mod Selected
pub mod Sorted
pub mod Missing
pub mod Searches
pub mod Resolver
pub mod Lock
pub mod LockChecks
pub mod LockOrder
pub mod LockVisits
pub mod LockPackages
pub mod LockLines
pub mod Locked
pub mod Graphs
pub mod Visits
pub mod Descent
pub mod Chosen
pub mod Resolution
pub mod SortedPins
pub mod Pinned
pub mod Compatible
pub mod Together
pub mod Convergence
