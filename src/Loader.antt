-- ===== src/Loader.antt =====
-- src/SourceLoader.cpp: Paths has what it uses of
-- `std::filesystem::path`, Expand the loop over the tokens and Included what the set of files is.
pub mod Paths
pub mod Expand
pub mod Included
