-- ===== src/Integrity.antt =====
-- src/PackageIntegrity.cpp: Words has the operations of `std::uint32_t`, Sha256 the hash with its
-- buffer, Digest the hash of a whole message, and Buffer, Finish and Streaming the proof that they agree.
pub mod Words
pub mod Sha256
pub mod Digest
pub mod Buffer
pub mod Finish
pub mod Streaming
