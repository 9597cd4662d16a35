-- ===== src/Mangling.antt =====
-- include/cwhip/Mangling.hpp and include/cwhip/CallbackType.hpp: Types has the texts of callback
-- types, Codes the codes of parameter types, and Prefixes
-- and Distinct the proof that codes tell lists of types apart.
pub mod Types
pub mod Codes
pub mod Prefixes
pub mod Distinct
pub mod Methods
pub mod Signatures
