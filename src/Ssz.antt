-- ===== src/Ssz.antt =====
-- crates/ssz: merkleization.
pub mod Merkleize
mod Examples
