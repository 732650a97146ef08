-- ===== src/Types.antt =====
-- crates/types: byte strings and bitfields.
pub mod Bytes
pub mod Endian
pub mod Bitlist
pub mod Ots
mod Examples
