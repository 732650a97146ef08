-- ===== src/Maps.antt =====
-- The maps of the standard library that the program uses.
pub mod BTree
pub mod Hash
