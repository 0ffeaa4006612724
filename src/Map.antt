-- ===== src/Map.antt =====
-- src/map: the containers, which are the tree of src/map/tree.c and the hash of src/map/hash.c.
pub mod Tree
pub mod Hash
mod Tests
pub mod Values
