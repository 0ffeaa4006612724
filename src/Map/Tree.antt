-- ===== src/Map/Tree.antt =====
-- src/map/tree.c and src/map/tree.h: the red-black tree of the clients and the workers. `Store` has
-- the nodes in memory, `Fix` the rotations and the two repairs, `Ops` the operations; `Shape` is
-- the tree that the memory holds, the others prove what the operations do to it, and
-- `Foreach` has the macro that visits the nodes.
pub mod Store
pub mod Fix
pub mod Ops
pub mod Shape
pub mod Samples
pub mod Access
pub mod Get
pub mod Place
pub mod Grow
pub mod AddNode
pub mod Put
pub mod PutGet
pub mod Remove
pub mod Promote
pub mod Removed
pub mod Foreach
