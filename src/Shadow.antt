-- ===== src/Shadow.antt =====
-- The shadow queues of src/shadows.c: the keys evicted lately, by slab class.
pub mod Order
pub mod Queue
pub mod Bound
pub mod Table
pub mod Tree
pub mod Pins
