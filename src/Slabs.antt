-- ===== src/Slabs.antt =====
-- The slab allocator of src/slabs.c: size classes, free lists, pages, and the reassignment of pages.
pub mod State
pub mod FreeList
pub mod Free
pub mod Pages
pub mod Alloc
pub mod Classes
pub mod Reassign
pub mod Victor
pub mod Mover
pub mod Victims
