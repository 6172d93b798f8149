-- ===== src/Items.antt =====
-- The queues of src/items.c, from the item used last to the one used first.
pub mod Lru
pub mod Links
pub mod Update
pub mod Frames
