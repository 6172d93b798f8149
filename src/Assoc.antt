-- ===== src/Assoc.antt =====
-- The chained hash tables that grow bucket by bucket: src/assoc.c for items, and its copies
-- src/shadow_assoc.c for shadow items and src/rdma_assoc.c for remote items. `Table` has the table over
-- any kind of item, and the modules below `Chains` prove what a lookup finds.
pub mod Key
pub mod Table
pub mod Chains
pub mod Valid
pub mod Steps
pub mod Lookup
pub mod Expansion
pub mod History
pub mod ItemLock
