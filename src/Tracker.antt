-- ===== src/Tracker.antt =====
-- src/shm_malloc.c and src/shm_malloc.h: the tracker in shared memory, through which the tenants of a
-- server and the tracker process trade pages. `State` has the structure and the semaphore, `Alloc`
-- the pages, `Scores` the victor and the victim, `Flags` the requests and locks, `Calls` a sequence
-- of calls; the modules below those prove what they promise.
pub mod State
pub mod Alloc
pub mod Scores
pub mod Flags
pub mod Calls
