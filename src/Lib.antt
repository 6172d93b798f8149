-- ===== src/Lib.antt =====
-- MemExchange: memcached tenants that trade pages through a tracker in shared memory and, between
-- servers, through the tracker processes' protocol.
--
-- Tracker (src/shm_malloc.c, src/shm_malloc.h): `Tracker.State` is `struct tracker`, with the
-- semaphore's value; `Tracker.Alloc`, `Tracker.Scores` and `Tracker.Flags` hold one definition for
-- each function, named as in the source with `minID` spelled `min_id`. A call that waits for a
-- semaphore that is not posted is `none`. `Tracker.Calls` runs any sequence of calls. A routine that
-- makes several calls (`Slabs.Victor`, `Slabs.Mover`) makes them with no other process in between.
-- Mtc (src/start_tracker.c): `Mtc.Receiver` is `recv_msg`, with one definition for each kind of
-- packet, and its two waiting loops as steps; `Mtc.Sender` is `send_msg` and a round of
-- `sender_routine`; `Mtc.Process` is the process as a transition system, in which a waiting loop is a
-- phase and each of its rounds a step. The set-up in `main`, the socket calls and the printing are not
-- modelled; a packet that `sendto` refuses ends the process.
-- Assoc (src/assoc.c): the chained hash table of items. `Assoc.Table` has one definition for each
-- function and one for a round of `assoc_maintenance_thread`, over any type of items with a key and
-- any hash function; `Assoc.Valid` is the invariant and `Assoc.History` the table as a map. What
-- `item_trylock` and `calloc` answer are arguments. `Assoc.ItemLock` is the lock table of
-- src/thread.c.
-- Shadow (src/shadows.c, src/shadow_assoc.c): `Shadow.Queue` is the linked queue of a slab class, with
-- addresses as numbers and the null address as zero, `Shadow.Order` the lists that it stands for, and
-- `Shadow.Bound` its bound. `Shadow.Pins` has the critical sections of src/shadows.c under its copy of
-- a hash lock, and the insertion of src/items.c under another. `Shadow.Tree` is the balanced tree of
-- last uses, without deletion; a node with its parent pointers is a subtree with a list of frames.
-- Remote (src/rdma_assoc.c): the hash table of remote items.
-- Slabs (src/slabs.c, src/memcached.h): `Slabs.State` is `slabclass_t` and the item header; `FreeList`
-- and `Free` are the free lists, `Pages` the pages and memory limits, `Alloc` the allocation,
-- `Classes` the size classes; `Reassign`, `Victor` and `Mover` move pages between classes and tenants,
-- with the calls of the tracker in their order. `Victims` is calculate_scores. slab_rebalance_move is
-- not modelled.
-- Items (src/items.c): `Items.Lru` and `Items.Update`, the LRU queues and the update on a hit.
-- Cache (src/cache.c): the object cache with its red zones.
-- Util (src/util.c): the percent encoding, and the conversions of text to numbers, for which the C
-- library's answer is an argument.
-- Stats (src/stats.c): the counters by key prefix, without the text that is made of them.
-- Store (src/items.c, src/memcached.c): the items with their queues, the hash table of `Assoc` and the
-- counters of references. `Store.Items` links, unlinks and finds, `Store.Command` is do_store_item and
-- `Store.Delta` do_add_delta; a call that fails an assertion is `none`. `Store.Whole` says when the
-- parts agree, given the references that callers hold; a lookup's reference is held until it is
-- released. What do_item_alloc and the bump buffer give are arguments, and the calls of slabs_free and
-- of the shadow queue are recorded.
-- Overload (src/rdma_util.c): get_remote_item and its overload control. A thread's place in the call
-- is a `Point`, `step` is one access of the shared atomics, and `Reach` lets the steps of all calls
-- interleave, more than the one caller does, which holds a lock over the call. The clock, the result
-- of ibv_post_send and the data that arrive are in a `Tick`. `alone` runs one call on fuel; 18 steps
-- are enough when its data are there at once.
-- Tokens (src/memcached.c): tokenize_command. A pointer is an index, and a string its bytes.
-- Not modelled: the connections and the other text of the protocol (src/memcached.c), the logger, the
-- crawler and the set-up of RDMA connections, which are mostly calls of libraries; the move of a
-- page's items in src/slabs.c and the maintenance of the LRU queues in src/items.c, which lock several
-- parts at once; and the copies of other projects, bipbuffer.c, itoa_ljust.c and the hash functions.
--
-- Conventions. `size_t` and pointers are numbers below 2 ^ 64 with the wrap-around written out, `int`
-- and `long long` are integers; `double` is a parameter with the laws of IEEE comparison
-- (`Prelude.Doubles`). The operating system's answers (`Tracker.Alloc.Os`) and the C library's
-- conversions of numbers to text and back (`Mtc.State.Text`) are parameters. A subscript of
-- `preset_share` past its four elements is left out of the model: it changes nothing.
pub mod Prelude
pub mod Tracker
pub mod Mtc
pub mod Assoc
pub mod Shadow
pub mod Remote
pub mod Slabs
pub mod Items
pub mod Cache
pub mod Util
pub mod Stats
pub mod Store
pub mod Overload
pub mod Tokens
mod Tests
