-- ===== src/Slabs/Alloc.antt =====
-- do_slabs_alloc of src/slabs.c with the remote chunks it falls back to, and the small accessors of
-- the allocator. `slabs_alloc` and `slabs_free` are these calls under `slabs_lock`.
pub mod Local
use mem_exchange.Prelude.{
  ℕ, zero, suc, ◌+◌, ◌%◌, ◌≡◌, Bool, true, false, not, ◌&&◌, ◌==◌, ltb, leb, if◌then◌else◌, Option,
  none, some, add32, sub32, add64, sub64,
}
use mem_exchange.Slabs.State.{
  Item, ItFlags, RemoteItem, SlabClass, Pool, put_item, put_class, is_class, at, zero_page,
  zero_item, no_flags,
}
use mem_exchange.Slabs.FreeList.{pop_free}
use mem_exchange.Slabs.Pages.{Settings, Slabs, Outside, do_slabs_newslab}

abbrev pub put_remote : ℕ → RemoteItem → Pool → Pool
put_remote a r p = record p { remotes = at p.remotes a r }

-- The first remote chunk leaves its list, and a temporary item at `tmp` stands for it.
unfoldable pub pop_remote : ℕ → ℕ → Pool → Pool
pop_remote tmp id p =
    let c = p.slabclass id in
    let r = p.remotes c.rslots in
    let p1 = put_class id (record c { rslots = r.next; sl_curr_r = sub32 c.sl_curr_r 1 }) p in
    let p2 =
      if r.next == 0 then p1 else put_remote r.next (record (p1.remotes r.next) { prev = 0 }) p1 in
    put_item tmp
      (record zero_item {
        refcount = 1;
        page_id = r.page_id;
        r_it = c.rslots;
        slabs_clsid = r.slabs_clsid;
      })
      (zero_page tmp c.size p2)

-- n chunks of a remote page from `rptr` on; `create_remote_item` gives them the addresses of `new`.
unfoldable pub split_remote_page_into_freelist : (ℕ → ℕ) → ℕ → ℕ → ℕ → Pool → Pool
split_remote_page_into_freelist new zero rptr id p = p
split_remote_page_into_freelist new (suc n) rptr id p =
    let c = p.slabclass id in
    let a = new rptr in
    let p1 =
      put_remote a
        (record {
          next = c.rslots;
          prev = 0;
          slabs_clsid = id;
          page_id = (c.slabs + 4294967295) % 65536;
          address = rptr;
        })
        p in
    let p2 =
      if c.rslots == 0
      then p1
      else put_remote c.rslots (record (p1.remotes c.rslots) { prev = a }) p1 in
    split_remote_page_into_freelist new n (rptr + c.size) id
      (put_class id (record c { rslots = a; sl_curr_r = add32 c.sl_curr_r 1 }) p2)

-- `p->requested += size`
abbrev pub request : ℕ → ℕ → Pool → Pool
request id size p =
    let c = p.slabclass id in put_class id (record c { requested = add64 c.requested size }) p

-- after a possible new page: a local chunk, else a remote one, else nothing
unfoldable pub take_chunk : ℕ → ℕ → ℕ → Slabs → ℕ × Slabs
take_chunk tmp size id s =
    let c = s.pool.slabclass id in
    if not (c.sl_curr == 0)
    then (c.slots, record s { pool = request id size (pop_free id s.pool) })
    else (if not (c.sl_curr_r == 0)
        then (tmp, record s { pool = request id size (pop_remote tmp id s.pool) })
        else (0, s))

-- The chunk or zero, what `*total_bytes` is set to, and the state. `no_newpage` is the flag
-- SLABS_ALLOC_NO_NEWPAGE, and `tmp` is what `malloc` gives for a temporary item.
unfoldable pub do_slabs_alloc :
    Settings → Outside → ℕ → ℕ → ℕ → Bool → Slabs → ℕ × (Option ℕ × Slabs)
do_slabs_alloc o out tmp size id no_newpage s =
    let c = s.pool.slabclass id in
    let fresh = (do_slabs_newslab o out id s).1 in
    let s1 = if c.sl_curr == 0 && not no_newpage then fresh else s in
    let (ret, s2) = take_chunk tmp size id s1 in
    if is_class id s.pool then (ret, (some c.requested, s2)) else (0, (none, s))

-- `none` is the call of abort() on a bad class
unfoldable pub slabs_adjust_mem_requested : ℕ → ℕ → ℕ → Pool → Option Pool
slabs_adjust_mem_requested id old ntotal p =
    let c = p.slabclass id in
    if is_class id p
    then some (put_class id (record c { requested = add64 (sub64 c.requested old) ntotal }) p)
    else none

-- the return value, `*mem_flag`, `*total_bytes` and `*chunks_perslab`
unfoldable pub slabs_available_chunks : ℕ → Slabs → ℕ × (Bool × (ℕ × ℕ))
slabs_available_chunks id s =
    let c = s.pool.slabclass id in (c.sl_curr, (s.mem_limit_reached, (c.requested, c.perslab)))

-- `clsid` and `slabid` are of 8 bits, and `hits` of 32.
unfoldable pub incr_slab_hits : ℕ → ℕ → Pool → Pool
incr_slab_hits clsid slabid p =
    let id = clsid % 256 in
    let j = slabid % 256 in
    let c = p.slabclass id in
    if ltb j 3999 then put_class id (record c { hits = at c.hits j (add32 (c.hits j) 1) }) p else p
