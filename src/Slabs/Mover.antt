-- ===== src/Slabs/Mover.antt =====
-- The slab mover of src/slabs.c at the two ends of a move: slab_rebalance_start takes a page out of
-- use, slab_rebalance_finish gives it to its new owner. Their calls of the tracker stand in their order,
-- with no step of another process between them.
use mem_exchange.Prelude.{
  ℕ, zero, suc, ◌+◌, ◌-◌, ◌*◌, ◌/◌, ◌%◌, Bool, true, false, not, ◌&&◌, ◌||◌, ◌==◌, ltb, leb,
  if◌then◌else◌, Option, none, some, ℤ, pos, negsuc, ◌==ℤ◌, pos_part, Double, add64, sub64,
  through_int, word,
}
use mem_exchange.Tracker.State.{Tracker, M, ◌>>=◌, return, get_tracker}
use mem_exchange.Tracker.Alloc.{Os, shm_malloc_spare, set_spare_mem, set_remote_mem}
use mem_exchange.Tracker.Scores.{reset_min_score, unlock_min_score}
use mem_exchange.Tracker.Flags.{reset_locks, unlock_spare, reset_remote_spare, set_rdma_access_port}
use mem_exchange.Slabs.State.{SlabClass, Pool, put_item, put_class, zero_page, page_pool}
use mem_exchange.Slabs.Pages.{
  Settings, Slabs, grow_slab_list, split_slab_page_into_freelist, list_page, memory_release,
}
use mem_exchange.Slabs.Alloc.{split_remote_page_into_freelist, put_remote}
use mem_exchange.Slabs.Reassign.{
  Tenant, tenant_slab, tenant_local, tenant_remote, external, try_to_broadcast, done, Mover,
  in_range,
}

-- the product of two `unsigned int`s
abbrev pub mul32 : ℕ → ℕ → ℕ
mul32 a b = (a * b) % 4294967296

abbrev pub class_of : ℤ → Pool → SlabClass
class_of x p = p.slabclass (pos_part x)

-- `no_go` after the tests for a move inside the tenant; `grown` is what grow_slab_list gave
unfoldable pub no_go : Bool → Pool → Mover → ℤ
no_go grown p m =
    let s = m.rebal.s_clsid in
    let d = m.rebal.d_clsid in
    let bad = not (in_range 1 s p) || (not (in_range 0 d p) || s ==ℤ d) in
    if external m.realloc_source
    then (if grown then pos 0 else negsuc 0)
    else (if external m.realloc_destination
        then pos 0
        else (if not grown
            then negsuc 0
            else (if ltb (class_of s p).slabs 2
                then negsuc 2
                else (if bad then negsuc 1 else pos 0))))

-- the class whose page is moved
unfoldable pub moved_class : Pool → Mover → SlabClass
moved_class p m =
    let c = class_of m.rebal.s_clsid p in
    if external m.realloc_source && c.slabs == 0 then class_of m.rebal.d_clsid p else c

-- The result, the pool and the mover. The classes of a move are in the array when it starts, as
-- do_slabs_reassign tests; only then is the start modelled.
unfoldable pub slab_rebalance_start : Bool → Pool → Mover → ℤ × (Pool × Mover)
slab_rebalance_start realloc_ok p m =
    let inside = not (external m.realloc_source) && not (external m.realloc_destination) in
    let (grown, p') = grow_slab_list realloc_ok (pos_part m.rebal.d_clsid) p in
    let p1 = if inside || external m.realloc_source then p' else p in
    let code = no_go grown p m in
    let c = moved_class p1 m in
    let start =
      if external m.realloc_destination
      then c.slab_list (pos_part m.slab_to_release)
      else c.slab_list 0 in
    let m1 = record m {
      rebal = record m.rebal {
        slab_start = start;
        slab_end = start + mul32 c.size c.perslab;
        slab_pos = start;
        done = 0;
      };
      signal = 2;
      is_taken_careof = if external m.realloc_destination then true else m.is_taken_careof;
    } in
    if code ==ℤ pos 0 then (code, (p1, m1)) else (code, (p1, m))

-- `page_id--` where it is positive, on the n items from `ptr` on
unfoldable pub renumber : ℕ → ℕ → ℕ → Pool → Pool
renumber zero ptr size p = p
renumber (suc n) ptr size p =
    let e = p.items ptr in
    renumber n (ptr + size) size (put_item ptr (record e { page_id = e.page_id - 1 }) p)

-- the same on the n remote items that the array `page` names, from entry `y` on
unfoldable pub renumber_remote : ℕ → ℕ → (ℕ → ℕ) → Pool → Pool
renumber_remote zero y page p = p
renumber_remote (suc n) y page p =
    let r = p.remotes (page y) in
    renumber_remote n (y + 1) page (put_remote (page y) (record r { page_id = r.page_id - 1 }) p)

-- The entries after `r` of an array move down by one, and entry `n` becomes NULL.
abbrev pub shift : ℕ → ℕ → (ℕ → ℕ) → ℕ → ℕ
shift r n f x = if x == n then 0 else (if leb r x && ltb x n then f (x + 1) else f x)

-- the items of the n pages from entry `x` on; `pages` gives the array of a remote page
unfoldable pub renumber_pages : (ℕ → ℕ → ℕ) → ℕ → ℕ → SlabClass → Pool → Pool
renumber_pages pages zero x c p = p
renumber_pages pages (suc n) x c p =
    let ptr = c.slab_list x in
    renumber_pages pages n (x + 1) c (
      if c.conn x == 0
      then renumber c.perslab ptr c.size p
      else renumber_remote c.perslab 0 (pages ptr) p)

-- `slab_to_release` is an entry of the array: the page leaves class `id`.
unfoldable pub remove_page : (ℕ → ℕ → ℕ) → ℕ → ℕ → Pool → Pool
remove_page pages r id p =
    let c = p.slabclass id in
    let n = c.slabs - 1 in
    let c1 = record c {
      slabs = n;
      slab_list = shift r n c.slab_list;
      hits = shift r n c.hits;
      rkey = shift r n c.rkey;
      conn = shift r n c.conn;
    } in
    renumber_pages pages (n - r) r c1 (put_class id c1 p)

-- `slab_to_release` is -1, as in a move inside the tenant: the arrays move down by one from entry 0 on,
-- and entry 0 goes in front of them. In front of `hits` lies the high half of `requested`.
unfoldable pub remove_before : (ℕ → ℕ → ℕ) → ℕ → Pool → Pool
remove_before pages id p =
    let c = p.slabclass id in
    let p1 =
      if c.conn 0 == 0
      then renumber c.perslab (c.slab_list 0) c.size p
      else renumber_remote c.perslab 0 (pages (c.slab_list 0)) p in
    let p2 = remove_page pages 0 id p1 in
    let c2 = p2.slabclass id in
    put_class id (record c2 { requested = c2.requested % 4294967296 + c.hits 0 * 4294967296 }) p2

unfoldable pub release_page : (ℕ → ℕ → ℕ) → ℤ → ℕ → Pool → Pool
release_page pages (pos r) id p = remove_page pages r id p
release_page pages (negsuc r) id p = remove_before pages id p

-- the bookkeeping of a move between classes of this tenant
unfoldable pub settle : Settings → ℕ → ℕ → ℕ → ℕ → Slabs → Slabs
settle o n start s_id d_id s =
    let c = s.pool.slabclass s_id in
    let p1 =
      list_page d_id start ((s.pool.slabclass d_id).rkey (s.pool.slabclass d_id).slabs)
        ((s.pool.slabclass d_id).conn (s.pool.slabclass d_id).slabs) s.pool in
    let len = mul32 c.size c.perslab in
    let split =
      split_slab_page_into_freelist o (len / (p1.slabclass d_id).size) start d_id
        (zero_page start len p1) in
    if d_id == page_pool
    then memory_release o n (record s { pool = p1 })
    else record s { pool = split }

unfoldable pub finish_mover : Mover → Mover
finish_mover m =
    let rebal = record m.rebal {
      done = 0;
      s_clsid = pos 0;
      slab_start = 0;
      slab_end = 0;
      slab_pos = 0;
      evictions_nomem = 0;
      inline_reclaim = 0;
      rescues = 0;
    } in
    let m1 = record m {
      rebal = rebal;
      realloc_source = tenant_slab;
      realloc_destination = tenant_slab;
    } in
    if external m.realloc_source
    then record m1 { signal = 10; transfer = try_to_broadcast }
    else (record m1 {
      signal = 0;
      transfer = done;
      slab_to_release = negsuc 0;
      rebal = record rebal { d_clsid = pos 0 };
    })

-- The outside of one finish: the system's calls, this tenant's number among the four, its share of the
-- tracker, the connection's memory, the port of a known RDMA connection, and addresses for new
-- structures. `split_last` is the order of `slabs++` and the split in one assignment, which C leaves
-- open.
pub record Site (D : Type 0) : Type 0 where
  pub os : Os
  pub tenant : ℕ
  pub share : Tracker D → ℕ
  pub peer_addr : ℕ → ℕ
  pub peer_rkey : ℕ → ℕ
  pub known_port : Option ℤ
  pub pages : ℕ → ℕ → ℕ
  pub new : ℕ → ℕ
  pub new_page : ℕ
  pub split_last : Bool

abbrev pub adjust_size : ℕ → ℕ → ℕ
adjust_size page si = ((through_int (si / page) + 1) * page) % word

abbrev pub is_remote : Tenant → Bool
is_remote tenant_remote = true
is_remote tenant_local = false
is_remote tenant_slab = false

module _ {D : Type 0} ⦃d : Double D⦄ where
  -- the page that leaves for another tenant
  unfoldable pub hand_over : Site D → Tenant → ℤ → ℕ → ℕ → M D (Unit {0})
  unfolding set_spare_mem set_remote_mem set_rdma_access_port
  hand_over w tenant_slab cls pp size = return tt
  hand_over w tenant_local cls pp size = set_spare_mem pp size cls w.tenant
  hand_over w tenant_remote cls pp size = do
    _ ← set_remote_mem pp size w.tenant
    elim w.known_port [ none ↦ return tt | some port ↦ set_rdma_access_port port ]

  -- the page that comes from another tenant, for class `id`
  unfoldable pub receive : Site D → Settings → Tenant → ℕ → Slabs → M D Slabs
  unfolding get_tracker shm_malloc_spare
  receive w o tenant_slab id s = return s
  receive w o tenant_local id s = do
    t ← get_tracker
    let c = s.pool.slabclass id
    let full = adjust_size w.os.page_size (mul32 c.size c.perslab)
    let si = if ltb t.spare_size full then t.spare_size else full
    found ← shm_malloc_spare w.os si w.tenant
    elim found [
      | none ↦ (λ mem. none)
      | some ptr ↦ return (record s {
        pool =
            split_slab_page_into_freelist o (si / c.size) ptr id
              (list_page id ptr 0 0 (zero_page ptr si s.pool));
      })
    ]
  receive w o tenant_remote id s = do
    t ← get_tracker
    let c = s.pool.slabclass id
    let full = adjust_size w.os.page_size (mul32 c.size c.perslab)
    let si = if ltb t.spare_size full then t.spare_size else full
    let listed = list_page id w.new_page (w.peer_rkey t.latest_conn) t.latest_conn
    let split = split_remote_page_into_freelist w.new (si / c.size) (w.peer_addr t.latest_conn) id
    return
        (record s { pool = if w.split_last then split (listed s.pool) else listed (split s.pool) })

  -- the memory that the tenant counts as its own after a page came or went
  unfoldable pub account : Site D → Tenant → ℕ → Slabs → M D Slabs
  unfolding get_tracker unlock_spare
  account w from size s = do
    t ← get_tracker
    let si = adjust_size w.os.page_size size
    let cut = if ltb t.spare_size si then t.spare_size else si
    let s1 : Slabs = elim from [
      | tenant_local ↦ record s { mem_malloced = add64 s.mem_malloced cut }
      | tenant_remote ↦ record s { mem_malloced_remote = add64 s.mem_malloced_remote 1048576 }
      | tenant_slab ↦ record s { mem_malloced = sub64 s.mem_malloced si }
    ]
    _ ← unlock_spare
    return (record s1 {
      mem_limit = w.share t;
      mem_avail = sub64 (w.share t) (add64 s1.mem_malloced s1.mem_malloced_remote);
    })

  -- the last calls of slab_rebalance_finish
  unfoldable pub close : Mover → M D (Unit {0})
  unfolding reset_locks reset_remote_spare unlock_min_score reset_min_score
  close m =
      if external m.realloc_source
      then (do
        _ ← reset_locks
        if is_remote m.realloc_source then reset_remote_spare else return tt)
      else (do
        _ ← (if is_remote m.realloc_destination then reset_remote_spare else return tt)
        _ ← unlock_min_score
        reset_min_score)

  -- `n` bounds the rounds of memory_release.
  unfoldable pub slab_rebalance_finish : Site D → Settings → ℕ → Slabs → Mover → M D (Slabs × Mover)
  unfolding hand_over receive account close
  slab_rebalance_finish w o n s m =
      let s_id = pos_part m.rebal.s_clsid in
      let d_id = pos_part m.rebal.d_clsid in
      let c = s.pool.slabclass s_id in
      let page = mul32 c.size c.perslab in
      let pp = c.slab_list (pos_part m.slab_to_release) in
      let s1 =
        if external m.realloc_source
        then s
        else record s { pool = release_page w.pages m.slab_to_release s_id s.pool } in
      let inside = not (external m.realloc_source) && not (external m.realloc_destination) in
      let s2 = if inside then settle o n m.rebal.slab_start s_id d_id s1 else s1 in
      do
        _ ←
            (if external m.realloc_source
              then return tt
              else hand_over w m.realloc_destination m.rebal.s_clsid pp
                  (adjust_size w.os.page_size page))
        s3 ←
            (if external m.realloc_destination
              then return s2
              else receive w o m.realloc_source d_id s2)
        s4 ← (if inside then return s3 else account w m.realloc_source page s3)
        _ ← close m
        return (s4, finish_mover m)
