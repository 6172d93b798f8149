-- ===== src/Slabs/Pages.antt =====
-- Slab pages in src/slabs.c: where they come from, how they are listed, and how they become free
-- chunks. What a call outside the file gives is an argument: a `realloc` that succeeds or not, the
-- address of shm_malloc, the page size of the system, and the share that the tracker grants.
pub mod Split
pub mod Arrays
pub mod NewSlab
pub mod Release
use mem_exchange.Prelude.{
  ℕ, zero, suc, ◌+◌, ◌-◌, ◌*◌, ◌/◌, ◌%◌, Bool, true, false, not, ◌&&◌, ◌||◌, ◌==◌, ltb, leb,
  if◌then◌else◌, add64, sub64, add32, through_int, word,
}
use mem_exchange.Slabs.State.{
  Item, ItFlags, SlabClass, Pool, put_item, put_class, page_pool, zero_page, at,
}
use mem_exchange.Slabs.Free.{do_slabs_free}

pub record Settings : Type 0 where
  pub use_cas : Bool
  pub slab_reassign : Bool
  pub item_size_max : ℕ
  pub slab_page_size : ℕ
  pub slab_chunk_size_max : ℕ

-- the static variables of the allocator
pub record Slabs : Type 0 where
  pub pool : Pool
  pub maxbytes : ℕ
  pub mem_limit : ℕ
  pub mem_malloced : ℕ
  pub mem_malloced_remote : ℕ
  pub mem_limit_reached : Bool
  pub mem_base : ℕ
  pub mem_current : ℕ
  pub mem_avail : ℕ
  pub greedy : Bool

-- what the outside answers during one call
pub record Outside : Type 0 where
  pub realloc_ok : Bool
  pub segment : ℕ
  pub sys_page : ℕ
  pub share : ℕ

unfoldable pub grow_slab_list : Bool → ℕ → Pool → Bool × Pool
grow_slab_list realloc_ok id p =
    let c = p.slabclass id in
    let new_size = if c.list_size == 0 then 16 else (c.list_size * 2) % 4294967296 in
    if c.slabs == c.list_size
    then (if realloc_ok
        then (true, put_class id (record c { list_size = new_size }) p)
        else (false, p))
    else (true, p)

-- zero where the pool has no page
unfoldable pub get_page_from_global_pool : Pool → ℕ × Pool
get_page_from_global_pool p =
    let c = p.slabclass page_pool in
    if ltb c.slabs 1
    then (0, p)
    else (c.slab_list (c.slabs - 1), put_class page_pool (record c { slabs = c.slabs - 1 }) p)

-- n chunks from `ptr` on; `p->slabs-1` is stored in the 16 bits of `page_id`
unfoldable pub split_slab_page_into_freelist : Settings → ℕ → ℕ → ℕ → Pool → Pool
split_slab_page_into_freelist o zero ptr id p = p
split_slab_page_into_freelist o (suc n) ptr id p =
    let p1 = do_slabs_free o.use_cas 0 ptr 0 id p in
    let c = p1.slabclass id in
    let p2 = put_item ptr (record (p1.items ptr) { page_id = (c.slabs + 4294967295) % 65536 }) p1 in
    split_slab_page_into_freelist o n (ptr + c.size) id p2

-- `mem_limit` and `mem_avail` from the share
unfoldable pub refresh_limit : ℕ → Slabs → Slabs
refresh_limit share s = record s {
  mem_limit = share;
  mem_avail = sub64 share (add64 s.mem_malloced s.mem_malloced_remote);
}

unfoldable pub align : ℕ → ℕ
align n = if n % 8 == 0 then n else n + (8 - n % 8)

unfoldable pub memory_allocate : Outside → ℕ → Slabs → ℕ × Slabs
memory_allocate out size s =
    let rounded = ((through_int (size / out.sys_page) + 1) * out.sys_page) % word in
    let s1 = record s { mem_malloced = add64 s.mem_malloced rounded } in
    let aligned = align size in
    let s2 = record s {
      mem_current = add64 s.mem_current aligned;
      mem_avail = if ltb aligned s.mem_avail then s.mem_avail - aligned else 0;
    } in
    let done = λ (t : Slabs). if s.greedy then refresh_limit out.share t else t in
    if s.mem_base == 0
    then (out.segment, done s1)
    else (if ltb s.mem_avail size then (0, s) else (s.mem_current, done s2))

-- The loop of memory_release; `n` bounds its rounds.
unfoldable pub release_pages : ℕ → ℕ → Slabs → Slabs
release_pages zero item_size_max s = s
release_pages (suc n) item_size_max s =
    let (page, pool) = get_page_from_global_pool s.pool in
    let rest =
      release_pages n item_size_max
        (record s { pool = pool; mem_malloced = sub64 s.mem_malloced item_size_max }) in
    if ltb s.mem_limit s.mem_malloced && not (page == 0)
    then rest
    else (if ltb s.mem_limit s.mem_malloced then record s { pool = pool } else s)

unfoldable pub memory_release : Settings → ℕ → Slabs → Slabs
memory_release o n s =
    if not (s.mem_base == 0)
    then s
    else (if not o.slab_reassign then s else release_pages n o.item_size_max s)

unfoldable pub do_slabs_adjust_mem_limit : Settings → ℕ → ℕ → Slabs → Bool × Slabs
do_slabs_adjust_mem_limit o n new_mem_limit s = if not (s.mem_base == 0) then (false, s) else (
  true,
  memory_release o n
      (record s { maxbytes = new_mem_limit; mem_limit = new_mem_limit; mem_limit_reached = false }),
)

-- the bytes of a new page of the class
abbrev pub page_len : Settings → SlabClass → ℕ
page_len o c =
    if o.slab_reassign || not (o.slab_chunk_size_max == o.slab_page_size)
    then o.slab_page_size
    else c.size * c.perslab

-- the page goes to the end of the class's lists
unfoldable pub list_page : ℕ → ℕ → ℕ → ℕ → Pool → Pool
list_page id ptr rkey conn p =
    let c = p.slabclass id in
    put_class id
      (record c {
        slab_list = at c.slab_list c.slabs ptr;
        rkey = at c.rkey c.slabs rkey;
        conn = at c.conn c.slabs conn;
        slabs = add32 c.slabs 1;
      })
      p

-- `memset`, the split, and the page at the end of the list
unfoldable pub add_page : Settings → ℕ → ℕ → ℕ → Pool → Pool
add_page o ptr len id p =
    let p1 = zero_page ptr len p in
    list_page id ptr 0 0 (split_slab_page_into_freelist o (len / (p1.slabclass id).size) ptr id p1)

unfoldable pub with_page : Settings → ℕ → ℕ → ℕ → Slabs → Slabs
with_page o ptr len id s = record s { pool = add_page o ptr len id s.pool }

-- the first two tests of do_slabs_newslab, after the limit was read again
unfoldable pub limit_hit : ℕ → ℕ → Slabs → Bool
limit_hit id len s =
    not (s.mem_limit == 0)
    && (ltb s.mem_limit (add64 (add64 s.mem_malloced s.mem_malloced_remote) len)
        && (ltb 0 (s.pool.slabclass id).slabs && (s.pool.slabclass page_pool).slabs == 0))

-- the state in which the limit is tested
unfoldable pub refreshed : Outside → Slabs → Slabs
refreshed out s = if s.greedy && not s.mem_limit_reached then refresh_limit out.share s else s

-- a page of the page pool, else new memory; zero where there is neither
unfoldable pub find_page : Outside → ℕ → Slabs → ℕ × Slabs
find_page out len s =
    let (pooled, pool) = get_page_from_global_pool s.pool in
    let s1 = record s { pool = pool } in
    if pooled == 0 then memory_allocate out len s1 else (pooled, s1)

unfoldable pub do_slabs_newslab : Settings → Outside → ℕ → Slabs → Bool × Slabs
do_slabs_newslab o out id s0 =
    let len = page_len o (s0.pool.slabclass id) in
    let s = refreshed out s0 in
    let (grown, pool1) = grow_slab_list out.realloc_ok id s.pool in
    let s1 = record s { pool = pool1 } in
    let (ptr, s2) = find_page out len s1 in
    if limit_hit id len s
    then (false, record s { mem_limit_reached = true })
    else (if s.mem_limit_reached
        then (false, s)
        else (if not grown
            then (false, s1)
            else (if ptr == 0 then (false, s2) else (true, with_page o ptr len id s2))))
