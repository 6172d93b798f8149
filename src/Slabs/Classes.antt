-- ===== src/Slabs/Classes.antt =====
-- The size classes of src/slabs.c: slabs_init makes them, slabs_clsid picks one for an item.
pub mod LeastFit
pub mod Aligned
use mem_exchange.Prelude.{
  ℕ, zero, suc, ◌+◌, ◌-◌, ◌*◌, ◌/◌, ◌%◌, Bool, true, false, not, ◌&&◌, ◌||◌, ◌==◌, ltb, leb,
  if◌then◌else◌, Option, none, some, add64, sub64,
}
use mem_exchange.Slabs.State.{
  Item, ItFlags, RemoteItem, SlabClass, Pool, put_class, power_smallest, zero_item, at,
}
use mem_exchange.Slabs.Pages.{Settings, Slabs, Outside, refresh_limit, do_slabs_newslab}

-- The loop of slabs_clsid from class `res` on; `n` bounds its rounds.
unfoldable pub clsid_from : ℕ → ℕ → ℕ → Pool → ℕ
clsid_from zero size res p = res
clsid_from (suc n) size res p =
    let rest = clsid_from n size (res + 1) p in
    if ltb (p.slabclass res).size size
    then (if res == p.power_largest then p.power_largest else rest)
    else res

unfoldable pub slabs_clsid : Settings → ℕ → Pool → ℕ
slabs_clsid o size p =
    if size == 0 || ltb o.item_size_max size
    then 0
    else clsid_from p.power_largest size power_smallest p

-- MAX_NUMBER_OF_SLAB_CLASSES
abbrev pub max_classes : ℕ
max_classes = 64

-- "Make sure items are always n-byte aligned", in an `unsigned int`
unfoldable pub align_size : ℕ → ℕ
align_size size = if size % 8 == 0 then size else (size + (8 - size % 8)) % 4294967296

-- What slabs_init does with `double factor`: whether a size is at least `slab_chunk_size_max / factor`,
-- and `size *= factor` as an `unsigned int`.
pub record Factor : Type 0 where
  pub at_most : ℕ → Bool
  pub times : ℕ → ℕ

-- what `memset` leaves of a class
abbrev pub zero_class : SlabClass
zero_class = record {
  size = 0;
  perslab = 0;
  slots = 0;
  sl_curr = 0;
  slabs = 0;
  slab_list = λ j. 0;
  list_size = 0;
  requested = 0;
  hits = λ j. 0;
  conn = λ j. 0;
  rkey = λ j. 0;
  sl_curr_r = 0;
  rslots = 0;
}

abbrev pub set_size : Settings → ℕ → ℕ → Pool → Pool
set_size o i size p =
    let c = p.slabclass i in
    put_class i (record c { size = size; perslab = o.slab_page_size / size }) p

-- The loop of slabs_init from class `i` on, with `n` classes left: the classes, and the value of `i`
-- at its end. `sizes` is `slab_sizes`, where it is not NULL.
unfoldable pub init_classes : Settings → Factor → Option (ℕ → ℕ) → ℕ → ℕ → ℕ → Pool → ℕ × Pool
init_classes o f sizes zero i size p = (i, p)
init_classes o f (some given) (suc n) i size p =
    let aligned = align_size (given (i - 1)) in
    let rest = init_classes o f (some given) n (i + 1) aligned (set_size o i aligned p) in
    if given (i - 1) == 0 then (i, p) else rest
init_classes o f none (suc n) i size p =
    let aligned = align_size size in
    let rest = init_classes o f none n (i + 1) (f.times aligned) (set_size o i aligned p) in
    if f.at_most size then (i, p) else rest

-- The loop of slabs_preallocate from class `i` on, with `n` classes left; `none` is its exit(1).
unfoldable pub preallocate : Settings → (ℕ → Outside) → ℕ → ℕ → ℕ → Slabs → Option Slabs
preallocate o out maxslabs zero i s = some s
preallocate o out maxslabs (suc n) i s =
    let (ok, s1) = do_slabs_newslab o (out i) i s in
    let rest = preallocate o out maxslabs n (i + 1) s1 in
    if ltb maxslabs i then some s else (if ok then rest else none)

-- the memory for `prealloc`: `base` is the tracker's `avail_address` after shm_malloc
unfoldable pub init_memory : ℕ → ℕ → Slabs → Slabs
init_memory base share s =
    let s1 = record s { mem_base = base; mem_limit = if s.greedy then share else s.mem_limit } in
    if base == 0 then s1 else (record s1 {
      mem_current = base;
      mem_avail =
          if s.greedy
          then sub64 s1.mem_limit (add64 s.mem_malloced s.mem_malloced_remote)
          else s1.mem_limit;
    })

-- `first` is sizeof(item) + chunk_size, and `malloced` the value of T_MEMD_INITIAL_MALLOC.
unfoldable pub slabs_init :
    Settings
    → Factor
    → Option (ℕ → ℕ)
    → ℕ
    → ℕ
    → Bool
    → Bool
    → ℕ
    → ℕ
    → Option ℕ
    → (ℕ → Outside)
    → Slabs
    → Option Slabs
slabs_init o f sizes first limit prealloc isgreedy base share malloced out s =
    let s1 = record s { greedy = isgreedy; mem_limit = limit } in
    let s2 = if prealloc then init_memory base share s1 else s1 in
    let cleared = record s2.pool { slabclass = λ i. zero_class } in
    let (last, pool) = init_classes o f sizes 62 power_smallest first cleared in
    let s3 = record s2 {
      pool = record (set_last o last pool) { power_largest = last };
      mem_malloced = elim malloced [ none ↦ s2.mem_malloced | some m ↦ m ];
    } in
    if prealloc then preallocate o out last 63 power_smallest s3 else some s3
  where
    set_last : Settings → ℕ → Pool → Pool
    set_last o i p = set_size o i o.slab_chunk_size_max p
