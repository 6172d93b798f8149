-- ===== src/Slabs/State.antt =====
-- The data of src/slabs.c: `slabclass_t`, the header of an item, and the part of the static state
-- that the free lists use. Addresses are numbers, zero is NULL; an array is a function.
use mem_exchange.Prelude.{ℕ, ◌+◌, Bool, true, false, not, ◌&&◌, ◌||◌, ◌==◌, ltb, leb, if◌then◌else◌}

-- the bits of `it_flags`
pub record ItFlags : Type 0 where
  pub linked : Bool
  pub cas : Bool
  pub slabbed : Bool
  pub fetched : Bool
  pub active : Bool
  pub chunked : Bool
  pub chunk : Bool

-- The header of an `item`. An `item_chunk` lies over it: `h_next` is its `head`, `time` its `size`,
-- `exptime` its `used` and `nsuffix` its `orig_clsid`, at the same offsets.
pub record Item : Type 0 where
  pub next : ℕ
  pub prev : ℕ
  pub h_next : ℕ
  pub time : ℕ
  pub exptime : ℕ
  pub nbytes : ℕ
  pub refcount : ℕ
  pub nsuffix : ℕ
  pub it_flags : ItFlags
  pub slabs_clsid : ℕ
  pub nkey : ℕ
  pub page_id : ℕ
  pub r_it : ℕ

-- `slabclass_t` without its shadow queue
pub record SlabClass : Type 0 where
  pub size : ℕ
  pub perslab : ℕ
  pub slots : ℕ
  pub sl_curr : ℕ
  pub slabs : ℕ
  pub slab_list : ℕ → ℕ
  pub list_size : ℕ
  pub requested : ℕ
  pub hits : ℕ → ℕ
  pub conn : ℕ → ℕ
  pub rkey : ℕ → ℕ
  pub sl_curr_r : ℕ
  pub rslots : ℕ

-- `remote_item`, as the free lists use it
pub record RemoteItem : Type 0 where
  pub next : ℕ
  pub prev : ℕ
  pub slabs_clsid : ℕ
  pub page_id : ℕ
  pub address : ℕ

-- the memory of the items, the classes, and the largest class in use
pub record Pool : Type 0 where
  pub items : ℕ → Item
  pub remotes : ℕ → RemoteItem
  pub slabclass : ℕ → SlabClass
  pub power_largest : ℕ

abbrev pub power_smallest : ℕ
power_smallest = 1

-- SLAB_GLOBAL_PAGE_POOL
abbrev pub page_pool : ℕ
page_pool = 0

abbrev pub no_flags : ItFlags
no_flags = record {
  linked = false;
  cas = false;
  slabbed = false;
  fetched = false;
  active = false;
  chunked = false;
  chunk = false;
}

-- ITEM_SLABBED
abbrev pub item_slabbed : ItFlags
item_slabbed = record no_flags { slabbed = true }

-- ITEM_SLABBED | ITEM_FETCHED: a chunk that is cleared for a move
abbrev pub item_cleared : ItFlags
item_cleared = record no_flags { slabbed = true; fetched = true }

-- `it_flags != (ITEM_SLABBED | ITEM_FETCHED)`, negated
abbrev pub is_cleared : ItFlags → Bool
is_cleared f =
    f.slabbed && (f.fetched && not (f.linked || (f.cas || (f.active || (f.chunked || f.chunk)))))

-- what `memset` to zero leaves
abbrev pub zero_item : Item
zero_item = record {
  next = 0;
  prev = 0;
  h_next = 0;
  time = 0;
  exptime = 0;
  nbytes = 0;
  refcount = 0;
  nsuffix = 0;
  it_flags = no_flags;
  slabs_clsid = 0;
  nkey = 0;
  page_id = 0;
  r_it = 0;
}

abbrev pub at {ℓ} : {A : Type ℓ} → (ℕ → A) → ℕ → A → ℕ → A
at f a x b = if b == a then x else f b

abbrev pub put_item : ℕ → Item → Pool → Pool
put_item a it p = record p { items = at p.items a it }

abbrev pub put_class : ℕ → SlabClass → Pool → Pool
put_class id c p = record p { slabclass = at p.slabclass id c }

-- `id < POWER_SMALLEST || id > power_largest`, negated
abbrev pub is_class : ℕ → Pool → Bool
is_class id p = leb power_smallest id && leb id p.power_largest

-- `memset(ptr, 0, len)` over the item headers in the range
unfoldable pub zero_page : ℕ → ℕ → Pool → Pool
zero_page ptr len p = record p {
  items = λ a. if leb ptr a && ltb a (ptr + len) then zero_item else p.items a;
}
