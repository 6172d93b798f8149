-- ===== src/Store/Items.antt =====
-- The functions of src/items.c that link items, unlink them and count their references. `none` is a
-- failed assertion.
use mem_exchange.Prelude.{
  ℕ, ◌+◌, ◌%◌, Bool, true, false, not, ◌&&◌, ◌||◌, Option, none, some, List, ◌∷◌, ◌==◌, leb, ltb,
  if◌then◌else◌, add64, sub64,
}
use mem_exchange.Slabs.State.{at}
use mem_exchange.Items.Lru.{item_ntotal, do_item_link_q, do_item_unlink_q}
use mem_exchange.Items.Update.{item_clsid, item_lruid, cold_lru, do_item_update}
use mem_exchange.Assoc.Table.{assoc_find, assoc_insert, assoc_delete}
use mem_exchange.Store.{
  entry_keyed, ItemSettings, Store, ◌>>=◌, item_at, put_header, item_get_cas, item_stats_sizes_add,
  item_stats_sizes_remove,
}

-- `refcount` has 16 bits.
abbrev pub refcount_incr : ℕ → Store → Store
refcount_incr it s =
    put_header it (record (item_at it s) { refcount = ((item_at it s).refcount + 1) % 65536 }) s

abbrev pub refcount_decr : ℕ → Store → Store
refcount_decr it s =
    put_header it (record (item_at it s) { refcount = ((item_at it s).refcount + 65535) % 65536 }) s

unfoldable pub item_is_flushed : ItemSettings → ℕ → Store → Bool
item_is_flushed c it s =
    let cas = item_get_cas it s in
    not (c.oldest_live == 0)
    && (leb c.oldest_live c.current_time
        && (leb (item_at it s).time c.oldest_live
            || (not (c.oldest_cas == 0) && (not (cas == 0) && ltb cas c.oldest_cas))))

unfoldable pub item_free : ℕ → Store → Option Store
item_free it s =
    let e = item_at it s in
    if e.it_flags.linked
      || ((it == s.lru.heads e.slabs_clsid)
          || ((it == s.lru.tails e.slabs_clsid) || not (e.refcount == 0)))
    then none
    else some (record s { freed = (it, item_ntotal e, item_clsid e) ∷ s.freed })

unfoldable pub do_item_remove : ℕ → Store → Option Store
do_item_remove it s =
    let e = item_at it s in
    let s' = refcount_decr it s in
    if e.it_flags.slabbed || (e.refcount == 0)
    then none
    else (if (item_at it s').refcount == 0 then item_free it s' else some s')

-- the item with its flag and time, and the counters
abbrev pub linking : ItemSettings → ℕ → Store → Store
linking c it s =
    let e = item_at it s in
    let s1 =
      put_header it
        (record e { it_flags = record e.it_flags { linked = true }; time = c.current_time }) s in
    record s1 {
      curr_bytes = add64 s.curr_bytes (item_ntotal e);
      curr_items = add64 s.curr_items 1;
      total_items = add64 s.total_items 1;
    }

-- `ITEM_set_cas(it, (settings.use_cas) ? get_cas_id() : 0)`, where the macro evaluates its second argument
-- only for an item with the flag
abbrev pub new_cas : ItemSettings → ℕ → Store → Store
new_cas c it s =
    let has = (item_at it s).it_flags.cas in
    let id = if has && c.use_cas then add64 s.cas_id 1 else s.cas_id in
    record s { cas_id = id; cas = if has then at s.cas it (if c.use_cas then id else 0) else s.cas }

unfoldable pub do_item_link : ItemSettings → ℕ → ℕ → Store → Option Store
do_item_link c it hv s =
    let e = item_at it s in
    let s1 = new_cas c it (linking c it s) in
    let s2 = record s1 {
      table = assoc_insert (record { address = it; key = s.keys it }) hv s1.table;
      lru = do_item_link_q it s1.lru;
    } in
    if e.it_flags.linked || e.it_flags.slabbed
    then none
    else some (item_stats_sizes_add it (refcount_incr it s2))

-- the item without its flag, and the counters
abbrev pub unlinking : ℕ → Store → Store
unlinking it s =
    let e = item_at it s in
    let s1 = put_header it (record e { it_flags = record e.it_flags { linked = false } }) s in
    record s1 { curr_bytes = sub64 s.curr_bytes (item_ntotal e); curr_items = sub64 s.curr_items 1 }

unfoldable pub do_item_unlink : ℕ → ℕ → Store → Option Store
do_item_unlink it hv s =
    let s1 = item_stats_sizes_remove it (unlinking it s) in
    if (item_at it s).it_flags.linked
    then (assoc_delete (s.keys it) hv s1.table >>= λ t.
        do_item_remove it (record s1 { table = t; lru = do_item_unlink_q it s1.lru }))
    else some s

unfoldable pub do_item_replace : ItemSettings → ℕ → ℕ → ℕ → Store → Option Store
do_item_replace c it new_it hv s =
    if (item_at it s).it_flags.slabbed
    then none
    else (do_item_unlink it hv s >>= λ s'. do_item_link c new_it hv s')

-- The item is queued for the maintainer with a reference of its own; `room` is whether the buffer takes
-- the entry.
unfoldable pub lru_bump_async : Bool → ℕ → Store → Bool × Store
lru_bump_async room it s =
    let s1 = refcount_incr it s in
    if room
    then (true, record s1 { bumps = it ∷ s1.bumps })
    else (false, refcount_decr it (record s1 { dropped = add64 s1.dropped 1 }))

abbrev pub set_fetched : ℕ → Store → Store
set_fetched it s =
    let e = item_at it s in
    put_header it (record e { it_flags = record e.it_flags { fetched = true } }) s

abbrev pub set_active : Bool → ℕ → Store → Store
set_active b it s =
    let e = item_at it s in
    put_header it (record e { it_flags = record e.it_flags { active = b } }) s

-- the hit markers, with DO_UPDATE
unfoldable pub update_markers : ItemSettings → Bool → ℕ → Store → Store
update_markers c room it s =
    let f = (item_at it s).it_flags in
    let updated =
      λ (u : Store). record u { lru = do_item_update c.lru_segmented c.current_time it u.lru } in
    let a = set_active true it s in
    let (queued, b) = lru_bump_async room it a in
    if c.lru_segmented
    then (if f.active
        then s
        else (if f.fetched
            then (if item_lruid (item_at it a) == cold_lru
                then (if queued then b else set_active false it b)
                else updated a)
            else set_fetched it s))
    else updated (set_fetched it s)

-- an item that is out of date: out of the table, and back to the slabs
unfoldable pub nuke : ℕ → ℕ → Store → Option Store
nuke it hv s = do_item_unlink it hv s >>= λ s'. do_item_remove it s'

-- a lookup that has found an item and counted its reference
unfoldable pub keep_or_drop : ItemSettings → ℕ → Bool → Bool → ℕ → Store → Option (Option ℕ × Store)
keep_or_drop c hv do_update room it s =
    let e = item_at it s in
    if item_is_flushed c it s
    then (nuke it hv s >>= λ s2. some (none, record s2 { get_flushed = add64 s2.get_flushed 1 }))
    else (if not (e.exptime == 0) && leb e.exptime c.current_time
        then (nuke it hv s >>= λ s2.
            some (none, record s2 { get_expired = add64 s2.get_expired 1 }))
        else some (some it, if do_update then update_markers c room it s else s))

unfoldable pub do_item_get :
    ItemSettings → List ℕ → ℕ → Bool → Bool → Store → Option (Option ℕ × Store)
do_item_get c key hv do_update room s = elim (assoc_find key hv s.table) [
  | none ↦ some (none, s)
  | some found ↦ keep_or_drop c hv do_update room found.address (refcount_incr found.address s)
]

unfoldable pub do_item_touch :
    ItemSettings → List ℕ → ℕ → ℕ → Bool → Store → Option (Option ℕ × Store)
do_item_touch c key exptime hv room s = do_item_get c key hv true room s >>= λ r. (elim r.0 [
  | none ↦ some (none, r.1)
  | some it ↦ some (some it, put_header it (record (item_at it r.1) { exptime = exptime }) r.1)
])
