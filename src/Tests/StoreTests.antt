-- ===== src/Tests/StoreTests.antt =====
-- The store of items at two items with the key "k": one is linked, and the other one is stored over it.
use mem_exchange.Prelude.{
  ℕ, ◌+◌, ◌<◌, ◌≡◌, refl, Bool, true, false, ◌||◌, none, some, List, [], ◌∷◌, ◌==◌, arith,
  if◌then◌else◌,
}
use mem_exchange.Slabs.State.{Item, zero_item, no_flags, at}
use mem_exchange.Shadow.Order.{mem, unique, first, last_from}
use mem_exchange.Items.Lru.{do_item_link_q}
use mem_exchange.Items.Update.{do_item_update}
use mem_exchange.Assoc.Key.{same_key, memcmp_eq}
use mem_exchange.Assoc.Table.{assoc_init, bucket, set_bucket, assoc_insert, assoc_find, find_in}
use mem_exchange.Assoc.Valid.{assoc_init-IsValid}
use mem_exchange.Util.Numbers.{
  Parsed, safe_strtoull, is_whole, is_negative, byte_at, xisspace, has_minus,
}
use mem_exchange.Store.{entry_keyed, ItemSettings, Store, item_at, put_header}
use mem_exchange.Store.Items.{item_is_flushed}
use mem_exchange.Store.Command.{nread_cas, stored, do_store_item}
use mem_exchange.Store.Queues.{pushed}
use mem_exchange.Store.Whole.{
  is_linked, refs, IsWhole, Whole, put-IsWhole, removed, removed-IsWhole,
}
use mem_exchange.Store.Linking.{linked_up, linked_up-IsWhole}
use mem_exchange.Store.Nuking.{live_entry}
use mem_exchange.Store.Getting.{Gets, do_item_get-Whole}
use mem_exchange.Store.Updating.{do_item_update-IsWhole}
use mem_exchange.Store.Promise.{is_single, promised, is_some, has_cas, Stores}
use mem_exchange.Store.Storing.{do_store_item-Stores}
use mem_exchange.Store.Delta.{ok, non_numeric, changed, do_add_delta}
use mem_exchange.Store.Delta.Leaks.{do_add_delta_leaks}
use mem_exchange.Store.Delta.InPlace.{do_add_delta_in_place}

abbrev config : ItemSettings
config = record {
  use_cas = true;
  lru_segmented = true;
  oldest_live = 0;
  oldest_cas = 0;
  current_time = 7;
  hash = λ k. 5;
}

abbrev key : List ℕ
key = 107 ∷ []

-- a new item of class 3 for the cold queue, with the data "41"
abbrev header : Item
header = record zero_item {
  refcount = 1;
  slabs_clsid = 131;
  nbytes = 4;
  it_flags = record no_flags { cas = true };
}

abbrev is_new : ℕ → Bool
is_new a = (a == 1000) || (a == 2000)

abbrev held : ℕ → ℕ
held a = if is_new a then 1 else 0

abbrev empty : Store
empty = record {
  lru = record {
    items = λ a. if is_new a then header else zero_item;
    heads = λ i. 0;
    tails = λ i. 0;
    sizes = λ i. 0;
    sizes_bytes = λ i. 0;
  };
  table = assoc_init 4;
  keys = λ a. key;
  cas = λ a. 1;
  bodies = λ a. 52 ∷ 49 ∷ 13 ∷ 10 ∷ [];
  cas_id = 0;
  curr_bytes = 0;
  curr_items = 0;
  total_items = 0;
  sizes_hist = none;
  sizes_cas_min = 0;
  sizes_buckets = 0;
  freed = [];
  bumps = [];
  dropped = 0;
  shadows = [];
  get_flushed = 0;
  get_expired = 0;
  cas_misses = 0;
  cas_hits = λ i. 0;
  cas_badval = λ i. 0;
  incr_hits = λ i. 0;
  decr_hits = λ i. 0;
  c_cas = 0;
}

unlinked_all : (a : ℕ) → is_linked empty.lru a ≡ false
unlinked_all a = ground arith

empty-Whole : Whole config held (λ i. []) empty
unfolding mem unique first last_from assoc_init assoc_find bucket find_in
empty-Whole = record {
  queues =
      λ id. record { head = refl; tail = refl; distinct = refl; real = refl; linked = λ a m. cc };
  queued = λ a id m. cc;
  listed = λ a l. cc (l, unlinked_all a);
  valid = assoc_init-IsValid config.hash 4;
  tabled = λ a l. cc (l, unlinked_all a);
  found = λ j e v. cc;
  live = λ a h. ground arith;
  counted = λ a h. ground arith;
  few = λ a. ground arith;
}

-- the first item is linked
abbrev one : Store
one = linked_up config 1000 5 empty

one-Whole : Whole config held (pushed 1000 131 (λ i. [])) one
unfolding assoc_init assoc_find bucket find_in
one-Whole = linked_up-IsWhole config 1000 empty empty-Whole refl (omega arith) (omega arith) refl

few_refs : (a : ℕ) → refs held one.lru a < 65535
few_refs a = ground arith

do_store_item-Stores_example :
    let e = live_entry config key one in
    let result = promised nread_cas (is_some e) (has_cas 2000 e one) in
    (s' : Store) × ((do_store_item config 2000 nread_cas 5 none one ≡ some (result, s'))
      × Stores config held 2000 result one s')
unfolding do_item_link_q is_single
do_store_item-Stores_example =
    do_store_item-Stores config 2000 none one one-Whole refl (omega arith) few_refs nread_cas refl

-- The second item has the unique number of the first one, and takes its place.
replaces :
    promised nread_cas
      (is_some (live_entry config key one))
      (has_cas 2000 (live_entry config key one) one)
    ≡ stored
unfolding promised live_entry assoc_init assoc_find bucket find_in assoc_insert set_bucket same_key
    memcmp_eq item_is_flushed do_item_link_q
replaces = refl

-- the first item with no data but the line end
abbrev bare : Store
bare = put_header 1000 (record (item_at 1000 one) { nbytes = 2 }) one

bare-Whole : Whole config (at held 1000 1) (pushed 1000 131 (λ i. [])) bare
unfolding do_item_link_q
bare-Whole =
    put-IsWhole 1000 1 (record (item_at 1000 one) { nbytes = 2 }) one-Whole refl refl refl refl refl
      (λ h. omega arith) (λ h. refl) (omega arith)

few_bare : (a : ℕ) → refs (at held 1000 1) bare.lru a < 65535
few_bare a = ground arith

-- how the C library reads "41", and what it prints for 42
abbrev reads : List ℕ → Parsed ℕ
reads str = record { value = 41; erange = false; end = 2 }

abbrev prints : ℕ → List ℕ
prints n = 52 ∷ (n + 8) ∷ []

do_add_delta_leaks_example :
    (s' : Store) × ((do_add_delta reads prints config key 5 true 1 none none bare
        ≡ some ((non_numeric, [], none), s'))
      × (((item_at 1000 s').refcount ≡ (item_at 1000 bare).refcount + 1)
          × Whole config (at (at held 1000 1) 1000 2) (pushed 1000 131 (λ i. [])) s'))
unfolding do_item_link_q live_entry assoc_init assoc_find bucket find_in assoc_insert set_bucket
    same_key memcmp_eq item_is_flushed
do_add_delta_leaks_example =
    do_add_delta_leaks config key bare bare-Whole few_bare 1000 refl reads prints true 1 none none
      refl

-- the first item when only the table holds it
abbrev unheld : Store
unheld = removed 1000 one

unheld-Whole : Whole config (at held 1000 0) (pushed 1000 131 (λ i. [])) unheld
unheld-Whole = removed-IsWhole config one one-Whole 1000 (omega arith)

few_unheld : (a : ℕ) → refs (at held 1000 0) unheld.lru a < 65535
few_unheld a = ground arith

do_add_delta_in_place_example :
    (s' : Store) × ((do_add_delta reads prints config key 5 true 1 none none unheld
        ≡ some ((ok, 52 ∷ 50 ∷ [], none), s'))
      × ((s'.bodies 1000 ≡ 52 ∷ 50 ∷ 13 ∷ 10 ∷ [])
          × ((s'.table ≡ unheld.table)
              × ((qs' : ℕ → List ℕ) × Whole config (at held 1000 0) qs' s'))))
unfolding do_item_link_q live_entry assoc_init assoc_find bucket find_in assoc_insert set_bucket
    same_key memcmp_eq item_is_flushed safe_strtoull is_whole is_negative byte_at xisspace has_minus
    changed
do_add_delta_in_place_example =
    do_add_delta_in_place config key unheld unheld-Whole few_unheld 1000 refl reads prints true 1 41
      none refl refl refl (omega arith)

-- A lookup finds the first item.
do_item_get-Whole_example : Gets config key false one one-Whole few_refs
do_item_get-Whole_example = do_item_get-Whole config key false one one-Whole few_refs

-- A hit on the first item, which is not active.
do_item_update-IsWhole_example :
    (qs' : ℕ → List ℕ) × IsWhole config.hash held qs'
      (do_item_update true 8 1000 one.lru)
      one.table
      one.keys
unfolding do_item_link_q
do_item_update-IsWhole_example = do_item_update-IsWhole 1000 one-Whole refl true 8
