-- ===== src/Store.antt =====
-- The store of items: the LRU queues of src/items.c, the hash table of src/assoc.c and the counters of
-- references, as src/items.c and src/memcached.c change them under the item lock of a key.
pub mod Items
pub mod Queues
pub mod Whole
pub mod Linking
pub mod Unlinking
pub mod Updating
pub mod Nuking
pub mod Getting
pub mod Replacing
pub mod Promise
pub mod Storing
pub mod Command
pub mod Delta
use mem_exchange.Prelude.{
  ℕ, ◌+◌, ◌/◌, ◌%◌, Bool, true, false, not, Option, none, some, List, ◌==◌, ltb, if◌then◌else◌,
  add32, sub32,
}
use mem_exchange.Slabs.State.{Item, at}
use mem_exchange.Items.Lru.{Lru, item_ntotal}
use mem_exchange.Items.Update.{put}
use mem_exchange.Assoc.Table.{Keyed, Assoc}

-- what a bucket of the hash table holds: an item, with the key in its memory
pub record Entry : Type 0 where
  pub address : ℕ
  pub key : List ℕ

instance abbrev pub entry_keyed : Keyed Entry
entry_keyed = record { key = λ e. e.key }

-- the fields of `settings` that the functions read, with `current_time` and `hash`
pub record ItemSettings : Type 0 where
  pub use_cas : Bool
  pub lru_segmented : Bool
  pub oldest_live : ℕ
  pub oldest_cas : ℕ
  pub current_time : ℕ
  pub hash : List ℕ → ℕ

-- `keys`, `cas` and `bodies` are the parts of an item behind its header. `freed` are the calls of
-- slabs_free, the last one first, and `bumps` the entries of the bump buffer. `shadows` are the keys whose
-- shadow items do_store_item looks up to evict. `c_cas` is the field of the connection.
pub record Store : Type 0 where
  pub lru : Lru
  pub table : Assoc Entry
  pub keys : ℕ → List ℕ
  pub cas : ℕ → ℕ
  pub bodies : ℕ → List ℕ
  pub cas_id : ℕ
  pub curr_bytes : ℕ
  pub curr_items : ℕ
  pub total_items : ℕ
  pub sizes_hist : Option (ℕ → ℕ)
  pub sizes_cas_min : ℕ
  pub sizes_buckets : ℕ
  pub freed : List (ℕ × ℕ × ℕ)
  pub bumps : List ℕ
  pub dropped : ℕ
  pub shadows : List (List ℕ)
  pub get_flushed : ℕ
  pub get_expired : ℕ
  pub cas_misses : ℕ
  pub cas_hits : ℕ → ℕ
  pub cas_badval : ℕ → ℕ
  pub incr_hits : ℕ → ℕ
  pub decr_hits : ℕ → ℕ
  pub c_cas : ℕ

-- a call that may fail an assertion, and then gives `none`
infixl 5 ◌>>=◌
abbrev pub ◌>>=◌ : {A B : Type 0} → Option A → (A → Option B) → Option B
none >>= f = none
some a >>= f = f a

abbrev pub item_at : ℕ → Store → Item
item_at it s = s.lru.items it

abbrev pub put_header : ℕ → Item → Store → Store
put_header it e s = record s { lru = put it e s.lru }

-- ITEM_get_cas
abbrev pub item_get_cas : ℕ → Store → ℕ
item_get_cas it s = if (item_at it s).it_flags.cas then s.cas it else 0

-- ITEM_set_cas
abbrev pub item_set_cas : ℕ → ℕ → Store → Store
item_set_cas it v s = record s {
  cas = if (item_at it s).it_flags.cas then at s.cas it v else s.cas;
}

-- the bucket of the histogram of sizes
abbrev pub sizes_bucket : Item → ℕ
sizes_bucket e = let n = item_ntotal e in n / 32 + (if n % 32 == 0 then 0 else 1)

-- item_stats_sizes_add and item_stats_sizes_remove, by `f`
abbrev pub item_stats_sizes : (ℕ → ℕ → ℕ) → ℕ → Store → Store
item_stats_sizes f it s =
    let b = sizes_bucket (item_at it s) in
    let skipped = ltb (item_get_cas it s) s.sizes_cas_min in
    record s {
      sizes_hist = elim s.sizes_hist [
        | none ↦ none
        | some h ↦
            some (if skipped then h else (if ltb b s.sizes_buckets then at h b (f (h b) 1) else h))
      ];
    }

abbrev pub item_stats_sizes_add : ℕ → Store → Store
item_stats_sizes_add = item_stats_sizes add32

abbrev pub item_stats_sizes_remove : ℕ → Store → Store
item_stats_sizes_remove = item_stats_sizes sub32
