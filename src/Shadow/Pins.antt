-- ===== src/Shadow/Pins.antt =====
-- The life of a shadow item: src/shadows.c counts the threads that use it, frees it when the last one
-- lets go of a dead one, and finds it by its key through src/shadow_assoc.c. Each function below but
-- the first two is one critical section under the hash lock of the key, of which src/shadows.c has a copy
-- of its own.
use mem_exchange.Prelude.{
  ℕ, Bool, true, false, not, ◌&&◌, List, ◌==◌, if◌then◌else◌, add32, sub32, Option, none, some,
}
use mem_exchange.Assoc.Table.{Assoc}
use mem_exchange.Shadow.Table.{
  Entry, entry_keyed, shadow_assoc_find, shadow_assoc_insert, shadow_assoc_delete,
}
use mem_exchange.Shadow.Queue.{ShadowItem, at}

-- the heap of shadow items and their hash table; `allocated` is what `calloc` and `free` do
pub record Store : Type 0 where
  pub items : ℕ → ShadowItem
  pub allocated : ℕ → Bool
  pub table : Assoc Entry

abbrev pub set_refcnt : ℕ → ℕ → Store → Store
set_refcnt a n s = record s { items = at s.items a (record (s.items a) { refcnt = n }) }

unfoldable pub shadow_maybe_free : Bool → ℕ → Store → Store
shadow_maybe_free free_now a s =
    if free_now then record s { allocated = at s.allocated a false } else s

-- `create_shadow_item`, where `calloc` and `malloc` succeed, at the address that `calloc` returned
unfoldable pub create_shadow_item : ℕ → ℕ → List ℕ → Store → Store
create_shadow_item a clsid key s = record s {
  items = at s.items a (record {
    next = 0;
    prev = 0;
    slabs_clsid = clsid;
    key = key;
    tree_node = 0;
    refcnt = 1;
    dead = false;
  });
  allocated = at s.allocated a true;
}

-- the insertion that its caller in src/items.c makes, under another copy of the lock
unfoldable pub list_shadow_item : ℕ → ℕ → Store → Store
list_shadow_item a hv s = record s {
  table = shadow_assoc_insert (record { address = a; entry_key = (s.items a).key }) hv s.table;
}

unfoldable pub shadow_find_and_pin : List ℕ → ℕ → Store → Option ℕ × Store
shadow_find_and_pin key hv s = elim (shadow_assoc_find key hv s.table) [
  | none ↦ (none, s)
  | some e ↦
      if not (s.items e.address).dead
      then (some e.address, set_refcnt e.address (add32 (s.items e.address).refcnt 1) s)
      else (none, s)
]

unfoldable pub shadow_release : ℕ → Store → Store
shadow_release it s =
    let prev = (s.items it).refcnt in
    let free_now = prev == 1 && (s.items it).dead in
    shadow_maybe_free free_now it (set_refcnt it (sub32 prev 1) s)

-- the last critical section of `evict_shadowq_item_locked`; `none` is the failed assertion
unfoldable pub retire : ℕ → ℕ → Store → Option Store
retire victim hv s =
    let v = s.items victim in
    elim (shadow_assoc_delete v.key hv s.table) [
      | none ↦ none
      | some table ↦ some (
          shadow_maybe_free (v.refcnt == 1) victim (record s {
            items = at s.items victim (record v { dead = true; refcnt = sub32 v.refcnt 1 });
            table = table;
          }))
    ]
