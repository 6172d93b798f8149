-- ===== src/Items/Lru.antt =====
-- The links of the LRU queues in src/items.c. The lines run under the lock of the queue; the crawler's
-- marker is an item too.
use mem_exchange.Prelude.{
  ℕ, ◌+◌, ◌≡◌, true, false, List, ◌==◌, if◌then◌else◌, add32, sub32, add64, sub64,
}
use mem_exchange.Slabs.State.{Item, at}
use mem_exchange.Slabs.Free.{sizeof_item}
use mem_exchange.Shadow.Order.{mem, unique, first, last_from, next_of, prev_from}

-- `heads`, `tails`, `sizes` and `sizes_bytes`, with the items
pub record Lru : Type 0 where
  pub items : ℕ → Item
  pub heads : ℕ → ℕ
  pub tails : ℕ → ℕ
  pub sizes : ℕ → ℕ
  pub sizes_bytes : ℕ → ℕ

-- ITEM_ntotal
abbrev pub item_ntotal : Item → ℕ
item_ntotal e = sizeof_item + e.nkey + 1 + e.nsuffix + e.nbytes + (if e.it_flags.cas then 8 else 0)

abbrev pub set_next : ℕ → ℕ → Lru → Lru
set_next a b q = record q { items = at q.items a (record (q.items a) { next = b }) }

abbrev pub set_prev : ℕ → ℕ → Lru → Lru
set_prev a b q = record q { items = at q.items a (record (q.items a) { prev = b }) }

abbrev pub set_head : ℕ → ℕ → Lru → Lru
set_head id a q = record q { heads = at q.heads id a }

abbrev pub set_tail : ℕ → ℕ → Lru → Lru
set_tail id a q = record q { tails = at q.tails id a }

-- "item is the new head"
unfoldable pub do_item_link_q : ℕ → Lru → Lru
do_item_link_q it q =
    let id = (q.items it).slabs_clsid in
    let head = q.heads id in
    let q1 = set_next it head (set_prev it 0 q) in
    let q2 = if head == 0 then q1 else set_prev head it q1 in
    let q3 = set_head id it q2 in
    let q4 = if q3.tails id == 0 then set_tail id it q3 else q3 in
    record q4 {
      sizes = at q4.sizes id (add32 (q4.sizes id) 1);
      sizes_bytes = at q4.sizes_bytes id (add64 (q4.sizes_bytes id) (item_ntotal (q4.items it)));
    }

-- "item is the new tail"
unfoldable pub do_item_linktail_q : ℕ → Lru → Lru
do_item_linktail_q it q =
    let id = (q.items it).slabs_clsid in
    let tail = q.tails id in
    let q1 = set_next it 0 (set_prev it tail q) in
    let q2 = if tail == 0 then q1 else set_next tail it q1 in
    let q3 = set_tail id it q2 in if q3.heads id == 0 then set_head id it q3 else q3

unfoldable pub do_item_unlinktail_q : ℕ → Lru → Lru
do_item_unlinktail_q it q =
    let e = q.items it in
    let id = e.slabs_clsid in
    let q1 = if q.heads id == it then set_head id e.next q else q in
    let q2 = if q1.tails id == it then set_tail id e.prev q1 else q1 in
    let q3 = if e.next == 0 then q2 else set_prev e.next e.prev q2 in
    if e.prev == 0 then q3 else set_next e.prev e.next q3

unfoldable pub do_item_unlink_q : ℕ → Lru → Lru
do_item_unlink_q it q =
    let q1 = do_item_unlinktail_q it q in
    let id = (q.items it).slabs_clsid in
    record q1 {
      sizes = at q1.sizes id (sub32 (q1.sizes id) 1);
      sizes_bytes = at q1.sizes_bytes id (sub64 (q1.sizes_bytes id) (item_ntotal (q1.items it)));
    }

-- The marker moves one place towards the head; the result is the item behind it then, and zero when
-- it has left the queue at the head.
unfoldable pub do_item_crawl_q : ℕ → Lru → ℕ × Lru
do_item_crawl_q it q =
    let e = q.items it in
    let id = e.slabs_clsid in
    let p = e.prev in
    let out = if e.next == 0 then q else set_prev e.next 0 (set_head id e.next q) in
    let q1 = if q.heads id == p then set_head id it q else q in
    let q2 = if q1.tails id == it then set_tail id p q1 else q1 in
    let q3 = if e.next == 0 then set_next p 0 q2 else set_prev e.next p (set_next p e.next q2) in
    let q4 = set_next it p q3 in
    let before = (q4.items p).prev in
    let q5 = set_prev p it (set_prev it before q4) in
    let q6 = if before == 0 then q5 else set_next before it q5 in
    if p == 0 then (0, out) else (p, q6)

-- The queue of a class and segment holds exactly the items `xs`, the head first.
pub record IsQueue (q : Lru) (id : ℕ) (xs : List ℕ) : Type 0 where
  pub head : q.heads id ≡ first xs
  pub tail : q.tails id ≡ last_from 0 xs
  pub distinct : unique xs ≡ true
  pub real : mem 0 xs ≡ false
  pub linked :
      (a : ℕ)
      → mem a xs ≡ true
      → ((q.items a).next ≡ next_of a xs)
        × (((q.items a).prev ≡ prev_from 0 a xs) × ((q.items a).slabs_clsid ≡ id))
