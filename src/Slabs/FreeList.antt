-- ===== src/Slabs/FreeList.antt =====
-- The free list of a class: do_slabs_free, the local part of do_slabs_alloc and
-- slab_rebalance_cut_free of src/slabs.c, as operations on a doubly linked list in the items.
pub mod Takes
pub mod Lists
pub mod Pops
use mem_exchange.Prelude.{
  ℕ, ◌%◌, ◌≡◌, ◌≢◌, sym, Bool, true, false, not, ◌&&◌, List, [], ◌∷◌, ◌==◌, arith, if◌then◌else◌,
  length, add32, sub32, sub64,
}
use mem_exchange.Slabs.State.{
  Item, ItFlags, SlabClass, Pool, item_slabbed, put_item, put_class, is_class,
}
use mem_exchange.Shadow.Order.{
  mem, unique, first, next_of, prev_from, del, mem-del, unique-del, length-del, first-del, next-del,
  prev-del, next-prev,
}

abbrev pub set_prev : ℕ → ℕ → Pool → Pool
set_prev a b p = put_item a (record (p.items a) { prev = b }) p

abbrev pub set_next : ℕ → ℕ → Pool → Pool
set_next a b p = put_item a (record (p.items a) { next = b }) p

-- the same lines in do_slabs_free and twice in do_slabs_free_chunked: `it` becomes the first slot
unfoldable pub push_free : ℕ → ℕ → Pool → Pool
push_free it id p =
    let e = p.items it in
    let next = (p.slabclass id).slots in
    let p1 =
      put_item it (record e { it_flags = item_slabbed; slabs_clsid = 0; prev = 0; next = next })
        p in
    let p2 = if next == 0 then p1 else set_prev next it p1 in
    let c = p2.slabclass id in
    put_class id (record c { slots = it; sl_curr = add32 c.sl_curr 1 }) p2

-- `p->requested -= size`
unfoldable pub unrequest : ℕ → ℕ → Pool → Pool
unrequest id size p =
    let c = p.slabclass id in put_class id (record c { requested = sub64 c.requested size }) p

-- The first slot leaves the list, with one reference.
unfoldable pub pop_free : ℕ → Pool → Pool
pop_free id p =
    let it = (p.slabclass id).slots in
    let e = p.items it in
    let p1 = put_class id (record (p.slabclass id) { slots = e.next }) p in
    let p2 = if e.next == 0 then p1 else set_prev e.next 0 p1 in
    let e2 = p2.items it in
    let p3 =
      put_item it (record e2 { it_flags = record e2.it_flags { slabbed = false }; refcount = 1 })
        p2 in
    let c = p3.slabclass id in put_class id (record c { sl_curr = sub32 c.sl_curr 1 }) p3

unfoldable pub slab_rebalance_cut_free : ℕ → ℕ → Pool → Pool
slab_rebalance_cut_free id it p =
    let e = p.items it in
    let c = p.slabclass id in
    let p1 = if c.slots == it then put_class id (record c { slots = e.next }) p else p in
    let p2 = if e.next == 0 then p1 else set_prev e.next e.prev p1 in
    let p3 = if e.prev == 0 then p2 else set_next e.prev e.next p2 in
    let c3 = p3.slabclass id in put_class id (record c3 { sl_curr = sub32 c3.sl_curr 1 }) p3

-- The free list of a class holds exactly the chunks `xs`, the one freed last first.
pub record IsFree (p : Pool) (id : ℕ) (xs : List ℕ) : Type 0 where
  pub slots : (p.slabclass id).slots ≡ first xs
  pub count : (p.slabclass id).sl_curr ≡ length xs % 4294967296
  pub distinct : unique xs ≡ true
  pub real : mem 0 xs ≡ false
  pub linked :
      (a : ℕ)
      → mem a xs ≡ true
      → ((p.items a).next ≡ next_of a xs)
        × (((p.items a).prev ≡ prev_from 0 a xs)
            × (((p.items a).it_flags ≡ item_slabbed) × ((p.items a).slabs_clsid ≡ 0)))

-- A chunk that is in no free list goes to the front.
pub push_free-IsFree :
    (p : Pool) (id : ℕ) (xs : List ℕ) (x : ℕ)
    → IsFree p id xs
    → x ≢ 0
    → mem x xs ≡ false
    → IsFree (push_free x id p) id (x ∷ xs)
unfolding push_free mem unique first next_of prev_from
push_free-IsFree p id [] x l real new = record {
  slots = ground arith;
  count = ground (arith, l.count);
  distinct = ground arith;
  real = ground arith;
  linked = λ a m. (
    ground (arith, l.slots),
    (ground (arith, l.slots), (ground (arith, l.slots), ground (arith, l.slots))),
  );
}
push_free-IsFree p id (y ∷ ys) x l real new = record {
  slots = ground arith;
  count = ground (arith, l.count);
  distinct = ground (arith, l.distinct);
  real = ground (arith, l.real);
  linked = λ a m. (
    ground (arith, l.slots, l.real, l.linked a),
    (
      ground (arith, l.slots, l.real, l.linked a),
      (ground (arith, l.slots, l.real, l.linked a), ground (arith, l.slots, l.real, l.linked a)),
    ),
  );
}
