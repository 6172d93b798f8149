-- ===== src/Slabs/FreeList/Takes.antt =====
-- Chunks that leave a free list: the first one by do_slabs_alloc, any of them by
-- slab_rebalance_cut_free.
use mem_exchange.Prelude.{
  ℕ, ◌≡◌, ◌≢◌, ◌∙◌, true, not, ◌&&◌, List, [], ◌∷◌, ◌==◌, arith, if◌then◌else◌,
}
use mem_exchange.Slabs.State.{Pool, item_slabbed}
use mem_exchange.Slabs.FreeList.{pop_free, slab_rebalance_cut_free, IsFree}
use mem_exchange.Shadow.Order.{
  mem, unique, first, next_of, prev_from, del, mem-del, unique-del, length-del, first-del, next-del,
  prev-del, next-prev,
}

-- The chunk that was freed last leaves; the others stay in their order.
pub pop_free-IsFree :
    (p : Pool) (id x : ℕ) (xs : List ℕ) → IsFree p id (x ∷ xs) → IsFree (pop_free id p) id xs
unfolding pop_free mem unique first next_of prev_from
pop_free-IsFree p id x [] l = record {
  slots = ground (arith, l.slots, l.linked x, l.real);
  count = ground (arith, l.count, l.slots, l.linked x);
  distinct = ground arith;
  real = ground arith;
  linked = λ a m. cc;
}
pop_free-IsFree p id x (y ∷ ys) l = record {
  slots = ground (arith, l.slots, l.linked x, l.real);
  count = ground (arith, l.count, l.slots, l.linked x);
  distinct = ground (arith, l.distinct);
  real = ground (arith, l.real);
  linked = λ a m. (
    ground (arith, l.slots, l.real, l.distinct, l.linked x, l.linked a),
    (
      ground (arith, l.slots, l.real, l.distinct, l.linked x, l.linked a),
      (
        ground (arith, l.slots, l.real, l.distinct, l.linked x, l.linked a),
        ground (arith, l.slots, l.real, l.distinct, l.linked x, l.linked a),
      ),
    ),
  );
}

-- what the neighbours of the chunk that is cut out become
cut_links :
    (p : Pool) (id x a : ℕ)
    → (((slab_rebalance_cut_free id x p).items a).next ≡ (
        if not ((p.items x).prev == 0) && a == (p.items x).prev
        then (p.items x).next
        else (p.items a).next))
      × ((((slab_rebalance_cut_free id x p).items a).prev ≡ (
            if not ((p.items x).next == 0) && a == (p.items x).next
            then (p.items x).prev
            else (p.items a).prev))
          × ((((slab_rebalance_cut_free id x p).items a).it_flags ≡ (p.items a).it_flags)
              × (((slab_rebalance_cut_free id x p).items a).slabs_clsid ≡ (p.items a).slabs_clsid)))
unfolding slab_rebalance_cut_free
cut_links p id x a = (ground arith, (ground arith, (ground arith, ground arith)))

cut_linked :
    (p : Pool) (xs : List ℕ) (id x a : ℕ)
    → IsFree p id xs
    → mem x xs ≡ true
    → mem a (del x xs) ≡ true
    → (((slab_rebalance_cut_free id x p).items a).next ≡ next_of a (del x xs))
      × ((((slab_rebalance_cut_free id x p).items a).prev ≡ prev_from 0 a (del x xs))
          × ((((slab_rebalance_cut_free id x p).items a).it_flags ≡ item_slabbed)
              × (((slab_rebalance_cut_free id x p).items a).slabs_clsid ≡ 0)))
cut_linked p xs id x a l m k =
    let u = l.distinct in
    let other : (mem a xs ≡ true) × (a ≢ x) = ground (arith, mem-del a x xs u) in
    let (k', d) = other in
    let (next, (prev, flags)) = l.linked x m in
    let (next_a, (prev_a, (flags_a, clsid_a))) = l.linked a k' in
    let (n, (q, (f, c))) = cut_links p id x a in
    let zero_first : 0 ≢ x = ground (arith, l.real) in
    let zero_other : 0 ≢ a = ground (arith, l.real) in
    (
      ground (
        arith,
        n,
        next,
        prev,
        next_a,
        next-del a x xs u m l.real d,
        next-prev 0 a x xs u k' m l.real l.real,
        zero_other,
      ),
      (
        ground (
          arith,
          q,
          next,
          prev,
          prev_a,
          prev-del 0 a x xs u m l.real d zero_first,
          next-prev 0 x a xs u m k' l.real l.real,
          zero_other,
        ),
        (f ∙ flags_a, c ∙ clsid_a),
      ),
    )

-- A chunk of a free list is taken out of it, wherever it stands, and the others keep their order.
pub slab_rebalance_cut_free-IsFree :
    (p : Pool) (id x : ℕ) (xs : List ℕ)
    → IsFree p id xs
    → mem x xs ≡ true
    → IsFree (slab_rebalance_cut_free id x p) id (del x xs)
unfolding slab_rebalance_cut_free
slab_rebalance_cut_free-IsFree p id x xs l m =
    let (next, (prev, flags)) = l.linked x m in
    record {
      slots = ground (arith, l.slots, next, first-del x xs, l.real);
      count = ground (arith, l.count, length-del x xs);
      distinct = unique-del x xs l.distinct;
      real = ground (arith, l.real, l.distinct, mem-del 0 x xs);
      linked = λ a k. cut_linked p xs id x a l m k;
    }
