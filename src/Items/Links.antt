-- ===== src/Items/Links.antt =====
-- What the LRU queues of src/items.c hold after an item was linked or unlinked.
use mem_exchange.Prelude.{
  ℕ, ◌≡◌, ◌≢◌, sym, ◌∙◌, true, false, not, ◌&&◌, List, [], ◌∷◌, ◌==◌, arith, if◌then◌else◌,
}
use mem_exchange.Items.Lru.{Lru, do_item_link_q, do_item_unlinktail_q, do_item_unlink_q, IsQueue}
use mem_exchange.Shadow.Order.{
  mem, unique, first, last_from, next_of, prev_from, del, mem-del, unique-del, first-del, next-del,
  last-del, prev-del, next-prev,
}

-- An item that is in no queue goes to the head of the queue of its class.
pub do_item_link_q-IsQueue :
    (q : Lru) (xs : List ℕ) (x : ℕ)
    → IsQueue q (q.items x).slabs_clsid xs
    → x ≢ 0
    → mem x xs ≡ false
    → IsQueue (do_item_link_q x q) (q.items x).slabs_clsid (x ∷ xs)
unfolding do_item_link_q mem unique first last_from next_of prev_from
do_item_link_q-IsQueue q [] x l real new = record {
  head = ground (arith, l.head);
  tail = ground (arith, l.head, l.tail);
  distinct = ground (arith, l.distinct);
  real = ground (arith, l.real);
  linked = λ a m. (ground (arith, l.head), (ground (arith, l.head), ground (arith, l.head)));
}
do_item_link_q-IsQueue q (y ∷ ys) x l real new = record {
  head = ground (arith, l.head);
  tail = ground (arith, l.head, l.real, l.tail, last-real y ys l.real);
  distinct = ground (arith, l.distinct);
  real = ground (arith, l.real);
  linked = λ a m. (
    ground (arith, l.head, l.real, l.linked a),
    (ground (arith, l.head, l.real, l.linked a), ground (arith, l.head, l.real, l.linked a)),
  );
}
  where
    last-real : (p : ℕ) (zs : List ℕ) → mem 0 (p ∷ zs) ≡ false → last_from p zs ≢ 0
    last-real p [] z = λ e. ground arith
    last-real p (w ∷ ws) z = last-real w ws (ground arith)

-- what the neighbours of the removed item become
unlinked_links :
    (q : Lru) (x a : ℕ)
    → (((do_item_unlinktail_q x q).items a).next ≡ (
        if not ((q.items x).prev == 0) && a == (q.items x).prev
        then (q.items x).next
        else (q.items a).next))
      × ((((do_item_unlinktail_q x q).items a).prev ≡ (
            if not ((q.items x).next == 0) && a == (q.items x).next
            then (q.items x).prev
            else (q.items a).prev))
          × (((do_item_unlinktail_q x q).items a).slabs_clsid ≡ (q.items a).slabs_clsid))
unfolding do_item_unlinktail_q
unlinked_links q x a = (ground arith, (ground arith, ground arith))

unlinked :
    (q : Lru) (xs : List ℕ) (x id a : ℕ)
    → IsQueue q id xs
    → mem x xs ≡ true
    → mem a (del x xs) ≡ true
    → (((do_item_unlinktail_q x q).items a).next ≡ next_of a (del x xs))
      × ((((do_item_unlinktail_q x q).items a).prev ≡ prev_from 0 a (del x xs))
          × (((do_item_unlinktail_q x q).items a).slabs_clsid ≡ id))
unlinked q xs x id a l m k =
    let u = l.distinct in
    let other : (mem a xs ≡ true) × (a ≢ x) = ground (arith, mem-del a x xs u) in
    let (k', d) = other in
    let (next, (prev, clsid)) = l.linked x m in
    let (next_a, (prev_a, clsid_a)) = l.linked a k' in
    let (n, (p, c)) = unlinked_links q x a in
    let zero_first : 0 ≢ x = ground (arith, l.real) in
    let zero_other : 0 ≢ a = ground (arith, l.real) in
    (
      ground (
        arith,
        n,
        next,
        prev,
        next_a,
        next-del a x xs u m l.real d,
        next-prev 0 a x xs u k' m l.real l.real,
        zero_other,
      ),
      (
        ground (
          arith,
          p,
          next,
          prev,
          prev_a,
          prev-del 0 a x xs u m l.real d zero_first,
          next-prev 0 x a xs u m k' l.real l.real,
          zero_other,
        ),
        c ∙ clsid_a,
      ),
    )

-- An item leaves its queue from wherever it stands, and the others keep their order.
pub do_item_unlink_q-IsQueue :
    (q : Lru) (xs : List ℕ) (x id : ℕ)
    → IsQueue q id xs
    → mem x xs ≡ true
    → IsQueue (do_item_unlink_q x q) id (del x xs)
unfolding do_item_unlink_q do_item_unlinktail_q
do_item_unlink_q-IsQueue q xs x id l m =
    let (next, (prev, clsid)) = l.linked x m in
    let real : x ≢ 0 = ground (arith, l.real) in
    let zero_first : 0 ≢ x = λ e. real (sym e) in
    record {
      head = ground (arith, l.head, next, clsid, first-del x xs, l.real);
      tail = ground (arith, l.tail, prev, clsid, last-del 0 x xs, l.distinct, zero_first);
      distinct = unique-del x xs l.distinct;
      real = ground (arith, l.real, l.distinct, mem-del 0 x xs);
      linked = λ a k. unlinked q xs x id a l m k;
    }
