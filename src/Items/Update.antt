-- ===== src/Items/Update.antt =====
-- do_item_update and do_item_update_nolock of src/items.c: a hit moves an item to the head of its
-- queue, and with the segmented LRU from the cold to the warm one.
use mem_exchange.Prelude.{
  ℕ, ◌+◌, ◌*◌, ◌/◌, ◌%◌, ◌<◌, ◌≡◌, ◌≢◌, refl, sym, ◌∙◌, subst, Bool, true, false, ◌&&◌, List, ◌∷◌,
  ◌==◌, ltb, arith, if◌then◌else◌,
}
use mem_exchange.Slabs.State.{Item, at}
use mem_exchange.Items.Lru.{Lru, do_item_link_q, do_item_unlink_q, do_item_unlinktail_q, IsQueue}
use mem_exchange.Items.Links.{do_item_link_q-IsQueue, do_item_unlink_q-IsQueue}
use mem_exchange.Shadow.Order.{mem, del, mem-del}

abbrev pub warm_lru : ℕ
warm_lru = 64

abbrev pub cold_lru : ℕ
cold_lru = 128

-- ITEM_lruid and ITEM_clsid of the 8 bits of `slabs_clsid`
abbrev pub item_lruid : Item → ℕ
item_lruid e = (e.slabs_clsid / 64) * 64

abbrev pub item_clsid : Item → ℕ
item_clsid e = e.slabs_clsid % 64

abbrev pub put : ℕ → Item → Lru → Lru
put a e q = record q { items = at q.items a e }

abbrev pub touch : ℕ → ℕ → Lru → Lru
touch now it q = put it (record (q.items it) { time = now }) q

unfoldable pub do_item_update_nolock : ℕ → ℕ → Lru → Lru
do_item_update_nolock now it q =
    let e = q.items it in
    let moved = do_item_link_q it (touch now it (do_item_unlink_q it q)) in
    if ltb e.time now && e.it_flags.linked then moved else q

-- from the cold queue to the warm one
unfoldable pub warm_up : ℕ → ℕ → Lru → Lru
warm_up now it q =
    let q1 = do_item_unlink_q it (touch now it q) in
    let e = q1.items it in
    do_item_link_q it (
      put it
        (record e {
          slabs_clsid = item_clsid e + warm_lru;
          it_flags = record e.it_flags { active = false };
        })
        q1)

unfoldable pub do_item_update : Bool → ℕ → ℕ → Lru → Lru
do_item_update segmented now it q =
    let e = q.items it in
    let cold = item_lruid e == cold_lru && e.it_flags.active in
    let stale = ltb e.time now in
    let front = do_item_link_q it (do_item_unlink_q it (touch now it q)) in
    if segmented
    then (if e.it_flags.linked
        then (if cold then warm_up now it q else (if stale then touch now it q else q))
        else q)
    else (if stale && e.it_flags.linked then front else q)

-- A change of other fields leaves the queues as they are.
pub put-IsQueue :
    (q : Lru) (id it : ℕ) (xs : List ℕ) (e : Item)
    → e.next ≡ (q.items it).next
    → e.prev ≡ (q.items it).prev
    → e.slabs_clsid ≡ (q.items it).slabs_clsid
    → IsQueue q id xs
    → IsQueue (put it e q) id xs
put-IsQueue q id it xs e n p c l = record {
  head = l.head;
  tail = l.tail;
  distinct = l.distinct;
  real = l.real;
  linked =
      λ a m. (ground (arith, l.linked a), (ground (arith, l.linked a), ground (arith, l.linked a)));
}

clsid-unlink :
    (x : ℕ) (q : Lru) → ((do_item_unlink_q x q).items x).slabs_clsid ≡ (q.items x).slabs_clsid
unfolding do_item_unlink_q do_item_unlinktail_q
clsid-unlink x q = ground arith

-- Without segments, a hit on an item that was not used in this second makes it the first of its queue,
-- and the others keep their order.
pub do_item_update-IsQueue :
    (now it id : ℕ) (q : Lru) (xs : List ℕ)
    → IsQueue q id xs
    → mem it xs ≡ true
    → (q.items it).it_flags.linked ≡ true
    → (q.items it).time < now
    → IsQueue (do_item_update false now it q) id (it ∷ del it xs)
unfolding do_item_update
do_item_update-IsQueue now it id q xs l m linked old =
    let stale : ltb (q.items it).time now ≡ true = ground arith in
    let (next, (prev, clsid)) = l.linked it m in
    let real : it ≢ 0 = ground (arith, l.real) in
    let touched = put-IsQueue q id it xs (record (q.items it) { time = now }) refl refl refl l in
    let out = do_item_unlink_q-IsQueue (touch now it q) xs it id touched m in
    let gone : mem it (del it xs) ≡ false = ground (arith, mem-del it it xs l.distinct) in
    let same : ((do_item_unlink_q it (touch now it q)).items it).slabs_clsid ≡ id =
      clsid-unlink it (touch now it q) ∙ (ground arith) in
    simp (stale, linked)
      (subst
        (λ k. IsQueue (do_item_link_q it (do_item_unlink_q it (touch now it q))) k (it ∷ del it xs))
        same
        (do_item_link_q-IsQueue (do_item_unlink_q it (touch now it q)) (del it xs) it
          (subst (λ k. IsQueue (do_item_unlink_q it (touch now it q)) k (del it xs)) (sym same) out)
          real gone))
