-- ===== src/Store/Linking.antt =====
-- do_item_link of src/items.c keeps the store whole.
use mathlib.Core.Option.{some-injective}
use mem_exchange.Prelude.{
  ℕ, ◌+◌, ◌%◌, ◌<◌, ◌≡◌, ◌≢◌, refl, sym, ◌∙◌, ap, subst, true, false, none, some, List, ◌==◌, arith,
  if◌then◌else◌, inl, inr, Bool-cases,
}
use mem_exchange.Slabs.State.{Item}
use mem_exchange.Shadow.Order.{mem}
use mem_exchange.Items.Lru.{Lru, IsQueue, do_item_link_q}
use mem_exchange.Items.Frames.{relinked, item-link_q}
use mem_exchange.Items.Update.{put, put-IsQueue}
use mem_exchange.Assoc.Key.{same_key, same_key_iff}
use mem_exchange.Assoc.Table.{Assoc, assoc_insert}
use mem_exchange.Assoc.Steps.{assoc_insert-IsValid}
use mem_exchange.Assoc.Lookup.{view, find-insert}
use mem_exchange.Store.{Entry, entry_keyed, ItemSettings, Store, item_at, item_stats_sizes_add}
use mem_exchange.Store.Items.{refcount_incr, linking, new_cas, do_item_link}
use mem_exchange.Store.Queues.{AllQueues, pushed, mem-pushed, push-queues}
use mem_exchange.Store.Whole.{is_linked, IsWhole, Whole}

-- what do_item_link leaves when its assertion holds
abbrev pub linked_up : ItemSettings → ℕ → ℕ → Store → Store
linked_up c it hv s =
    let s1 = new_cas c it (linking c it s) in
    let s2 = record s1 {
      table = assoc_insert (record { address = it; key = s.keys it }) hv s1.table;
      lru = do_item_link_q it s1.lru;
    } in
    item_stats_sizes_add it (refcount_incr it s2)

pub do_item_link-some :
    (c : ItemSettings) (it hv : ℕ) (s : Store)
    → is_linked s.lru it ≡ false
    → (item_at it s).it_flags.slabbed ≡ false
    → do_item_link c it hv s ≡ some (linked_up c it hv s)
unfolding do_item_link
do_item_link-some c it hv s off slab = rw (off, slab) refl

-- the queues after a header was marked, linked and counted
abbrev pub counted_in : ℕ → Item → Lru → Lru
counted_in it e q =
    let q' = do_item_link_q it (put it e q) in
    put it (record (q'.items it) { refcount = ((q'.items it).refcount + 1) % 65536 }) q'

item-counted_in :
    (it a : ℕ) (e : Item) (q : Lru)
    → let q' = counted_in it e q in
      q'.items a
      ≡ relinked
          (q'.items a).next
          (q'.items a).prev
          (if a == it then record e { refcount = (e.refcount + 1) % 65536 } else q.items a)
item-counted_in it a e q = ground (arith, item-link_q it a (put it e q))

module _ {hash : List ℕ → ℕ} {held : ℕ → ℕ} {qs : ℕ → List ℕ} {q : Lru} {t : Assoc Entry}
    {keys : ℕ → List ℕ} (it : ℕ) (e : Item) (w : IsWhole hash held qs q t keys)
    (off : is_linked q it ≡ false) (mine : 0 < held it) (en : e.next ≡ (q.items it).next)
    (ep : e.prev ≡ (q.items it).prev) (ec : e.slabs_clsid ≡ (q.items it).slabs_clsid)
    (el : e.it_flags.linked ≡ true) (es : e.it_flags.slabbed ≡ (q.items it).it_flags.slabbed)
    (er : e.refcount ≡ (q.items it).refcount) (room : held it < 65535)
    (absent : view hash t (keys it) ≡ none) where
  outside : (id : ℕ) → mem it (qs id) ≡ false
  outside id = elim (Bool-cases (mem it (qs id))) [
    | inl m ↦ ground (arith, w.queued it id m)
    | inr m ↦ m
  ]

  queues-counted_in : AllQueues (counted_in it e q) (pushed it (q.items it).slabs_clsid qs)
  queues-counted_in id =
      let clsid = (q.items it).slabs_clsid in
      let q2 = do_item_link_q it (put it e q) in
      let e2 = record (q2.items it) { refcount = ((q2.items it).refcount + 1) % 65536 } in
      let real : it ≢ 0 = (w.live it (ground arith)).1 in
      put-IsQueue q2 id it (pushed it clsid qs id) e2 refl refl refl (
        subst (λ k. IsQueue q2 id (pushed it k qs id)) ec
          (push-queues it e q qs w.queues real outside id))

  abbrev entry : Entry
  entry = record { address = it; key = keys it }

  abbrev table : Assoc Entry
  table = assoc_insert entry (hash (keys it)) t

  tabled_in :
      (a : ℕ)
      → is_linked (counted_in it e q) a ≡ true
      → view hash table (keys a) ≡ some (record { address = a; key = keys a })
  tabled_in a l = find-insert hash entry t (keys a) ∙ elim (Bool-cases (a == it)) [
    | inl same ↦
        let is : it ≡ a = ground arith in
        let key = (same_key_iff (keys it) (keys it)).1 refl in
        subst
          (λ b.
            (if same_key (keys b) (keys it) then some entry else view hash t (keys b))
            ≡ some (record { address = b; key = keys b }))
          is (rw (key) refl)
    | inr other ↦
        let before : view hash t (keys a) ≡ some (record { address = a; key = keys a }) =
          w.tabled a (ground (arith, item-counted_in it a e q)) in
        elim (Bool-cases (same_key (keys a) (keys it))) [
          | inl same ↦
              let key = (same_key_iff (keys a) (keys it)).0 same in
              cc (absent, before, ap (λ j. view hash t j) key)
          | inr apart ↦ rw (apart) before
        ]
  ]

  found_in :
      (j : List ℕ) (f : Entry)
      → view hash table j ≡ some f
      → (is_linked (counted_in it e q) f.address ≡ true) × (keys f.address ≡ j)
  found_in j f v =
      let v' = sym (find-insert hash entry t j) ∙ v in
      elim (Bool-cases (same_key j (keys it))) [
        | inl same ↦
            let is : entry ≡ f = some-injective _ _ (rw (same) at v') in
            subst (λ g. (is_linked (counted_in it e q) g.address ≡ true) × (keys g.address ≡ j)) is
              (ground (arith, item-counted_in it it e q), sym ((same_key_iff j (keys it)).0 same))
        | inr other ↦
            let old : view hash t j ≡ some f = rw (other) at v' in
            let (on, key) = w.found j f old in
            (ground (arith, item-counted_in it f.address e q), key)
      ]

  pub counted_in-IsWhole :
      IsWhole hash held
        (pushed it (q.items it).slabs_clsid qs)
        (counted_in it e q)
        (assoc_insert (record { address = it; key = keys it }) (hash (keys it)) t)
        keys
  counted_in-IsWhole =
      let q' = counted_in it e q in
      let clsid = (q.items it).slabs_clsid in
      record {
        queues = queues-counted_in;
        queued = λ a id m. ground (
          arith,
          item-counted_in it a e q,
          mem-pushed it clsid a id qs,
          w.queued a id,
          w.queued a clsid,
        );
        listed = λ a l. ground (
          arith,
          item-counted_in it a e q,
          mem-pushed it clsid a (q'.items a).slabs_clsid qs,
          w.listed a,
        );
        valid = assoc_insert-IsValid hash entry t w.valid absent;
        tabled = λ a l. tabled_in a l;
        found = found_in;
        live = λ a h. ground (arith, item-counted_in it a e q, w.live a, w.live it);
        counted = λ a h. ground (arith, item-counted_in it a e q, w.counted a, w.counted it);
        few = λ a. ground (arith, item-counted_in it a e q, w.few a);
      }

-- A link of an item that is held, in no queue, and whose key is absent.
pub linked_up-IsWhole :
    (c : ItemSettings) (it : ℕ) (s : Store) {held : ℕ → ℕ} {qs : ℕ → List ℕ}
    → Whole c held qs s
    → is_linked s.lru it ≡ false
    → 0 < held it
    → held it < 65535
    → view c.hash s.table (s.keys it) ≡ none
    → Whole c held (pushed it (item_at it s).slabs_clsid qs) (linked_up c it (c.hash (s.keys it)) s)
linked_up-IsWhole c it s w off mine room absent =
    let e = item_at it s in
    counted_in-IsWhole it
      (record e { it_flags = record e.it_flags { linked = true }; time = c.current_time }) w off
      mine refl refl refl refl refl refl room absent
