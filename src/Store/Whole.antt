-- ===== src/Store/Whole.antt =====
-- When the LRU queues, the hash table and the counters of references of the store agree.
use mem_exchange.Prelude.{
  ℕ, ◌+◌, ◌-◌, ◌%◌, ◌<◌, ◌≡◌, ◌≢◌, refl, subst, Bool, true, false, some, List, ◌∷◌, ◌==◌, arith,
  if◌then◌else◌, fun_ext, inl, inr, Bool-cases,
}
use mem_exchange.Slabs.State.{Item, at}
use mem_exchange.Shadow.Order.{mem}
use mem_exchange.Items.Lru.{Lru, item_ntotal}
use mem_exchange.Items.Update.{put, put-IsQueue, item_clsid}
use mem_exchange.Assoc.Table.{Assoc}
use mem_exchange.Assoc.Valid.{IsValid}
use mem_exchange.Assoc.Lookup.{view}
use mem_exchange.Store.{Entry, entry_keyed, ItemSettings, Store, item_at}
use mem_exchange.Store.Queues.{AllQueues, mem-first, mem-last_from}
use mem_exchange.Store.Items.{refcount_decr, refcount_incr, item_free, do_item_remove}

abbrev pub is_linked : Lru → ℕ → Bool
is_linked q a = (q.items a).it_flags.linked

-- the references to an item: those that are held, and that of the table and the queues
abbrev pub refs : (ℕ → ℕ) → Lru → ℕ → ℕ
refs held q a = held a + (if is_linked q a then 1 else 0)

-- `held` are the references that callers hold, and `qs` what the queues hold.
pub record IsWhole (hash : List ℕ → ℕ) (held : ℕ → ℕ) (qs : ℕ → List ℕ) (q : Lru) (t : Assoc Entry)
    (keys : ℕ → List ℕ) : Type 0 where
  pub queues : AllQueues q qs
  pub queued : (a id : ℕ) → mem a (qs id) ≡ true → is_linked q a ≡ true
  pub listed : (a : ℕ) → is_linked q a ≡ true → mem a (qs (q.items a).slabs_clsid) ≡ true
  pub valid : IsValid hash t
  pub tabled :
      (a : ℕ)
      → is_linked q a ≡ true
      → view hash t (keys a) ≡ some (record { address = a; key = keys a })
  pub found :
      (j : List ℕ) (e : Entry)
      → view hash t j ≡ some e
      → (is_linked q e.address ≡ true) × (keys e.address ≡ j)
  pub live : (a : ℕ) → 0 < refs held q a → ((q.items a).it_flags.slabbed ≡ false) × (a ≢ 0)
  pub counted : (a : ℕ) → 0 < refs held q a → (q.items a).refcount ≡ refs held q a
  pub few : (a : ℕ) → refs held q a < 65536

abbrev pub Whole : ItemSettings → (ℕ → ℕ) → (ℕ → List ℕ) → Store → Type 0
Whole c held qs s = IsWhole c.hash held qs s.lru s.table s.keys

pub IsWhole-same_held :
    {hash : List ℕ → ℕ} {held held' : ℕ → ℕ} {qs : ℕ → List ℕ} {q : Lru} {t : Assoc Entry}
    {keys : ℕ → List ℕ}
    → ((a : ℕ) → held a ≡ held' a)
    → IsWhole hash held qs q t keys
    → IsWhole hash held' qs q t keys
IsWhole-same_held {hash} {held} {held'} {qs} {q} {t} {keys} e w =
    subst (λ h. IsWhole hash h qs q t keys) (fun_ext e) w

-- A header may change in what the invariant does not read, and in its counter with the references held.
pub put-IsWhole :
    {hash : List ℕ → ℕ} {held : ℕ → ℕ} {qs : ℕ → List ℕ} {q : Lru} {t : Assoc Entry}
    {keys : ℕ → List ℕ} (it n : ℕ) (e : Item)
    → IsWhole hash held qs q t keys
    → e.next ≡ (q.items it).next
    → e.prev ≡ (q.items it).prev
    → e.slabs_clsid ≡ (q.items it).slabs_clsid
    → e.it_flags.linked ≡ is_linked q it
    → e.it_flags.slabbed ≡ (q.items it).it_flags.slabbed
    → (0 < n → 0 < refs held q it)
    → (0 < n + (if is_linked q it then 1 else 0)
        → e.refcount ≡ n + (if is_linked q it then 1 else 0))
    → n + (if is_linked q it then 1 else 0) < 65536
    → IsWhole hash (at held it n) qs (put it e q) t keys
put-IsWhole {hash} {held} {qs} {q} {t} {keys} it n e w en ep ec el es was count few = record {
  queues = λ id. put-IsQueue q id it (qs id) e en ep ec (w.queues id);
  queued = λ a id m. ground (arith, w.queued a id m);
  listed = λ a l. ground (arith, w.listed a);
  valid = w.valid;
  tabled = λ a l. w.tabled a (ground arith);
  found = λ j f v. ground (arith, w.found j f v);
  live = λ a h. ground (arith, w.live a);
  counted = λ a h. ground (arith, w.counted a);
  few = λ a. ground (arith, w.few a);
}

-- what do_item_remove leaves when its assertions hold
abbrev pub removed : ℕ → Store → Store
removed it s =
    let s' = refcount_decr it s in
    let e = item_at it s in
    record s' {
      freed =
          if (e.refcount + 65535) % 65536 == 0
          then (it, item_ntotal e, item_clsid e) ∷ s.freed
          else s.freed;
    }

module _ (c : ItemSettings) (s : Store) {held : ℕ → ℕ} {qs : ℕ → List ℕ} (w : Whole c held qs s)
    (it : ℕ) where
  -- An item that is not linked is at neither end of its queue.
  ends_ne :
      0 < refs held s.lru it
      → is_linked s.lru it ≡ false
      → ((it == s.lru.heads (item_at it s).slabs_clsid) ≡ false)
        × ((it == s.lru.tails (item_at it s).slabs_clsid) ≡ false)
  ends_ne some_ref off =
      let id = (item_at it s).slabs_clsid in
      let l = w.queues id in
      let real = (w.live it some_ref).1 in
      let in_queue = w.queued it id in
      (ground (arith, l.head, mem-first (qs id)), ground (arith, l.tail, mem-last_from 0 (qs id)))

  -- A reference that is held can be released: no assertion fails.
  pub do_item_remove-some : 0 < held it → do_item_remove it s ≡ some (removed it s)
  unfolding do_item_remove item_free
  do_item_remove-some h =
      let some_ref : 0 < refs held s.lru it = ground arith in
      let (slab, real) = w.live it some_ref in
      let counted = w.counted it some_ref in
      let few = w.few it in
      elim (Bool-cases (is_linked s.lru it)) [
        | inl on ↦ ground arith
        | inr off ↦ let (a, b) = ends_ne some_ref off in ground arith
      ]

  pub removed-IsWhole : 0 < held it → Whole c (at held it (held it - 1)) qs (removed it s)
  removed-IsWhole h =
      let e = item_at it s in
      let some_ref : 0 < refs held s.lru it = ground arith in
      let counted = w.counted it some_ref in
      let few = w.few it in
      put-IsWhole it (held it - 1) (record e { refcount = (e.refcount + 65535) % 65536 }) w refl
        refl refl refl refl (λ _. some_ref) (λ _. ground arith) (ground arith)

  -- A further reference to an item that is in use is counted.
  pub refcount_incr-IsWhole :
      0 < refs held s.lru it
      → refs held s.lru it < 65535
      → Whole c (at held it (held it + 1)) qs (refcount_incr it s)
  refcount_incr-IsWhole some_ref room =
      let e = item_at it s in
      let counted = w.counted it some_ref in
      put-IsWhole it (held it + 1) (record e { refcount = (e.refcount + 1) % 65536 }) w refl refl
        refl refl refl (λ _. some_ref) (λ _. ground arith) (ground arith)
