-- ===== src/Store/Updating.antt =====
-- do_item_update of src/items.c keeps the store whole, with and without segments.
use mem_exchange.Prelude.{
  ℕ, ◌+◌, ◌<◌, ◌≡◌, ◌≢◌, refl, ap, subst, fun_ext, Bool, true, false, ◌&&◌, List, ◌==◌, ltb, arith,
  if◌then◌else◌,
}
use mem_exchange.Slabs.State.{Item}
use mem_exchange.Items.Lru.{Lru, do_item_link_q, do_item_unlink_q}
use mem_exchange.Items.Frames.{relinked, item-link_q, item-unlink_q}
use mem_exchange.Items.Update.{
  put, touch, warm_up, do_item_update, item_clsid, item_lruid, warm_lru, cold_lru,
}
use mem_exchange.Assoc.Table.{Assoc}
use mem_exchange.Store.{Entry}
use mem_exchange.Store.Queues.{pushed, pulled, mem-pushed, pulled_members, push-queues, pull-queues}
use mem_exchange.Store.Whole.{is_linked, refs, IsWhole, IsWhole-same_held, put-IsWhole}

-- the header of an item, as it is taken out and as it is put in again
abbrev pub requeued : ℕ → Item → Item → Lru → Lru
requeued it e e' q = do_item_link_q it (put it e' (do_item_unlink_q it (put it e q)))

item-requeued :
    (it a : ℕ) (e e' : Item) (q : Lru)
    → let q' = requeued it e e' q in
      q'.items a ≡ relinked (q'.items a).next (q'.items a).prev (if a == it then e' else q.items a)
item-requeued it a e e' q = ground (
  arith,
  item-link_q it a (put it e' (do_item_unlink_q it (put it e q))),
  item-unlink_q it a (put it e q),
)

module _ {hash : List ℕ → ℕ} {held : ℕ → ℕ} {qs : ℕ → List ℕ} {q : Lru} {t : Assoc Entry}
    {keys : ℕ → List ℕ} (it : ℕ) (w : IsWhole hash held qs q t keys)
    (on : is_linked q it ≡ true) where
  -- An item may go from its queue to the head of any queue.
  requeued-IsWhole :
      (e e' : Item)
      → e.next ≡ (q.items it).next
      → e.prev ≡ (q.items it).prev
      → e.slabs_clsid ≡ (q.items it).slabs_clsid
      → e'.it_flags.linked ≡ true
      → e'.it_flags.slabbed ≡ (q.items it).it_flags.slabbed
      → e'.refcount ≡ (q.items it).refcount
      → IsWhole hash held
          (pushed it e'.slabs_clsid (pulled it (q.items it).slabs_clsid qs))
          (requeued it e e' q)
          t
          keys
  requeued-IsWhole e e' en ep ec el es er =
      let clsid = (q.items it).slabs_clsid in
      let listed = w.listed it on in
      let q' = requeued it e e' q in
      let k = e'.slabs_clsid in
      let real : it ≢ 0 = (w.live it (ground arith)).1 in
      let pull = λ (a id : ℕ). pulled_members it a id q qs w.queues listed in
      let push = λ (a id : ℕ). mem-pushed it k a id (pulled it clsid qs) in
      record {
        queues =
            push-queues it e' (do_item_unlink_q it (put it e q)) (pulled it clsid qs)
              (pull-queues it e q qs w.queues listed en ep ec) real
              (λ id. ground (arith, pull it id));
        queued = λ a id m. ground (
          arith,
          item-requeued it a e e' q,
          push a id,
          pull a id,
          pull a k,
          w.queued a id,
          w.queued a k,
        );
        listed = λ a l. ground (
          arith,
          item-requeued it a e e' q,
          push a (q'.items a).slabs_clsid,
          pull a (q'.items a).slabs_clsid,
          pull a k,
          w.listed a,
        );
        valid = w.valid;
        tabled = λ a l. w.tabled a (ground (arith, item-requeued it a e e' q));
        found = λ j f v. ground (arith, w.found j f v, item-requeued it f.address e e' q);
        live = λ a h. ground (arith, item-requeued it a e e' q, w.live a);
        counted = λ a h. ground (arith, item-requeued it a e e' q, w.counted a);
        few = λ a. ground (arith, item-requeued it a e e' q, w.few a);
      }

  touch-IsWhole : (now : ℕ) → IsWhole hash held qs (touch now it q) t keys
  touch-IsWhole now =
      let some_ref : 0 < refs held q it = ground arith in
      IsWhole-same_held (λ a. ground arith)
        (put-IsWhole it (held it) (record (q.items it) { time = now }) w refl refl refl refl refl
          (λ _. some_ref) (λ _. w.counted it some_ref) (w.few it))

  put_self : (q' : Lru) → put it (q'.items it) q' ≡ q'
  put_self q' = ap (λ f. record q' { items = f }) (fun_ext (λ a. ground arith))

  abbrev Reordered : Lru → Type 0
  Reordered q' = (qs' : ℕ → List ℕ) × IsWhole hash held qs' q' t keys

  either : (b : Bool) (x y : Lru) → Reordered x → Reordered y → Reordered (if b then x else y)
  either true x y h k = h
  either false x y h k = k

  -- what an item carries through its removal
  carried :
      (now : ℕ)
      → let e = (do_item_unlink_q it (touch now it q)).items it in
        (e.it_flags.linked ≡ true)
        × ((e.it_flags.slabbed ≡ (q.items it).it_flags.slabbed)
            × (e.refcount ≡ (q.items it).refcount))
  carried now =
      let h = item-unlink_q it it (touch now it q) in
      (ground (arith, h), (ground (arith, h), ground (arith, h)))

  warm_up-Reordered : (now : ℕ) → Reordered (warm_up now it q)
  unfolding warm_up
  warm_up-Reordered now =
      let e1 = record (q.items it) { time = now } in
      let e = (do_item_unlink_q it (touch now it q)).items it in
      let e' = record e {
        slabs_clsid = item_clsid e + warm_lru;
        it_flags = record e.it_flags { active = false };
      } in
      let (l, (s, r)) = carried now in
      (
        pushed it e'.slabs_clsid (pulled it (q.items it).slabs_clsid qs),
        requeued-IsWhole e1 e' refl refl refl l s r,
      )

  front-Reordered : (now : ℕ) → Reordered (do_item_link_q it (do_item_unlink_q it (touch now it q)))
  front-Reordered now =
      let e1 = record (q.items it) { time = now } in
      let q2 = do_item_unlink_q it (touch now it q) in
      let e = q2.items it in
      let (l, (s, r)) = carried now in
      (
        pushed it e.slabs_clsid (pulled it (q.items it).slabs_clsid qs),
        subst
            (λ u.
              IsWhole hash held (pushed it e.slabs_clsid (pulled it (q.items it).slabs_clsid qs))
                (do_item_link_q it u) t keys)
            (put_self q2) (requeued-IsWhole e1 e refl refl refl l s r),
      )

  -- After do_item_update of a linked item, with segmented queues or without, there are queues that
  -- agree with the table, its keys and the references that were held, as those before it did.
  pub do_item_update-IsWhole :
      (segmented : Bool) (now : ℕ)
      → (qs' : ℕ → List ℕ) × IsWhole hash held qs' (do_item_update segmented now it q) t keys
  unfolding do_item_update
  do_item_update-IsWhole true now =
      let e = q.items it in
      let stay : Reordered q = (qs, w) in
      let touched : Reordered (touch now it q) = (qs, touch-IsWhole now) in
      either e.it_flags.linked _ _
        (either (item_lruid e == cold_lru && e.it_flags.active) _ _ (warm_up-Reordered now)
          (either (ltb e.time now) _ _ touched stay))
        stay
  do_item_update-IsWhole false now =
      let e = q.items it in
      either (ltb e.time now && e.it_flags.linked) _ _ (front-Reordered now) (qs, w)
