-- ===== src/Shadow/Bound.antt =====
-- The bound on a shadow queue: the critical section of `insert_shadowq_item` under the queue lock in
-- src/shadows.c, with the step of `evict_shadowq_item_locked` that unlinks the victim.
use mem_exchange.Prelude.{
  ℕ, ◌+◌, ◌<◌, ◌≡◌, ◌≢◌, refl, ◌∙◌, true, false, not, ◌&&◌, List, [], ◌∷◌, ◌==◌, ltb, arith,
  if◌then◌else◌, length, inl, inr, Bool-cases,
}
use mem_exchange.Shadow.Order.{mem, last_from, del}
use mem_exchange.Shadow.Queue.{
  Queues, insert_shadowq_item_locked, remove_shadowq_item_locked, IsLinked,
  insert_shadowq_item_locked-IsLinked, remove_shadowq_item_locked-IsLinked,
}

unfoldable pub unlink_victim : ℕ → Queues → Queues
unlink_victim victim q = if (q.items victim).dead then q else remove_shadowq_item_locked victim q

unfoldable pub enqueue : ℕ → Queues → Queues
enqueue elem q =
    let id = (q.items elem).slabs_clsid in
    let q' = insert_shadowq_item_locked elem q in
    let c = q'.slabclass id in
    if ltb c.shadowq_max_items c.shadowq_size && not (c.shadowq_tail == 0)
    then unlink_victim c.shadowq_tail q'
    else q'

last-mem : (x : ℕ) (xs : List ℕ) → mem (last_from x xs) (x ∷ xs) ≡ true
unfolding mem last_from
last-mem x [] = ground arith
last-mem x (y ∷ xs) = ground (arith, last-mem y xs)

insert_keeps :
    (x a : ℕ) (q : Queues)
    → (((insert_shadowq_item_locked x q).items a).dead ≡ (q.items a).dead)
      × (((insert_shadowq_item_locked x q).slabclass a).shadowq_max_items
          ≡ (q.slabclass a).shadowq_max_items)
unfolding insert_shadowq_item_locked
insert_keeps x a q = (ground arith, ground arith)

enqueue_full :
    (x v : ℕ) (q : Queues)
    → ((insert_shadowq_item_locked x q).slabclass (q.items x).slabs_clsid).shadowq_tail ≡ v
    → v ≢ 0
    → ((insert_shadowq_item_locked x q).items v).dead ≡ false
    → ltb
        ((insert_shadowq_item_locked x q).slabclass (q.items x).slabs_clsid).shadowq_max_items
        ((insert_shadowq_item_locked x q).slabclass (q.items x).slabs_clsid).shadowq_size
      ≡ true
    → enqueue x q ≡ remove_shadowq_item_locked v (insert_shadowq_item_locked x q)
unfolding enqueue unlink_victim
enqueue_full x v q tail real live full =
    let set : (v == 0) ≡ false = ground arith in rw (full, tail, set, live) refl

enqueue_free :
    (x : ℕ) (q : Queues)
    → ltb
        ((insert_shadowq_item_locked x q).slabclass (q.items x).slabs_clsid).shadowq_max_items
        ((insert_shadowq_item_locked x q).slabclass (q.items x).slabs_clsid).shadowq_size
      ≡ false
    → enqueue x q ≡ insert_shadowq_item_locked x q
unfolding enqueue
enqueue_free x q free = rw (free) refl

-- An item that is in no queue goes to the head of its class's queue, if the last item of that queue is
-- live and the count stays below 2 ^ 32; that item leaves where the queue would outgrow its bound.
pub enqueue-IsLinked :
    (q : Queues) (xs : List ℕ) (x : ℕ)
    → IsLinked q (q.items x).slabs_clsid xs
    → x ≢ 0
    → mem x xs ≡ false
    → length xs + 1 < 4294967296
    → (q.items (last_from x xs)).dead ≡ false
    → IsLinked (enqueue x q) (q.items x).slabs_clsid (
        if ltb (q.slabclass (q.items x).slabs_clsid).shadowq_max_items (length xs + 1)
        then del (last_from x xs) (x ∷ xs)
        else x ∷ xs)
unfolding last_from
enqueue-IsLinked q xs x l real new short live =
    let id = (q.items x).slabs_clsid in
    let v = last_from x xs in
    let q' = insert_shadowq_item_locked x q in
    let l' = insert_shadowq_item_locked-IsLinked q xs x l real new in
    let inside = last-mem x xs in
    let (dead, _) = insert_keeps x v q in
    let (_, bound) = insert_keeps x id q in
    let size : (q'.slabclass id).shadowq_size ≡ length xs + 1 = ground (arith, l'.size) in
    elim (Bool-cases (ltb (q.slabclass id).shadowq_max_items (length xs + 1))) [
      | inl full ↦
          let run =
            enqueue_full x v q l'.tail (ground (arith, l'.real)) (dead ∙ live)
              (rw (bound, size) full) in
          rw (run, full) (remove_shadowq_item_locked-IsLinked q' (x ∷ xs) v id l' inside)
      | inr free ↦ rw (enqueue_free x q (rw (bound, size) free), free) l'
    ]
