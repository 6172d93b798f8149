-- ===== src/Store/Queues.antt =====
-- All LRU queues of src/items.c at once: an item is put into one of them, or taken out of it.
use mem_exchange.Prelude.{
  ℕ, ◌≡◌, ◌≢◌, refl, sym, ◌∙◌, subst, true, false, ◌||◌, List, [], ◌∷◌, ◌==◌, arith, if◌then◌else◌,
  inl, inr, Bool-cases,
}
use mem_exchange.Slabs.State.{Item, at}
use mem_exchange.Shadow.Order.{mem, first, last_from, next_of, prev_from, del, mem-del}
use mem_exchange.Items.Lru.{Lru, IsQueue, do_item_link_q, do_item_unlink_q}
use mem_exchange.Items.Links.{do_item_link_q-IsQueue, do_item_unlink_q-IsQueue}
use mem_exchange.Items.Frames.{Outside, link_q-IsQueue_other, unlink_q-IsQueue_other}
use mem_exchange.Items.Update.{put, put-IsQueue}

pub mem-first : (xs : List ℕ) → first xs ≢ 0 → mem (first xs) xs ≡ true
unfolding mem first
mem-first [] h = absurd (h refl)
mem-first (x ∷ xs) h = ground arith

pub mem-last_from : (p : ℕ) (xs : List ℕ) → last_from p xs ≢ p → mem (last_from p xs) xs ≡ true
unfolding mem last_from
mem-last_from p [] h = absurd (h refl)
mem-last_from p (x ∷ xs) h = elim (Bool-cases (last_from x xs == x)) [
  | inl e ↦ ground arith
  | inr e ↦ ground (arith, mem-last_from x xs)
]

mem-next_of : (a : ℕ) (xs : List ℕ) → next_of a xs ≢ 0 → mem (next_of a xs) xs ≡ true
unfolding mem next_of
mem-next_of a [] h = absurd (h refl)
mem-next_of a (x ∷ xs) h = ground (arith, mem-next_of a xs, mem-first xs)

mem-prev_from :
    (p a : ℕ) (xs : List ℕ)
    → prev_from p a xs ≢ 0
    → prev_from p a xs ≢ p
    → mem (prev_from p a xs) xs ≡ true
unfolding mem prev_from
mem-prev_from p a [] h k = absurd (h refl)
mem-prev_from p a (x ∷ xs) h k = ground (arith, mem-prev_from x a xs)

-- the queues with an item at the head of one, and with an item taken out of one
abbrev pub pushed : ℕ → ℕ → (ℕ → List ℕ) → ℕ → List ℕ
pushed it id qs = at qs id (it ∷ qs id)

abbrev pub pulled : ℕ → ℕ → (ℕ → List ℕ) → ℕ → List ℕ
pulled it id qs = at qs id (del it (qs id))

pub mem-pushed :
    (it id a k : ℕ) (qs : ℕ → List ℕ)
    → mem a (pushed it id qs k) ≡ (if k == id then a == it || mem a (qs id) else mem a (qs k))
unfolding mem
mem-pushed it id a k qs = elim (Bool-cases (k == id)) [ inl e ↦ rw (e) refl | inr e ↦ rw (e) refl ]

pub mem-pulled :
    (it id a k : ℕ) (qs : ℕ → List ℕ)
    → mem a (pulled it id qs k) ≡ (if k == id then mem a (del it (qs id)) else mem a (qs k))
mem-pulled it id a k qs = elim (Bool-cases (k == id)) [ inl e ↦ rw (e) refl | inr e ↦ rw (e) refl ]

abbrev pub AllQueues : Lru → (ℕ → List ℕ) → Type 0
AllQueues q qs = (id : ℕ) → IsQueue q id (qs id)

module _ {q : Lru} {qs : ℕ → List ℕ} (all : AllQueues q qs) (id k : ℕ) (other : id ≢ k) where
  -- No item is in the queues of two classes.
  pub queues_disjoint : (a : ℕ) → mem a (qs k) ≡ true → mem a (qs id) ≡ false
  queues_disjoint a m = elim (Bool-cases (mem a (qs id))) [
    | inl both ↦ absurd (other (sym ((all id).linked a both).1.1 ∙ ((all k).linked a m).1.1))
    | inr apart ↦ apart
  ]

  heads-Outside : Outside (q.heads k) (qs id)
  heads-Outside = elim (Bool-cases (q.heads k == 0)) [
    | inl none_there ↦ inl (ground arith)
    | inr there ↦ inr (
        queues_disjoint (q.heads k)
          (rw ((all k).head) (mem-first (qs k) (ground (arith, (all k).head)))))
  ]

  member-Outside : (a : ℕ) → (a ≢ 0 → mem a (qs k) ≡ true) → Outside a (qs id)
  member-Outside a m = elim (Bool-cases (a == 0)) [
    | inl null ↦ inl (ground arith)
    | inr real ↦ inr (queues_disjoint a (m (ground arith)))
  ]

-- The header of an item that is in no queue may become anything.
put-IsQueue_outside :
    (q : Lru) (id it : ℕ) (xs : List ℕ) (e : Item)
    → mem it xs ≡ false
    → IsQueue q id xs
    → IsQueue (put it e q) id xs
put-IsQueue_outside q id it xs e out l = record {
  head = l.head;
  tail = l.tail;
  distinct = l.distinct;
  real = l.real;
  linked =
      λ a m. (ground (arith, l.linked a), (ground (arith, l.linked a), ground (arith, l.linked a)));
}

-- An item that is in no queue goes to the head of the one of its class.
pub push-queues :
    (it : ℕ) (e : Item) (q : Lru) (qs : ℕ → List ℕ)
    → AllQueues q qs
    → it ≢ 0
    → ((id : ℕ) → mem it (qs id) ≡ false)
    → AllQueues (do_item_link_q it (put it e q)) (pushed it e.slabs_clsid qs)
push-queues it e q qs all real outside id =
    let clsid = e.slabs_clsid in
    let q1 = put it e q in
    let q2 = do_item_link_q it q1 in
    let before : AllQueues q1 qs = λ k. put-IsQueue_outside q k it (qs k) e (outside k) (all k) in
    let there : (q1.items it).slabs_clsid ≡ clsid = ground arith in
    elim (Bool-cases (id == clsid)) [
      | inl same ↦
          let is : id ≡ clsid = ground arith in
          let end : pushed it clsid qs id ≡ it ∷ qs clsid = rw (same) refl in
          subst (λ xs. IsQueue q2 id xs) (sym end)
            (subst (λ k. IsQueue q2 k (it ∷ qs clsid)) (there ∙ sym is)
              (do_item_link_q-IsQueue q1 (qs clsid) it
                (subst (λ k. IsQueue q1 k (qs clsid)) (sym there) (before clsid)) real
                (outside clsid)))
      | inr distinct ↦
          let other : id ≢ clsid = ground arith in
          let end : pushed it clsid qs id ≡ qs id = rw (distinct) refl in
          subst (λ xs. IsQueue q2 id xs) (sym end)
            (link_q-IsQueue_other q1 it id (qs id) (before id) (ground arith) (outside id) (
              subst (λ k. Outside (q.heads k) (qs id)) (sym there)
                (heads-Outside all id clsid other)))
    ]

-- An item is taken out of the queue of its class, with a header that has the same links.
pub pull-queues :
    (it : ℕ) (e : Item) (q : Lru) (qs : ℕ → List ℕ)
    → AllQueues q qs
    → mem it (qs (q.items it).slabs_clsid) ≡ true
    → e.next ≡ (q.items it).next
    → e.prev ≡ (q.items it).prev
    → e.slabs_clsid ≡ (q.items it).slabs_clsid
    → AllQueues (do_item_unlink_q it (put it e q)) (pulled it (q.items it).slabs_clsid qs)
pull-queues it e q qs all listed en ep ec id =
    let clsid = (q.items it).slabs_clsid in
    let q1 = put it e q in
    let q2 = do_item_unlink_q it q1 in
    let (next, (prev, _)) = (all clsid).linked it listed in
    let before : AllQueues q1 qs = λ k. put-IsQueue q k it (qs k) e en ep ec (all k) in
    elim (Bool-cases (id == clsid)) [
      | inl same ↦
          let is : clsid ≡ id = ground arith in
          let end : pulled it clsid qs id ≡ del it (qs clsid) = rw (same) refl in
          subst (λ xs. IsQueue q2 id xs) (sym end)
            (subst (λ k. IsQueue q2 k (del it (qs clsid))) is
              (do_item_unlink_q-IsQueue q1 (qs clsid) it clsid (before clsid) listed))
      | inr distinct ↦
          let other : id ≢ clsid = ground arith in
          let end : pulled it clsid qs id ≡ qs id = rw (distinct) refl in
          let out = member-Outside all id clsid other in
          let behind = out (next_of it (qs clsid)) (λ h. mem-next_of it (qs clsid) h) in
          let ahead = out (prev_from 0 it (qs clsid)) (λ h. mem-prev_from 0 it (qs clsid) h h) in
          subst (λ xs. IsQueue q2 id xs) (sym end)
            (unlink_q-IsQueue_other q1 it id (qs id) (before id) (ground arith)
              (subst (λ a. Outside a (qs id)) (ground arith) behind)
              (subst (λ a. Outside a (qs id)) (ground arith) ahead))
    ]

-- An item that was taken out is in no queue, and the others are where they were.
pub pulled_members :
    (it a id : ℕ) (q : Lru) (qs : ℕ → List ℕ)
    → AllQueues q qs
    → mem it (qs (q.items it).slabs_clsid) ≡ true
    → mem a (pulled it (q.items it).slabs_clsid qs id) ≡ (if a == it then false else mem a (qs id))
pulled_members it a id q qs all listed =
    let clsid = (q.items it).slabs_clsid in
    let inside = mem-del a it (qs clsid) (all clsid).distinct in
    elim (Bool-cases (id == clsid)) [
      | inl same ↦ ground (arith, mem-pulled it clsid a id qs, inside)
      | inr distinct ↦
          let absent = queues_disjoint all id clsid (ground arith) it listed in
          ground (arith, mem-pulled it clsid a id qs, absent)
    ]
