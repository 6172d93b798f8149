-- ===== src/Shadow/Queue.antt =====
-- The shadow items and the queue of each slab class: src/shadows.h and the functions of src/shadows.c
-- that link and unlink, which run under the class's queue lock.
use mem_exchange.Prelude.{
  ℕ, ◌%◌, ◌≡◌, ◌≢◌, sym, ◌∙◌, Bool, true, false, not, ◌&&◌, List, [], ◌∷◌, ◌==◌, arith,
  if◌then◌else◌, length, add32, sub32,
}
use mem_exchange.Shadow.Order.{
  mem, unique, first, last_from, next_of, prev_from, del, mem-del, unique-del, length-del,
  first-del, next-del, last-del, prev-del, next-prev,
}

-- `shadow_item` without its hash chain; addresses are numbers, zero is NULL
pub record ShadowItem : Type 0 where
  pub next : ℕ
  pub prev : ℕ
  pub slabs_clsid : ℕ
  pub key : List ℕ
  pub tree_node : ℕ
  pub refcnt : ℕ
  pub dead : Bool

-- the fields of `slabclass_t` that belong to the queue
pub record ShadowClass : Type 0 where
  pub shadowq_head : ℕ
  pub shadowq_tail : ℕ
  pub shadowq_size : ℕ
  pub shadowq_max_items : ℕ

pub record Queues : Type 0 where
  pub items : ℕ → ShadowItem
  pub slabclass : ℕ → ShadowClass

abbrev pub at {ℓ} : {A : Type ℓ} → (ℕ → A) → ℕ → A → ℕ → A
at f a x b = if b == a then x else f b

abbrev pub set_next : ℕ → ℕ → Queues → Queues
set_next a n q = record q { items = at q.items a (record (q.items a) { next = n }) }

abbrev pub set_prev : ℕ → ℕ → Queues → Queues
set_prev a p q = record q { items = at q.items a (record (q.items a) { prev = p }) }

abbrev pub set_shadowq_head : ℕ → ℕ → Queues → Queues
set_shadowq_head elem id q = record q {
  slabclass = at q.slabclass id (record (q.slabclass id) { shadowq_head = elem });
}

abbrev pub set_shadowq_tail : ℕ → ℕ → Queues → Queues
set_shadowq_tail elem id q = record q {
  slabclass = at q.slabclass id (record (q.slabclass id) { shadowq_tail = elem });
}

abbrev pub dec_shadowq_size : ℕ → Queues → Queues
dec_shadowq_size id q =
    let c = q.slabclass id in
    record q { slabclass = at q.slabclass id (record c { shadowq_size = sub32 c.shadowq_size 1 }) }

abbrev pub inc_shadowq_size : ℕ → Queues → Queues
inc_shadowq_size id q =
    let c = q.slabclass id in
    record q { slabclass = at q.slabclass id (record c { shadowq_size = add32 c.shadowq_size 1 }) }

unfoldable pub remove_shadowq_item_locked : ℕ → Queues → Queues
remove_shadowq_item_locked elem q =
    let e = q.items elem in
    let id = e.slabs_clsid in
    let q1 = if e.prev == 0 then q else set_next e.prev e.next q in
    let q2 = if e.next == 0 then q1 else set_prev e.next e.prev q1 in
    let q3 = if (q2.slabclass id).shadowq_head == elem then set_shadowq_head e.next id q2 else q2 in
    let q4 = if (q3.slabclass id).shadowq_tail == elem then set_shadowq_tail e.prev id q3 else q3 in
    set_next elem 0 (set_prev elem 0 (dec_shadowq_size id q4))

unfoldable pub insert_shadowq_item_locked : ℕ → Queues → Queues
insert_shadowq_item_locked elem q =
    let id = (q.items elem).slabs_clsid in
    let q1 = set_prev elem 0 q in
    let old_head = (q1.slabclass id).shadowq_head in
    let q2 = set_next elem old_head q1 in
    let q3 = if old_head == 0 then set_shadowq_tail elem id q2 else set_prev old_head elem q2 in
    inc_shadowq_size id (set_shadowq_head elem id q3)

-- The queue of a class holds exactly the items `xs`, the one used last first.
pub record IsLinked (q : Queues) (id : ℕ) (xs : List ℕ) : Type 0 where
  pub head : (q.slabclass id).shadowq_head ≡ first xs
  pub tail : (q.slabclass id).shadowq_tail ≡ last_from 0 xs
  pub size : (q.slabclass id).shadowq_size ≡ length xs % 4294967296
  pub distinct : unique xs ≡ true
  pub real : mem 0 xs ≡ false
  pub linked :
      (a : ℕ)
      → mem a xs ≡ true
      → ((q.items a).next ≡ next_of a xs)
        × ((q.items a).prev ≡ prev_from 0 a xs)
        × ((q.items a).slabs_clsid ≡ id)

-- An item that is in no queue goes to the head of the queue of its class.
pub insert_shadowq_item_locked-IsLinked :
    (q : Queues) (xs : List ℕ) (x : ℕ)
    → IsLinked q (q.items x).slabs_clsid xs
    → x ≢ 0
    → mem x xs ≡ false
    → IsLinked (insert_shadowq_item_locked x q) (q.items x).slabs_clsid (x ∷ xs)
unfolding insert_shadowq_item_locked mem unique first last_from next_of prev_from
insert_shadowq_item_locked-IsLinked q [] x l real new = record {
  head = ground (arith, l.head);
  tail = ground (arith, l.head);
  size = ground (arith, l.size);
  distinct = ground (arith, l.distinct);
  real = ground (arith, l.real);
  linked = λ a m. (ground (arith, l.head), ground (arith, l.head), ground (arith, l.head));
}
insert_shadowq_item_locked-IsLinked q (y ∷ ys) x l real new = record {
  head = ground (arith, l.head);
  tail = ground (arith, l.head, l.real, l.tail);
  size = ground (arith, l.size);
  distinct = ground (arith, l.distinct);
  real = ground (arith, l.real);
  linked = λ a m. (
    ground (arith, l.head, l.real, l.linked a),
    ground (arith, l.head, l.real, l.linked a),
    ground (arith, l.head, l.real, l.linked a),
  );
}

-- what the neighbours of the removed item become
removed_links :
    (q : Queues) (x a : ℕ)
    → a ≢ x
    → (((remove_shadowq_item_locked x q).items a).next ≡ (
        if not ((q.items x).prev == 0) && a == (q.items x).prev
        then (q.items x).next
        else (q.items a).next))
      × (((remove_shadowq_item_locked x q).items a).prev ≡ (
          if not ((q.items x).next == 0) && a == (q.items x).next
          then (q.items x).prev
          else (q.items a).prev))
      × (((remove_shadowq_item_locked x q).items a).slabs_clsid ≡ (q.items a).slabs_clsid)
unfolding remove_shadowq_item_locked
removed_links q x a d = (ground arith, ground arith, ground arith)

removed_linked :
    (q : Queues) (xs : List ℕ) (x id a : ℕ)
    → IsLinked q id xs
    → mem x xs ≡ true
    → mem a (del x xs) ≡ true
    → (((remove_shadowq_item_locked x q).items a).next ≡ next_of a (del x xs))
      × (((remove_shadowq_item_locked x q).items a).prev ≡ prev_from 0 a (del x xs))
      × (((remove_shadowq_item_locked x q).items a).slabs_clsid ≡ id)
removed_linked q xs x id a l m k =
    let u = l.distinct in
    let other : (mem a xs ≡ true) × (a ≢ x) = ground (arith, mem-del a x xs u) in
    let (k', d) = other in
    let (next, prev, clsid) = l.linked x m in
    let (next_a, prev_a, clsid_a) = l.linked a k' in
    let (n, p, c) = removed_links q x a d in
    let zero_first : 0 ≢ x = ground (arith, l.real) in
    let zero_other : 0 ≢ a = ground (arith, l.real) in
    (
      ground (
        arith,
        n,
        next,
        prev,
        next_a,
        next-del a x xs u m l.real d,
        next-prev 0 a x xs u k' m l.real l.real,
        zero_other,
      ),
      ground (
        arith,
        p,
        next,
        prev,
        prev_a,
        prev-del 0 a x xs u m l.real d zero_first,
        next-prev 0 x a xs u m k' l.real l.real,
        zero_other,
      ),
      c ∙ clsid_a,
    )

-- An item of a queue is taken out of it, wherever it stands, and the others keep their order.
pub remove_shadowq_item_locked-IsLinked :
    (q : Queues) (xs : List ℕ) (x id : ℕ)
    → IsLinked q id xs
    → mem x xs ≡ true
    → IsLinked (remove_shadowq_item_locked x q) id (del x xs)
unfolding remove_shadowq_item_locked
remove_shadowq_item_locked-IsLinked q xs x id l m =
    let (next, prev, clsid) = l.linked x m in
    let real : x ≢ 0 = ground (arith, l.real) in
    let zero_first : 0 ≢ x = λ e. real (sym e) in
    record {
      head = ground (arith, l.head, next, clsid, first-del x xs, l.real);
      tail = ground (arith, l.tail, prev, clsid, last-del 0 x xs, l.distinct, zero_first);
      size = ground (arith, l.size, clsid, length-del x xs);
      distinct = unique-del x xs l.distinct;
      real = ground (arith, l.real, l.distinct, mem-del 0 x xs);
      linked = λ a k. removed_linked q xs x id a l m k;
    }
