-- ===== src/Tests/ShadowTests.antt =====
-- The shadow queues and the reference counts of src/shadows.c at concrete items.
use mem_exchange.Prelude.{ℕ, refl, false, [], ◌∷◌, arith}
use mem_exchange.Shadow.Order.{mem, unique, first, last_from, del}
use mem_exchange.Shadow.Queue.{
  ShadowItem, Queues, insert_shadowq_item_locked, IsLinked, insert_shadowq_item_locked-IsLinked,
}
use mem_exchange.Shadow.Bound.{enqueue, enqueue-IsLinked}

abbrev item : ℕ → ShadowItem
item a = record {
  next = 0;
  prev = 0;
  slabs_clsid = 3;
  key = a ∷ [];
  tree_node = 0;
  refcnt = 1;
  dead = false;
}

-- empty queues of at most two items
abbrev empty : Queues
empty = record {
  items = item;
  slabclass =
      λ c. record { shadowq_head = 0; shadowq_tail = 0; shadowq_size = 0; shadowq_max_items = 2 };
}

empty-IsLinked : IsLinked empty 3 []
unfolding mem unique first last_from
empty-IsLinked = record {
  head = refl;
  tail = refl;
  size = refl;
  distinct = refl;
  real = refl;
  linked = λ a m. cc;
}

insert_shadowq_item_locked-IsLinked_example :
    IsLinked (insert_shadowq_item_locked 7 empty) 3 (7 ∷ [])
unfolding mem
insert_shadowq_item_locked-IsLinked_example =
    insert_shadowq_item_locked-IsLinked empty [] 7 empty-IsLinked (omega arith) refl

abbrev one : Queues
one = insert_shadowq_item_locked 7 empty

abbrev two : Queues
two = insert_shadowq_item_locked 8 one

two-IsLinked : IsLinked two 3 (8 ∷ 7 ∷ [])
unfolding mem insert_shadowq_item_locked
two-IsLinked =
    insert_shadowq_item_locked-IsLinked one (7 ∷ []) 8 insert_shadowq_item_locked-IsLinked_example
      (omega arith) refl

-- the third item drives out the first
enqueue-IsLinked_example : IsLinked (enqueue 9 two) 3 (9 ∷ 8 ∷ [])
unfolding mem del last_from insert_shadowq_item_locked
enqueue-IsLinked_example =
    enqueue-IsLinked two (8 ∷ 7 ∷ []) 9 two-IsLinked (omega arith) refl (omega arith) refl
