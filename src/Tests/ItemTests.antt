-- ===== src/Tests/ItemTests.antt =====
-- The queues of src/items.c at two items of class 3.
use mem_exchange.Prelude.{refl, true, [], ◌∷◌, arith}
use mem_exchange.Slabs.State.{zero_item, no_flags}
use mem_exchange.Items.Lru.{Lru, do_item_link_q, IsQueue}
use mem_exchange.Items.Links.{do_item_link_q-IsQueue}
use mem_exchange.Shadow.Order.{mem, unique, first, last_from}

abbrev empty : Lru
empty = record {
  items = λ a. record zero_item { slabs_clsid = 3; it_flags = record no_flags { linked = true } };
  heads = λ j. 0;
  tails = λ j. 0;
  sizes = λ j. 0;
  sizes_bytes = λ j. 0;
}

empty-IsQueue : IsQueue empty 3 []
unfolding mem unique first last_from
empty-IsQueue = record {
  head = refl;
  tail = refl;
  distinct = refl;
  real = refl;
  linked = λ a m. cc;
}

abbrev two : Lru
two = do_item_link_q 20 (do_item_link_q 10 empty)

two-IsQueue : IsQueue two 3 (20 ∷ 10 ∷ [])
unfolding do_item_link_q mem
two-IsQueue =
    do_item_link_q-IsQueue (do_item_link_q 10 empty) (10 ∷ []) 20
      (do_item_link_q-IsQueue empty [] 10 empty-IsQueue (omega arith) refl) (omega arith) refl
