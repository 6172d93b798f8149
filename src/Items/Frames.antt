-- ===== src/Items/Frames.antt =====
-- What linking and unlinking an item in src/items.c leaves as it was.
use mem_exchange.Prelude.{ℕ, ◌≡◌, ◌≢◌, ◌⊎◌, false, List, arith}
use mem_exchange.Slabs.State.{Item}
use mem_exchange.Items.Lru.{Lru, do_item_link_q, do_item_unlinktail_q, do_item_unlink_q, IsQueue}
use mem_exchange.Shadow.Order.{mem}

-- an item with other links
abbrev pub relinked : ℕ → ℕ → Item → Item
relinked n p e = record e { next = n; prev = p }

pub item-link_q :
    (it a : ℕ) (q : Lru)
    → let q' = do_item_link_q it q in
      q'.items a ≡ relinked (q'.items a).next (q'.items a).prev (q.items a)
unfolding do_item_link_q
item-link_q it a q = ground arith

pub item-unlink_q :
    (it a : ℕ) (q : Lru)
    → let q' = do_item_unlink_q it q in
      q'.items a ≡ relinked (q'.items a).next (q'.items a).prev (q.items a)
unfolding do_item_unlink_q do_item_unlinktail_q
item-unlink_q it a q = ground arith

-- an address that is none of a queue's
abbrev pub Outside : ℕ → List ℕ → Type 0
Outside a xs = (a ≡ 0) ⊎ (mem a xs ≡ false)

-- The queues of the other classes stay as they are.
pub link_q-IsQueue_other :
    (q : Lru) (it id : ℕ) (xs : List ℕ)
    → IsQueue q id xs
    → id ≢ (q.items it).slabs_clsid
    → mem it xs ≡ false
    → Outside (q.heads (q.items it).slabs_clsid) xs
    → IsQueue (do_item_link_q it q) id xs
unfolding do_item_link_q
link_q-IsQueue_other q it id xs l other new head = record {
  head = ground (arith, l.head);
  tail = ground (arith, l.tail);
  distinct = l.distinct;
  real = l.real;
  linked =
      λ a m. (ground (arith, l.linked a), (ground (arith, l.linked a), ground (arith, l.linked a)));
}

pub unlink_q-IsQueue_other :
    (q : Lru) (it id : ℕ) (xs : List ℕ)
    → IsQueue q id xs
    → id ≢ (q.items it).slabs_clsid
    → Outside (q.items it).next xs
    → Outside (q.items it).prev xs
    → IsQueue (do_item_unlink_q it q) id xs
unfolding do_item_unlink_q do_item_unlinktail_q
unlink_q-IsQueue_other q it id xs l other next prev = record {
  head = ground (arith, l.head);
  tail = ground (arith, l.tail);
  distinct = l.distinct;
  real = l.real;
  linked =
      λ a m. (ground (arith, l.linked a), (ground (arith, l.linked a), ground (arith, l.linked a)));
}
