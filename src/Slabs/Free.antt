-- ===== src/Slabs/Free.antt =====
-- do_slabs_free and do_slabs_free_chunked of src/slabs.c: a chunk, or a chunked item with all its
-- chunks, goes back to the free lists. The lines run under `slabs_lock`.
pub mod Chunks
pub mod Chunked
use mem_exchange.Prelude.{
  ℕ, zero, suc, ◌+◌, ◌≤◌, ◌≡◌, ◌≢◌, refl, Bool, true, false, List, [], ◌∷◌, ◌==◌, arith,
  if◌then◌else◌, length,
}
use mem_exchange.Slabs.State.{
  Item, ItFlags, SlabClass, Pool, item_slabbed, put_item, put_class, is_class, at,
}
use mem_exchange.Slabs.FreeList.{push_free, unrequest}
use mem_exchange.Slabs.FreeList.Lists.{FreeLists, push_free-FreeLists, unrequest-FreeLists}
use mem_exchange.Shadow.Order.{mem, unique, first, next_of}

-- sizeof(item), which is also the offset of its `data`, and sizeof(item_chunk)
abbrev pub sizeof_item : ℕ
sizeof_item = 56

abbrev pub sizeof_item_chunk : ℕ
sizeof_item_chunk = 48

-- ITEM_data
abbrev pub item_data : ℕ → Item → ℕ
item_data a e = a + sizeof_item + e.nkey + 1 + e.nsuffix + (if e.it_flags.cas then 8 else 0)

-- The loop over the chunks of an item; `n` bounds its rounds.
unfoldable pub free_chunks : ℕ → ℕ → Pool → Pool
free_chunks zero chunk p = p
free_chunks (suc n) chunk p =
    let e = p.items chunk in
    let rest =
      free_chunks n e.next
        (unrequest e.slabs_clsid (e.time + sizeof_item_chunk) (push_free chunk e.slabs_clsid p)) in
    if chunk == 0 then p else rest

-- `use_cas` is the setting.
unfoldable pub do_slabs_free_chunked : Bool → ℕ → ℕ → Pool → Pool
do_slabs_free_chunked use_cas n it p =
    let e = p.items it in
    let head = item_data it e in
    let id = (p.items head).nsuffix in
    let next = (p.items head).next in
    let p1 = if next == 0 then p else put_item next (record (p.items next) { prev = 0 }) p in
    let p2 = push_free it id p1 in
    let p3 = unrequest id (e.nkey + 1 + e.nsuffix + sizeof_item + sizeof_item_chunk) p2 in
    let p4 = if use_cas then unrequest id 8 p3 else p3 in free_chunks n next p4

unfoldable pub do_slabs_free : Bool → ℕ → ℕ → ℕ → ℕ → Pool → Pool
do_slabs_free use_cas n it size id p =
    let chunked = do_slabs_free_chunked use_cas n it p in
    let plain = unrequest id size (push_free it id p) in
    if is_class id p then (if (p.items it).it_flags.chunked then chunked else plain) else p

-- The chunks `xs` in the order of their `next` pointers, which ends with NULL.
pub record IsChain (p : Pool) (chunk : ℕ) (xs : List ℕ) : Type 0 where
  pub start : chunk ≡ first xs
  pub distinct : unique xs ≡ true
  pub real : mem 0 xs ≡ false
  pub linked : (a : ℕ) → mem a xs ≡ true → (p.items a).next ≡ next_of a xs

-- The free lists after the chunks `xs` went each to its own class.
abbrev pub freed : (ℕ → ℕ) → List ℕ → (ℕ → List ℕ) → ℕ → List ℕ
freed cls [] ls = ls
freed cls (x ∷ xs) ls = freed cls xs (at ls (cls x) (x ∷ ls (cls x)))
