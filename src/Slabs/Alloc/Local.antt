-- ===== src/Slabs/Alloc/Local.antt =====
-- do_slabs_alloc of src/slabs.c as its callers see it: which chunk they get and when they get none.
use mem_exchange.Prelude.{
  ℕ, ◌^◌, ◌<◌, ◌≡◌, ◌≢◌, refl, subst, Bool, true, false, List, ◌∷◌, ◌==◌, arith, length, some,
  add64,
}
use mem_exchange.Slabs.State.{Pool, is_class, at}
use mem_exchange.Slabs.FreeList.{pop_free, IsFree}
use mem_exchange.Slabs.FreeList.Lists.{FreeLists}
use mem_exchange.Slabs.FreeList.Pops.{pop_free-FreeLists, pop_free-chunk}
use mem_exchange.Slabs.Pages.{Settings, Slabs, Outside}
use mem_exchange.Slabs.Free.{do_slabs_free}
use mem_exchange.Slabs.Free.Chunked.{do_slabs_free-plain}
use mem_exchange.Slabs.Pages.Arrays.{do_slabs_free-SamePages}
use mem_exchange.Slabs.Pages.Split.{at-same, at-twice, at-hit}
use mem_exchange.Slabs.Alloc.{take_chunk, do_slabs_alloc, request}
use mem_exchange.Shadow.Order.{mem}

-- the state of a class that has a free chunk
sl_curr-some :
    (p : Pool) (ls : ℕ → List ℕ) (id x : ℕ) (xs : List ℕ)
    → FreeLists p ls
    → ls id ≡ x ∷ xs
    → length (x ∷ xs) < 2 ^ 32
    → (p.slabclass id).sl_curr ≢ 0
sl_curr-some p ls id x xs f is small =
    let l : IsFree p id (x ∷ xs) = subst (λ k. IsFree p id k) is (f.lists id) in
    ground (arith, l.count)

request-FreeLists :
    (p : Pool) (ls : ℕ → List ℕ) (id n : ℕ) → FreeLists p ls → FreeLists (request id n p) ls
request-FreeLists p ls id n f = record {
  lists = λ j. record {
    slots = ground (arith, (f.lists j).slots);
    count = ground (arith, (f.lists j).count);
    distinct = (f.lists j).distinct;
    real = (f.lists j).real;
    linked = (f.lists j).linked;
  };
  disjoint = f.disjoint;
}

alloc_local :
    (o : Settings) (out : Outside) (tmp size id : ℕ) (no_newpage : Bool) (s : Slabs)
    → is_class id s.pool ≡ true
    → (s.pool.slabclass id).sl_curr ≢ 0
    → do_slabs_alloc o out tmp size id no_newpage s ≡ (
      (s.pool.slabclass id).slots,
      (
        some (s.pool.slabclass id).requested,
        record s { pool = request id size (pop_free id s.pool) },
      ),
    )
unfolding do_slabs_alloc take_chunk
alloc_local o out tmp size id no_newpage s ok there =
    let full : ((s.pool.slabclass id).sl_curr == 0) ≡ false = ground arith in simp (ok, full) refl

pop-requested :
    (p : Pool) (id : ℕ) → ((pop_free id p).slabclass id).requested ≡ (p.slabclass id).requested
unfolding pop_free
pop-requested p id = ground arith

-- With a chunk free in a class, the one freed last is given, whatever the flags and the outside: it
-- has one reference, is no longer slabbed, and is in no free list any more.
pub do_slabs_alloc-first :
    (o : Settings) (out : Outside) (tmp size id : ℕ) (no_newpage : Bool) (s : Slabs)
    (ls : ℕ → List ℕ) (x : ℕ) (xs : List ℕ)
    → is_class id s.pool ≡ true
    → FreeLists s.pool ls
    → ls id ≡ x ∷ xs
    → length (x ∷ xs) < 2 ^ 32
    → let (ret, (total, s')) = do_slabs_alloc o out tmp size id no_newpage s in
      (ret ≡ x)
      × (FreeLists s'.pool (at ls id xs)
          × (((s'.pool.items x).refcount ≡ 1)
              × (((s'.pool.items x).it_flags.slabbed ≡ false)
                  × ((s'.pool.slabclass id).requested
                      ≡ add64 (s.pool.slabclass id).requested size))))
do_slabs_alloc-first o out tmp size id no_newpage s ls x xs ok f is small =
    let there : (s.pool.slabclass id).sl_curr ≢ 0 = sl_curr-some s.pool ls id x xs f is small in
    let (slot, (refs, flag)) = pop_free-chunk s.pool ls id x xs f is in
    rw (alloc_local o out tmp size id no_newpage s ok there) (
      slot,
      (
        request-FreeLists _ _ id size (pop_free-FreeLists s.pool ls id x xs f is),
        (refs, (flag, ground (arith, pop-requested s.pool id))),
      ),
    )

-- What is freed last is allocated first: after do_slabs_free of an item that is not chunked,
-- do_slabs_alloc for the class gives the same item again, and the free lists are as they were.
pub do_slabs_alloc-free :
    (o : Settings) (out : Outside) (tmp size it n id : ℕ) (no_newpage : Bool) (s : Slabs)
    (ls : ℕ → List ℕ)
    → is_class id s.pool ≡ true
    → (s.pool.items it).it_flags.chunked ≡ false
    → it ≢ 0
    → ((j : ℕ) → mem it (ls j) ≡ false)
    → length (it ∷ ls id) < 2 ^ 32
    → FreeLists s.pool ls
    → let freed = record s { pool = do_slabs_free o.use_cas n it size id s.pool } in
      let (ret, (total, s')) = do_slabs_alloc o out tmp size id no_newpage freed in
      (ret ≡ it) × FreeLists s'.pool ls
do_slabs_alloc-free o out tmp size it n id no_newpage s ls ok plain real new small f =
    let freed = record s { pool = do_slabs_free o.use_cas n it size id s.pool } in
    let f' = do_slabs_free-plain o.use_cas n it size id s.pool ls ok plain real new f in
    let ls1 = at ls id (it ∷ ls id) in
    let ok' : is_class id freed.pool ≡ true =
      rw (do_slabs_free-SamePages o.use_cas n it size id s.pool).power ok in
    let (ret, (lists, rest)) =
      do_slabs_alloc-first o out tmp size id no_newpage freed ls1 it (ls id) ok' f' (at-hit ls id _)
        small in
    (ret, rw (at-twice ls id (it ∷ ls id) (ls id), at-same ls id) at lists)
