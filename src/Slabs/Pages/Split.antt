-- ===== src/Slabs/Pages/Split.antt =====
-- split_slab_page_into_freelist and the page lists of src/slabs.c: what a new page adds.
use mem_exchange.Prelude.{
  ℕ, zero, suc, ◌+◌, ◌*◌, ◌%◌, ◌≤◌, ◌<◌, ◌≡◌, ◌≢◌, refl, sym, ap, ◌∙◌, subst, fun_ext, true, false,
  List, ◌∷◌, ◌==◌, arith, Bool-cases, inl, inr,
}
use mem_exchange.Slabs.State.{Pool, put_item, zero_page, is_class, at}
use mem_exchange.Slabs.FreeList.{push_free, unrequest, IsFree}
use mem_exchange.Slabs.FreeList.Lists.{FreeLists, push_free-elsewhere}
use mem_exchange.Slabs.Free.{do_slabs_free}
use mem_exchange.Slabs.Free.Chunked.{do_slabs_free-plain}
use mem_exchange.Slabs.Pages.{Settings, split_slab_page_into_freelist, list_page}
use mem_exchange.Shadow.Order.{mem}

-- the list `xs` after n chunks from `ptr` on were put before it, one by one
abbrev pub chunks : ℕ → ℕ → ℕ → List ℕ → List ℕ
chunks zero ptr size xs = xs
chunks (suc n) ptr size xs = chunks n (ptr + size) size (ptr ∷ xs)

-- no free chunk is among the addresses from `lo` to `hi`
abbrev pub Clear : (ℕ → List ℕ) → ℕ → ℕ → Type 0
Clear ls lo hi = (a j : ℕ) → lo ≤ a → a < hi → mem a (ls j) ≡ false

-- Items that differ in other fields only leave the lists as they are.
same_links :
    (p q : Pool) (ls : ℕ → List ℕ)
    → q.slabclass ≡ p.slabclass
    → ((a j : ℕ)
        → mem a (ls j) ≡ true
        → ((q.items a).next ≡ (p.items a).next)
          × (((q.items a).prev ≡ (p.items a).prev)
              × (((q.items a).it_flags ≡ (p.items a).it_flags)
                  × ((q.items a).slabs_clsid ≡ (p.items a).slabs_clsid))))
    → FreeLists p ls
    → FreeLists q ls
same_links p q ls c h f = record {
  lists = λ j.
      let l : IsFree p j (ls j) = f.lists j in
      record {
        slots = ap (λ k. (k j).slots) c ∙ l.slots;
        count = ap (λ k. (k j).sl_curr) c ∙ l.count;
        distinct = l.distinct;
        real = l.real;
        linked = λ a m.
            let (n, (b, (g, i))) = h a j m in
            let (n', (b', (g', i'))) = l.linked a m in (n ∙ n', (b ∙ b', (g ∙ g', i ∙ i')));
      };
  disjoint = f.disjoint;
}

page_id-FreeLists :
    (p : Pool) (ls : ℕ → List ℕ) (x v : ℕ)
    → FreeLists p ls
    → FreeLists (put_item x (record (p.items x) { page_id = v }) p) ls
page_id-FreeLists p ls x v f =
    same_links p _ ls refl (λ a j m. (ground arith, (ground arith, (ground arith, ground arith)))) f

pub zero_page-FreeLists :
    (p : Pool) (ls : ℕ → List ℕ) (ptr len : ℕ)
    → Clear ls ptr (ptr + len)
    → FreeLists p ls
    → FreeLists (zero_page ptr len p) ls
unfolding zero_page
zero_page-FreeLists p ls ptr len clear f =
    same_links p _ ls refl
      (λ a j m. (
        ground (arith, clear a j),
        (ground (arith, clear a j), (ground (arith, clear a j), ground (arith, clear a j))),
      ))
      f

-- The lists and the item headers do not know the arrays of pages.
pub list_page-FreeLists :
    (p : Pool) (ls : ℕ → List ℕ) (id ptr rkey conn : ℕ)
    → FreeLists p ls
    → FreeLists (list_page id ptr rkey conn p) ls
unfolding list_page
list_page-FreeLists p ls id ptr rkey conn f = record {
  lists = λ j. record {
    slots = ground (arith, (f.lists j).slots);
    count = ground (arith, (f.lists j).count);
    distinct = (f.lists j).distinct;
    real = (f.lists j).real;
    linked = (f.lists j).linked;
  };
  disjoint = f.disjoint;
}

-- one round of the split
next_chunk : Settings → ℕ → ℕ → Pool → Pool
next_chunk o ptr id p =
    let p1 = do_slabs_free o.use_cas 0 ptr 0 id p in
    let c = p1.slabclass id in
    put_item ptr (record (p1.items ptr) { page_id = (c.slabs + 4294967295) % 65536 }) p1

next_chunk-class :
    (o : Settings) (ptr id : ℕ) (p : Pool)
    → (p.items ptr).it_flags.chunked ≡ false
    → (((next_chunk o ptr id p).slabclass id).size ≡ (p.slabclass id).size)
      × (((next_chunk o ptr id p).power_largest ≡ p.power_largest)
          × (((next_chunk o ptr id p).slabclass id).slabs ≡ (p.slabclass id).slabs))
unfolding next_chunk do_slabs_free push_free unrequest
next_chunk-class o ptr id p plain = rw plain (ground arith, (ground arith, ground arith))

next_chunk-items :
    (o : Settings) (ptr id a : ℕ) (p : Pool) (ls : ℕ → List ℕ)
    → (p.items ptr).it_flags.chunked ≡ false
    → FreeLists p ls
    → mem a (ls id) ≡ false
    → a ≢ 0
    → a ≢ ptr
    → (next_chunk o ptr id p).items a ≡ p.items a
unfolding next_chunk do_slabs_free unrequest
next_chunk-items o ptr id a p ls plain f out real d =
    ground (arith, plain, push_free-elsewhere p ls id ptr a f out real d)

next_chunk-FreeLists :
    (o : Settings) (ptr id : ℕ) (p : Pool) (ls : ℕ → List ℕ)
    → is_class id p ≡ true
    → (p.items ptr).it_flags.chunked ≡ false
    → ptr ≢ 0
    → ((j : ℕ) → mem ptr (ls j) ≡ false)
    → FreeLists p ls
    → FreeLists (next_chunk o ptr id p) (at ls id (ptr ∷ ls id))
unfolding next_chunk
next_chunk-FreeLists o ptr id p ls ok plain real new f =
    page_id-FreeLists _ _ ptr _ (do_slabs_free-plain o.use_cas 0 ptr 0 id p ls ok plain real new f)

pub at-same : (ls : ℕ → List ℕ) (id : ℕ) → at ls id (ls id) ≡ ls
at-same ls id = fun_ext λ j. elim (Bool-cases (j == id)) [
  | inl e ↦ let same : j ≡ id = ground arith in simp e (ap ls (sym same))
  | inr e ↦ simp e refl
]

pub at-twice : (ls : ℕ → List ℕ) (id : ℕ) (xs ys : List ℕ) → at (at ls id xs) id ys ≡ at ls id ys
at-twice ls id xs ys =
    fun_ext λ j. elim (Bool-cases (j == id)) [ inl e ↦ simp e refl | inr e ↦ simp e refl ]

pub at-hit : (ls : ℕ → List ℕ) (id : ℕ) (xs : List ℕ) → at ls id xs id ≡ xs
at-hit ls id xs = ground arith

-- Every chunk of the page becomes free in its class, the last one first.
pub split_slab_page_into_freelist-FreeLists :
    (o : Settings) (n ptr id size : ℕ) (p : Pool) (ls : ℕ → List ℕ)
    → is_class id p ≡ true
    → 0 < ptr
    → (p.slabclass id).size ≡ size
    → 0 < size
    → Clear ls ptr (ptr + n * size)
    → ((a : ℕ) → ptr ≤ a → a < ptr + n * size → (p.items a).it_flags.chunked ≡ false)
    → FreeLists p ls
    → FreeLists (split_slab_page_into_freelist o n ptr id p) (at ls id (chunks n ptr size (ls id)))
unfolding split_slab_page_into_freelist next_chunk mem
split_slab_page_into_freelist-FreeLists o zero ptr id size p ls ok real is pos clear plain f =
    rw (at-same ls id) f
split_slab_page_into_freelist-FreeLists o (suc n) ptr id size p ls ok real is pos clear plain f =
    subst (λ l. FreeLists (split_slab_page_into_freelist o (suc n) ptr id p) l) lists
      (subst
        (λ k.
          FreeLists (split_slab_page_into_freelist o n (ptr + k) id p2)
            (at ls1 id (chunks n (ptr + size) size (ls1 id))))
        same_size
        (split_slab_page_into_freelist-FreeLists o n (ptr + size) id size p2 ls1
          (ground (arith, (next_chunk-class o ptr id p here).1)) (omega arith) (same2 ∙ is) pos
          clear' plain'
          (next_chunk-FreeLists o ptr id p ls ok here (ground arith)
            (λ j. clear ptr j (omega arith) (omega arith)) f)))
  where
    here : (p.items ptr).it_flags.chunked ≡ false
    here = plain ptr (omega arith) (omega arith)

    p2 : Pool
    p2 = next_chunk o ptr id p

    ls1 : ℕ → List ℕ
    ls1 = at ls id (ptr ∷ ls id)

    same2 : (p2.slabclass id).size ≡ (p.slabclass id).size
    same2 = (next_chunk-class o ptr id p here).0

    same_size : size ≡ ((do_slabs_free o.use_cas 0 ptr 0 id p).slabclass id).size
    same_size = sym (same2 ∙ is)

    clear' : Clear ls1 (ptr + size) (ptr + size + n * size)
    clear' a j lo hi =
        ground
          (arith, clear a j (omega arith) (omega arith), clear a id (omega arith) (omega arith))

    plain' :
        (a : ℕ) → ptr + size ≤ a → a < ptr + size + n * size → (p2.items a).it_flags.chunked ≡ false
    plain' a lo hi =
        ap (λ e. e.it_flags.chunked)
          (next_chunk-items o ptr id a p ls here f (clear a id (omega arith) (omega arith))
            (ground arith) (ground arith))
        ∙ plain a (omega arith) (omega arith)

    lists :
        at ls1 id (chunks n (ptr + size) size (ls1 id)) ≡ at ls id (chunks (suc n) ptr size (ls id))
    lists = rw (at-twice ls id, at-hit ls id) refl
