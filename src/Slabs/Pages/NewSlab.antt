-- ===== src/Slabs/Pages/NewSlab.antt =====
-- do_slabs_newslab of src/slabs.c: a class gets a page, or nothing that its clients see changes.
use mem_exchange.Prelude.{
  ℕ, ◌+◌, ◌*◌, ◌/◌, ◌≤◌, ◌<◌, ◌≡◌, ◌≢◌, ◌⊎◌, refl, ap, ◌∙◌, subst, Bool, true, false, List, arith,
  add32, inl, inr,
}
use native.Mathlib.Nat.{div-mul-le_self}
use mem_exchange.Slabs.State.{Pool, zero_page, is_class, at}
use mem_exchange.Slabs.FreeList.Lists.{FreeLists}
use mem_exchange.Slabs.Pages.{
  Settings, Slabs, Outside, list_page, add_page, grow_slab_list, get_page_from_global_pool,
  memory_allocate, refresh_limit, with_page, page_len, refreshed, find_page, do_slabs_newslab,
}
use mem_exchange.Slabs.Pages.Arrays.{split-SamePages}
use mem_exchange.Slabs.Pages.Split.{
  chunks, Clear, zero_page-FreeLists, list_page-FreeLists, split_slab_page_into_freelist-FreeLists,
}

-- the pool when the page is at hand: the array of pages has room, and the page pool gave what it had
unfoldable pub ready : Outside → ℕ → Pool → Pool
ready out id p = (get_page_from_global_pool (grow_slab_list out.realloc_ok id p).1).1

memory_allocate-pool :
    (out : Outside) (n : ℕ) (s : Slabs) → (memory_allocate out n s).1.pool ≡ s.pool
unfolding memory_allocate refresh_limit
memory_allocate-pool out n s = ground arith

find_page-pool :
    (out : Outside) (n : ℕ) (s : Slabs)
    → (find_page out n s).1.pool ≡ (get_page_from_global_pool s.pool).1
unfolding find_page
find_page-pool out n s =
    ground
      (arith, memory_allocate-pool out n (record s { pool = (get_page_from_global_pool s.pool).1 }))

refreshed-pool : (out : Outside) (s : Slabs) → (refreshed out s).pool ≡ s.pool
unfolding refreshed refresh_limit
refreshed-pool out s = ground arith

-- the state in which a page is looked for
pub grown : Outside → ℕ → Slabs → Slabs
grown out id s = record (refreshed out s) {
  pool = (grow_slab_list out.realloc_ok id (refreshed out s).pool).1;
}

-- the page that a successful call uses
unfoldable pub new_page : Settings → Outside → ℕ → Slabs → ℕ
new_page o out id s = (find_page out (page_len o (s.pool.slabclass id)) (grown out id s)).0

newslab-page :
    (o : Settings) (out : Outside) (id : ℕ) (s s' : Slabs)
    → do_slabs_newslab o out id s ≡ (true, s')
    → (s'.pool
        ≡ add_page o
            (new_page o out id s)
            (page_len o (s.pool.slabclass id))
            id
            (ready out id s.pool))
      × (new_page o out id s ≢ 0)
unfolding do_slabs_newslab with_page new_page ready grown
newslab-page o out id s s' run =
    let found = find_page-pool out (page_len o (s.pool.slabclass id)) (grown out id s) in
    let e = refreshed-pool out s in (ground (arith, found, e), ground arith)

-- The pool that is ready for the page of a class other than the page pool.
ready-FreeLists :
    (out : Outside) (id : ℕ) (p : Pool) (ls : ℕ → List ℕ)
    → FreeLists p ls
    → FreeLists (ready out id p) ls
unfolding ready grow_slab_list get_page_from_global_pool
ready-FreeLists out id p ls f = record {
  lists = λ j. record {
    slots = ground (arith, (f.lists j).slots);
    count = ground (arith, (f.lists j).count);
    distinct = (f.lists j).distinct;
    real = (f.lists j).real;
    linked = λ a m. rw same ((f.lists j).linked a m);
  };
  disjoint = f.disjoint;
}
  where
    same : (ready out id p).items ≡ p.items
    same = ground arith

ready-class :
    (out : Outside) (id : ℕ) (p : Pool)
    → is_class id p ≡ true
    → ((ready out id p).power_largest ≡ p.power_largest)
      × ((((ready out id p).slabclass id).size ≡ (p.slabclass id).size)
          × ((((ready out id p).slabclass id).slabs ≡ (p.slabclass id).slabs)
              × ((((ready out id p).slabclass id).slab_list ≡ (p.slabclass id).slab_list))))
unfolding ready grow_slab_list get_page_from_global_pool
ready-class out id p ok = (ground arith, (ground arith, (ground arith, ground arith)))

-- A page in a class's lists: its chunks are free, and it is the last of the pages.
add_page-FreeLists :
    (o : Settings) (ptr len id : ℕ) (p : Pool) (ls : ℕ → List ℕ)
    → is_class id p ≡ true
    → 0 < ptr
    → 0 < (p.slabclass id).size
    → Clear ls ptr (ptr + len)
    → FreeLists p ls
    → FreeLists
        (add_page o ptr len id p)
        (at ls id (chunks (len / (p.slabclass id).size) ptr (p.slabclass id).size (ls id)))
unfolding add_page zero_page
add_page-FreeLists o ptr len id p ls ok real pos clear f = list_page-FreeLists _ _ id ptr 0 0 (
    split_slab_page_into_freelist-FreeLists o n ptr id size (zero_page ptr len p) ls ok real refl
      pos (λ a j lo hi. clear a j lo (omega (arith, fits))) (λ a lo hi. ground (arith, fits))
      (zero_page-FreeLists p ls ptr len clear f))
  where
    size : ℕ
    size = (p.slabclass id).size

    n : ℕ
    n = len / size

    fits : n * size ≤ len
    fits = div-mul-le_self len size

add_page-class :
    (o : Settings) (ptr len id : ℕ) (p : Pool)
    → (((add_page o ptr len id p).slabclass id).slabs ≡ add32 (p.slabclass id).slabs 1)
      × (((add_page o ptr len id p).slabclass id).slab_list (p.slabclass id).slabs ≡ ptr)
unfolding add_page list_page zero_page
add_page-class o ptr len id p =
    let same = split-SamePages o (len / (p.slabclass id).size) ptr id (zero_page ptr len p) in
    (ground (arith, same.slabs id), ground (arith, same.slabs id))

-- A call that fails gives no page away and frees nothing.
newslab-fails :
    (o : Settings) (out : Outside) (id : ℕ) (s s' : Slabs)
    → do_slabs_newslab o out id s ≡ (false, s')
    → (s'.pool ≡ s.pool)
      ⊎ ((s'.pool ≡ (grow_slab_list out.realloc_ok id s.pool).1) ⊎ (s'.pool ≡ ready out id s.pool))
unfolding do_slabs_newslab with_page new_page ready grown
newslab-fails o out id s s' run =
    let found = find_page-pool out (page_len o (s.pool.slabclass id)) (grown out id s) in
    let e = refreshed-pool out s in ground (arith, found, e)

grow-FreeLists :
    (ok : Bool) (id : ℕ) (p : Pool) (ls : ℕ → List ℕ)
    → FreeLists p ls
    → FreeLists (grow_slab_list ok id p).1 ls
unfolding grow_slab_list
grow-FreeLists ok id p ls f = record {
  lists = λ j. record {
    slots = ground (arith, (f.lists j).slots);
    count = ground (arith, (f.lists j).count);
    distinct = (f.lists j).distinct;
    real = (f.lists j).real;
    linked = λ a m. rw same ((f.lists j).linked a m);
  };
  disjoint = f.disjoint;
}
  where
    same : (grow_slab_list ok id p).1.items ≡ p.items
    same = ground arith

-- A call that fails leaves every free list as it was.
pub newslab-fails-FreeLists :
    (o : Settings) (out : Outside) (id : ℕ) (s s' : Slabs) (ls : ℕ → List ℕ)
    → do_slabs_newslab o out id s ≡ (false, s')
    → FreeLists s.pool ls
    → FreeLists s'.pool ls
newslab-fails-FreeLists o out id s s' ls run f = elim (newslab-fails o out id s s' run) [
  | inl e ↦ rw e f
  | inr (inl e) ↦ rw e (grow-FreeLists out.realloc_ok id s.pool ls f)
  | inr (inr e) ↦ rw e (ready-FreeLists out id s.pool ls f)
]

-- A call that succeeds puts the page last in the array of the class and all the chunks that fit into
-- it before the free ones, if no free chunk lies on the page.
pub do_slabs_newslab-FreeLists :
    (o : Settings) (out : Outside) (id : ℕ) (s s' : Slabs) (ls : ℕ → List ℕ)
    → do_slabs_newslab o out id s ≡ (true, s')
    → is_class id s.pool ≡ true
    → 0 < (s.pool.slabclass id).size
    → Clear ls (new_page o out id s) (new_page o out id s + page_len o (s.pool.slabclass id))
    → FreeLists s.pool ls
    → FreeLists s'.pool (
        at ls id (
          chunks
            (page_len o (s.pool.slabclass id) / (s.pool.slabclass id).size)
            (new_page o out id s)
            (s.pool.slabclass id).size
            (ls id)))
      × (((s'.pool.slabclass id).slabs ≡ add32 (s.pool.slabclass id).slabs 1)
          × ((s'.pool.slabclass id).slab_list (s.pool.slabclass id).slabs ≡ new_page o out id s))
do_slabs_newslab-FreeLists o out id s s' ls run ok pos clear f =
    let (is, real) = newslab-page o out id s s' run in
    let (power, (size, (slabs, list))) = ready-class out id s.pool ok in
    let page = new_page o out id s in
    let len = page_len o (s.pool.slabclass id) in
    let f' = ready-FreeLists out id s.pool ls f in
    let (count, last) = add_page-class o page len id (ready out id s.pool) in
    rw is (
      subst
          (λ k.
            FreeLists (add_page o page len id (ready out id s.pool))
              (at ls id (chunks (len / k) page k (ls id))))
          size
          (add_page-FreeLists o page len id (ready out id s.pool) ls (rw power ok) (ground arith)
            (rw size pos) clear f'),
      (
        count ∙ ap (λ k. add32 k 1) slabs,
        subst
            (λ k. ((add_page o page len id (ready out id s.pool)).slabclass id).slab_list k ≡ page)
            slabs last,
      ),
    )
