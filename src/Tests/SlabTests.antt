-- ===== src/Tests/SlabTests.antt =====
-- The allocator of src/slabs.c at a small memory: classes of 64-byte chunks, four to a page.
use mem_exchange.Prelude.{
  ℕ, ◌+◌, ◌<◌, ◌≤◌, leb, ◌≡◌, ◌⊎◌, refl, true, false, none, some, List, [], ◌∷◌, arith,
}
use mem_exchange.Slabs.State.{Pool, zero_item, no_flags, at}
use mem_exchange.Slabs.FreeList.{IsFree, push_free, push_free-IsFree, slab_rebalance_cut_free}
use mem_exchange.Slabs.FreeList.Takes.{slab_rebalance_cut_free-IsFree}
use mem_exchange.Slabs.FreeList.Lists.{FreeLists}
use mem_exchange.Slabs.Free.{do_slabs_free, IsChain, freed}
use mem_exchange.Slabs.Free.Chunked.{do_slabs_free-chunked}
use mem_exchange.Slabs.Pages.{
  Settings, Slabs, Outside, do_slabs_newslab, release_pages, grow_slab_list,
  get_page_from_global_pool, memory_allocate, find_page, refreshed, limit_hit,
}
use mem_exchange.Slabs.Pages.Split.{chunks}
use mem_exchange.Slabs.Pages.NewSlab.{new_page, do_slabs_newslab-FreeLists}
use mem_exchange.Slabs.Pages.Release.{Released, release_pages-Released}
use mem_exchange.Slabs.Alloc.{do_slabs_alloc}
use mem_exchange.Slabs.Alloc.Local.{do_slabs_alloc-free}
use mem_exchange.Slabs.Classes.{slabs_clsid, zero_class, Factor, slabs_init}
use mem_exchange.Slabs.Classes.LeastFit.{IsLeastFit, slabs_clsid-IsLeastFit}
use mem_exchange.Slabs.Classes.Aligned.{Aligned, slabs_init-Aligned}
use mem_exchange.Shadow.Order.{mem, unique, first, next_of, del}

abbrev pub settings : Settings
settings = record {
  use_cas = true;
  slab_reassign = true;
  item_size_max = 256;
  slab_page_size = 256;
  slab_chunk_size_max = 128;
}

-- a chunked item at 100 whose header chunk at 160 names a second chunk at 1000
abbrev pub memory : Pool
memory = record {
  items =
      at
        (at
          (at (λ a. zero_item) 100
            (record zero_item { it_flags = record no_flags { chunked = true }; nkey = 3 }))
          160 (record zero_item { next = 1000; nsuffix = 1 }))
        1000
        (record zero_item {
          time = 64;
          slabs_clsid = 2;
          it_flags = record no_flags { chunk = true };
        });
  remotes = λ a. record { next = 0; prev = 0; slabs_clsid = 0; page_id = 0; address = 0 };
  slabclass = λ j. record zero_class { size = 64; perslab = 4; requested = 1000 };
  power_largest = 3;
}

abbrev no_lists : ℕ → List ℕ
no_lists j = []

memory-FreeLists : FreeLists memory no_lists
unfolding mem unique first
memory-FreeLists = record {
  lists =
      λ j. record { slots = refl; count = refl; distinct = refl; real = refl; linked = λ a m. cc };
  disjoint = λ a i j m. cc;
}

two-IsFree : IsFree (push_free 300 1 (push_free 200 1 memory)) 1 (300 ∷ 200 ∷ [])
unfolding mem
two-IsFree =
    push_free-IsFree _ 1 (200 ∷ []) 300
      (push_free-IsFree memory 1 [] 200 (memory-FreeLists.lists 1) (omega arith) refl) (omega arith)
      refl

slab_rebalance_cut_free-IsFree_example :
    IsFree
      (slab_rebalance_cut_free 1 200 (push_free 300 1 (push_free 200 1 memory)))
      1
      (del 200 (300 ∷ 200 ∷ []))
unfolding mem
slab_rebalance_cut_free-IsFree_example =
    slab_rebalance_cut_free-IsFree (push_free 300 1 (push_free 200 1 memory)) 1 200 (300 ∷ 200 ∷ [])
      two-IsFree refl

memory-IsChain : IsChain memory 1000 (1000 ∷ [])
unfolding mem unique first next_of
memory-IsChain = record { start = refl; distinct = refl; real = refl; linked = λ a m. ground arith }

do_slabs_free-chunked_example :
    FreeLists
      (do_slabs_free true 1 100 0 1 memory)
      (freed (λ a. (memory.items a).slabs_clsid) (1000 ∷ []) (at no_lists 1 (100 ∷ [])))
unfolding mem
do_slabs_free-chunked_example =
    do_slabs_free-chunked true 1 100 0 1 memory no_lists (1000 ∷ []) refl refl memory-FreeLists
      memory-IsChain (λ a j m. refl) (omega arith) refl (omega arith)

abbrev pub allocator : Slabs
allocator = record {
  pool = memory;
  maxbytes = 100000;
  mem_limit = 100000;
  mem_malloced = 0;
  mem_malloced_remote = 0;
  mem_limit_reached = false;
  mem_base = 0;
  mem_current = 0;
  mem_avail = 0;
  greedy = false;
}

abbrev outside : Outside
outside = record { realloc_ok = true; segment = 8192; sys_page = 4096; share = 0 }

newslab_runs :
    do_slabs_newslab settings outside 1 allocator
    ≡ (true, (do_slabs_newslab settings outside 1 allocator).1)
unfolding do_slabs_newslab refreshed grow_slab_list find_page get_page_from_global_pool
    memory_allocate limit_hit
newslab_runs = refl

do_slabs_newslab-FreeLists_example :
    FreeLists
      (do_slabs_newslab settings outside 1 allocator).1.pool
      (at no_lists 1 (chunks 4 (new_page settings outside 1 allocator) 64 []))
    × ((((do_slabs_newslab settings outside 1 allocator).1.pool.slabclass 1).slabs ≡ 1)
        × (((do_slabs_newslab settings outside 1 allocator).1.pool.slabclass 1).slab_list 0
            ≡ new_page settings outside 1 allocator))
unfolding mem
do_slabs_newslab-FreeLists_example =
    do_slabs_newslab-FreeLists settings outside 1 allocator
      (do_slabs_newslab settings outside 1 allocator).1 no_lists newslab_runs refl (omega arith)
      (λ a j lo hi. refl) memory-FreeLists

-- two pages in the page pool, and 600 bytes over a limit of 500
abbrev crowded : Slabs
crowded = record allocator {
  mem_limit = 500;
  mem_malloced = 1100;
  pool = record memory { slabclass = λ j. record zero_class { slabs = 2; slab_list = λ k. k + 1 } };
}

release_pages-Released_example : Released 256 crowded (release_pages 2 256 crowded)
release_pages-Released_example =
    release_pages-Released 2 256 crowded (omega arith) (λ k h e. omega arith) (omega arith)
      (omega arith)

do_slabs_alloc-free_example :
    let freed_item = record allocator { pool = do_slabs_free true 0 200 64 1 memory } in
    let (ret, (total, s')) = do_slabs_alloc settings outside 0 64 1 false freed_item in
    (ret ≡ 200) × FreeLists s'.pool no_lists
unfolding mem
do_slabs_alloc-free_example =
    do_slabs_alloc-free settings outside 0 64 200 0 1 false allocator no_lists refl refl
      (omega arith) (λ j. refl) (omega arith) memory-FreeLists

abbrev wanted : ℕ
wanted = 100

slabs_clsid-IsLeastFit_example :
    (((wanted ≡ 0) ⊎ (256 < wanted)) × (slabs_clsid settings wanted memory ≡ 0))
    ⊎ ((0 < wanted)
        × ((wanted ≤ 256) × IsLeastFit memory wanted 1 (slabs_clsid settings wanted memory)))
slabs_clsid-IsLeastFit_example = slabs_clsid-IsLeastFit settings wanted memory (omega arith)

-- sizes that double, up to half a page
abbrev doubling : Factor
doubling = record { at_most = λ n. leb 64 n; times = λ n. n + n }

slabs_init-Aligned_example :
    (s' : Slabs) × ((slabs_init settings doubling none 20 100000 false false 0 0 none
          (λ i. outside)
          allocator
        ≡ some s')
      × ((1 ≤ s'.pool.power_largest)
          × ((s'.pool.power_largest ≤ 63)
              × (Aligned settings s'.pool 1 s'.pool.power_largest
                  × ((s'.pool.slabclass s'.pool.power_largest).size ≡ 128)))))
slabs_init-Aligned_example =
    slabs_init-Aligned settings doubling none 20 100000 false 0 0 none (λ i. outside) allocator
