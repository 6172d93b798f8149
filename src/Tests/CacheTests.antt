-- ===== src/Tests/CacheTests.antt =====
-- The object cache of src/cache.c at an empty pool of objects of eight words.
use mem_exchange.Prelude.{◌≡◌, refl, true, false, [], arith, pos}
use mem_exchange.Cache.{Cache, do_cache_alloc, do_cache_free, guard}
use mem_exchange.Cache.Zones.{do_cache_alloc_again}

abbrev empty : Cache
empty = record { free = []; freetotal = 64; bufsize = 80; words = λ a. 0; cache_error = pos 0 }

-- A word behind the object is overwritten, and the return is refused.
overrun :
    let (object, c) = do_cache_alloc 1000 true empty in
    (do_cache_free true object (record c { words = λ a. 0 })).cache_error ≡ pos 1
unfolding do_cache_alloc do_cache_free guard
overrun = refl

do_cache_alloc_again_example :
    let (object, c') = do_cache_alloc 1000 true empty in
    let (again, c'') = do_cache_alloc 2000 true (do_cache_free false object c') in
    (again ≡ object) × ((c''.free ≡ c'.free) × (c''.cache_error ≡ empty.cache_error))
unfolding do_cache_alloc guard
do_cache_alloc_again_example =
    do_cache_alloc_again 1000 2000 true true false empty (omega arith) (λ e. ground arith)
