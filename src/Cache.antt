-- ===== src/Cache.antt =====
-- The object cache of src/cache.c, with the red zones that it has unless NDEBUG is set. `cache_alloc`
-- and `cache_free` are these calls under the cache's mutex.
pub mod Zones
use mem_exchange.Prelude.{
  ℕ, zero, suc, ◌+◌, ◌-◌, ◌*◌, Bool, true, false, not, ◌&&◌, ◌==◌, ltb, if◌then◌else◌, Option, none,
  some, List, [], ◌∷◌, length, ℤ, pos, negsuc, word, sub64,
}

-- `cache_t`. `free` holds the first `freecurr` entries of `ptr`, the last one first; `words` is the
-- memory of the objects.
pub record Cache : Type 0 where
  pub free : List ℕ
  pub freetotal : ℕ
  pub bufsize : ℕ
  pub words : ℕ → ℕ
  pub cache_error : ℤ

abbrev pub redzone_pattern : ℕ
redzone_pattern = 16045690984503098046

abbrev pub initial_pool_size : ℕ
initial_pool_size = 64

-- `ok` is whether the system gave all it was asked for.
unfoldable pub cache_create : Bool → ℕ → (ℕ → ℕ) → Option Cache
cache_create ok bufsize words =
    if ok
    then some (record {
      free = [];
      freetotal = initial_pool_size;
      bufsize = bufsize + 16;
      words = words;
      cache_error = pos 0;
    })
    else none

-- the word behind an object
abbrev pub zone_behind : Cache → ℕ → ℕ
zone_behind c object = object + (c.bufsize - 16)

abbrev pub write : ℕ → ℕ → Cache → Cache
write a v c = record c { words = λ b. if b == a then v else c.words b }

-- both red zones of the block at `block`
unfoldable pub guard : ℕ → Cache → ℕ × Cache
guard block c =
    (block + 8, write (zone_behind c (block + 8)) redzone_pattern (write block redzone_pattern c))

-- `block` is what `malloc` gives, zero for NULL, and `built` whether the constructor, if there is one,
-- succeeds. The object, or zero.
unfoldable pub do_cache_alloc : ℕ → Bool → Cache → ℕ × Cache
do_cache_alloc block built c = elim c.free [
  | [] ↦ if block == 0 then (0, c) else (if built then guard block c else (0, c))
  | ptr ∷ rest ↦ guard ptr (record c { free = rest })
]

-- the block goes back to the pool, to a larger one, or to the system
unfoldable pub keep : Bool → ℕ → Cache → Cache
keep realloc_ok block c =
    if ltb (length c.free) c.freetotal
    then record c { free = block ∷ c.free }
    else (if realloc_ok then record c { freetotal = c.freetotal * 2; free = block ∷ c.free } else c)

-- A damaged red zone raises SIGABRT; where that is handled, the object is not taken back.
unfoldable pub do_cache_free : Bool → ℕ → Cache → Cache
do_cache_free realloc_ok object c =
    if not (c.words (zone_behind c object) == redzone_pattern)
    then record c { cache_error = pos 1 }
    else (if not (c.words (object - 8) == redzone_pattern)
        then record c { cache_error = negsuc 0 }
        else keep realloc_ok (object - 8) c)

-- the blocks that cache_destroy gives back, in their order
unfoldable pub cache_destroy : Cache → List ℕ
cache_destroy c = c.free
