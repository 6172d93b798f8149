-- ===== src/Tracker/Alloc/Segment.antt =====
-- How src/shm_malloc.c divides the slab segment into pages.
use mem_exchange.Prelude.{
  ℕ, ℤ, ◌+◌, ◌^◌, ◌≤◌, ◌<◌, ◌≡◌, true, Option, none, some, add64, arith, Double,
}
use mem_exchange.Tracker.State.{Tracker, Shm}
use mem_exchange.Tracker.Alloc.{Os, page_round, below, shm_malloc, set_spare_mem, signal_alloc_free}
use mem_exchange.Tracker.Alloc.Rounding.{Fits, page_round_bounds, page_round_whole}

-- The pages handed out fill the segment from its upper end down, and none is past its size.
pub record IsValid {D : Type 0} (t : Tracker D) : Type 0 where
  pub within : t.used_size ≤ t.max_size
  pub segment : t.max_size ≤ t.start
  pub address : t.start ≤ 2 ^ 62
  pub next : t.start_address + t.used_size ≡ t.start

module _ {D : Type 0} where
  -- What a `shm_malloc` that returned the address `p` has done.
  pub record Took (os : Os) (n : ℕ) (t u : Tracker D) (p : ℕ) : Type 0 where
    pub mapped : os.mmap t.start_address (page_round os.page_size n) t.used_size ≡ some p
    pub used : u.used_size ≡ t.used_size + page_round os.page_size n
    pub within : u.used_size ≤ t.max_size
    pub lower : u.start_address + page_round os.page_size n ≡ t.start_address
    pub same_max : u.max_size ≡ t.max_size
    pub same_start : u.start ≡ t.start

  -- A `shm_malloc` that succeeds maps the pages just past those handed out, rounded up to whole
  -- memory pages, stays inside the segment, moves the next address down by as much, and posts the
  -- semaphore.
  pub shm_malloc-Took :
      (os : Os) (n p : ℕ) (s s' : Shm D)
      → IsValid s.track
      → Fits os.page_size n
      → shm_malloc os n s ≡ some (some p, s')
      → Took os n s.track s'.track p × (s'.sem ≡ s.sem)
  unfolding shm_malloc
  shm_malloc-Took os n p s s' v f e = ground (arith, page_round_bounds f, page_round_whole f)

  -- Whatever `shm_malloc` returns, the division of the segment stays valid; when it returns NULL, the
  -- tracker is as it was.
  pub shm_malloc-IsValid :
      (os : Os) (n : ℕ) (r : Option ℕ) (s s' : Shm D)
      → IsValid s.track
      → Fits os.page_size n
      → shm_malloc os n s ≡ some (r, s')
      → IsValid s'.track × (r ≡ none → s'.track ≡ s.track)
  unfolding shm_malloc
  shm_malloc-IsValid os n none s s' v f e = ground arith
  shm_malloc-IsValid os n (some p) s s' v f e =
      let (t, _) = shm_malloc-Took os n p s s' v f e in (ground arith, λ h. cc)

  -- `shm_malloc` succeeds exactly when the calls of the system do and the rounded size is left in the
  -- segment.
  pub shm_malloc_succeeds :
      (os : Os) (n p : ℕ) (s : Shm D)
      → IsValid s.track
      → Fits os.page_size n
      → 0 < s.sem
      → os.slabs_open ≡ true
      → os.write_ok ≡ true
      → os.mmap s.track.start_address (page_round os.page_size n) s.track.used_size ≡ some p
      → s.track.used_size + page_round os.page_size n ≤ s.track.max_size
      → (s' : Shm D) × (shm_malloc os n s ≡ some (some p, s'))
  unfolding shm_malloc
  shm_malloc_succeeds os n p s v f free o w m fit = (
    record s {
      slab_byte = 0;
      track = record s.track {
        start_address = below s.track.start_address (page_round os.page_size n);
        avail_address = p;
        used_size = add64 s.track.used_size (page_round os.page_size n);
      };
    },
    ground (arith, page_round_bounds f),
  )

module _ {D : Type 0} ⦃d : Double D⦄ where
  -- If the system maps a page where `shm_malloc` asks for it, then giving that page up by
  -- `set_spare_mem` publishes the file offset at which it was mapped, its address and its size.
  pub spare_off-shm_malloc :
      (os : Os) (n p m id : ℕ) (cls : ℤ) (s s₁ s₂ : Shm D)
      → IsValid s.track
      → Fits os.page_size n
      → p ≡ s.track.start_address
      → shm_malloc os n s ≡ some (some p, s₁)
      → set_spare_mem p m cls id s₁ ≡ some (tt, s₂)
      → (s₂.track.spare_off ≡ s.track.used_size)
        × (s₂.track.spare_mem_start ≡ p)
        × (s₂.track.spare_size ≡ m)
        × (s₂.track.spare_mem_avail ≡ true)
  unfolding set_spare_mem
  spare_off-shm_malloc os n p m id cls s s₁ s₂ v f hint e g =
      let (t, _) = shm_malloc-Took os n p s s₁ v f e in let same = t.same_start in ground arith

  -- `signal_alloc_free` publishes the next page of the segment as the spare page: its offset, its
  -- address and its rounded size.
  pub signal_alloc_free_publishes :
      (page id n : ℕ) (s s' : Shm D)
      → IsValid s.track
      → Fits page n
      → signal_alloc_free page id n s ≡ some (tt, s')
      → (s'.track.spare_off ≡ s.track.used_size)
        × (s'.track.spare_mem_start ≡ s.track.start_address)
        × (s'.track.spare_size ≡ page_round page n)
        × (s'.track.used_size ≡ s.track.used_size + page_round page n)
        × (s'.track.spare_mem_avail ≡ true)
  unfolding signal_alloc_free
  signal_alloc_free_publishes page id n s s' v f e =
      ground (arith, page_round_bounds f, page_round_whole f)

  -- signal_alloc_free makes no check of the size: when less than the rounded size is left, the page
  -- that it publishes reaches past the end of the segment, and the division is no longer valid.
  pub signal_alloc_free_overruns :
      (page id n : ℕ) (s s' : Shm D)
      → IsValid s.track
      → Fits page n
      → s.track.max_size < s.track.used_size + page_round page n
      → signal_alloc_free page id n s ≡ some (tt, s')
      → (s'.track.max_size < s'.track.spare_off + s'.track.spare_size) × (¬ (IsValid s'.track))
  unfolding signal_alloc_free
  signal_alloc_free_overruns page id n s s' v f over e =
      let facts = page_round_bounds f in
      (ground (arith, facts, page_round_whole f), λ w. ground (arith, facts, page_round_whole f, w))
