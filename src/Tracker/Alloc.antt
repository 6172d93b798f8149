-- ===== src/Tracker/Alloc.antt =====
-- The pages of src/shm_malloc.c. Pages are handed out from the top of the slab segment: the next one
-- is mapped at `start_address`, at the file offset `used_size`.
pub mod Rounding
pub mod Segment
pub mod Spare
use mem_exchange.Prelude.{
  ℕ, ◌+◌, ◌*◌, ◌/◌, ◌%◌, Bool, true, false, Option, none, some, ℤ, pos, ◌+ℤ◌, ltb, get_or, set,
  word, add64, sub64, through_int, if◌then◌else◌, Double,
}
use mem_exchange.Tracker.State.{
  Tracker, Shm, M, ◌>>=◌, ◌>>◌, return, store, locked, init_trck_access, term_trck_access,
}

-- How the operating system answers one call: `sysconf(_SC_PAGESIZE)`, whether `shm_open` and `write`
-- on the slab segment succeed, and the address at which `mmap` maps a length at an offset, near the
-- address asked for, or `MAP_FAILED`.
pub record Os : Type 0 where
  pub page_size : ℕ
  pub slabs_open : Bool
  pub write_ok : Bool
  pub mmap : ℕ → ℕ → ℕ → Option ℕ

-- `int index = n / PAGESIZE; n = (index + 1) * PAGESIZE;`
abbrev pub page_round : ℕ → ℕ → ℕ
page_round page n = ((through_int (n / page) + 1) * page) % word

-- `(long *) track->start_address - (n / 8)`
abbrev pub below : ℕ → ℕ → ℕ
below address n = sub64 address (8 * (n / 8))

module _ {D : Type 0} where
  -- `write (slabs_fd, "", 1)`, at offset 0 of the segment just opened
  abbrev pub write_byte : M D (Unit {0})
  write_byte s = some (tt, record s { slab_byte = 0 })

  -- the part of `shm_malloc` after the size check
  unfoldable pub take_page : ℕ → ℕ → Tracker D → Tracker D
  take_page rptr n t = record t {
    start_address = below t.start_address n;
    avail_address = rptr;
    used_size = add64 t.used_size n;
  }

  unfoldable pub shm_malloc : Os → ℕ → M D (Option ℕ)
  unfolding init_trck_access term_trck_access take_page
  shm_malloc os n = do
    t ← init_trck_access
    let size = page_round os.page_size n
    if os.slabs_open
        then (if os.write_ok
            then (do
              write_byte
              elim (os.mmap t.start_address size t.used_size) [
                | none ↦ return none
                | some rptr ↦
                    if ltb t.max_size (add64 t.used_size size)
                    then return none
                    else (do store (take_page rptr size t); term_trck_access; return (some rptr))
              ])
            else return none)
        else return none

module _ {D : Type 0} ⦃d : Double D⦄ where
  -- `preset_share[id] += n` and `-= n`
  abbrev pub add_share : ℕ → ℕ → Tracker D → Tracker D
  add_share id n t = record t {
    preset_share = set t.preset_share id (d.add (get_or t.preset_share id d.worst) (d.of_size n));
  }

  abbrev pub sub_share : ℕ → ℕ → Tracker D → Tracker D
  sub_share id n t = record t {
    preset_share = set t.preset_share id (d.sub (get_or t.preset_share id d.worst) (d.of_size n));
  }

  unfoldable pub shm_malloc_spare : Os → ℕ → ℕ → M D (Option ℕ)
  unfolding init_trck_access term_trck_access
  shm_malloc_spare os n id = do
    t ← init_trck_access
    let page = page_round os.page_size n
    let size = if ltb t.spare_size page then t.spare_size else page
    if os.slabs_open
        then elim (os.mmap t.spare_mem_start size t.spare_off) [
          | none ↦ return none
          | some rptr ↦ (do store (add_share id size t); term_trck_access; return (some rptr))
        ]
        else return none

  -- the fields that `set_spare_mem` sets
  abbrev pub spare_set : ℕ → ℕ → ℤ → ℕ → Tracker D → Tracker D
  spare_set ptr n cls id t = sub_share id n (record t {
    spare_off = sub64 t.start ptr;
    spare_mem_start = ptr;
    spare_mem_clsid = cls;
    spare_mem_avail = true;
    spare_size = n;
    spare_mem_owner = pos (id + 11212);
  })

  unfoldable pub set_spare_mem : ℕ → ℕ → ℤ → ℕ → M D (Unit {0})
  unfolding locked
  set_spare_mem ptr n cls id = locked (λ t. (tt, spare_set ptr n cls id t))

  -- the part of `signal_alloc_free` under the semaphore; its result is the page's address and size
  unfoldable pub cut_page : ℕ → ℕ → M D (ℕ × ℕ)
  unfolding locked
  cut_page page size = locked λ t.
      let n = page_round page size in
      (
        (t.start_address, n),
        record t { start_address = below t.start_address n; used_size = add64 t.used_size n },
      )

  unfoldable pub signal_alloc_free : ℕ → ℕ → ℕ → M D (Unit {0})
  unfolding cut_page set_spare_mem
  signal_alloc_free page id size = do r ← cut_page page size; set_spare_mem r.0 r.1 (pos 1) id

  unfoldable pub receive_remote_mem : ℕ → ℕ → ℕ → M D (Unit {0})
  unfolding locked
  receive_remote_mem conn n id = locked λ t. (
    tt,
    record (add_share id n t) { latest_conn = conn; remote_spare_received = true; spare_size = n },
  )

  unfoldable pub set_remote_mem : ℕ → ℕ → ℕ → M D (Unit {0})
  unfolding locked
  set_remote_mem addr n id = locked (λ t. (tt, sub_share id n t))
