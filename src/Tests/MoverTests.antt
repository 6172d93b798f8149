-- ===== src/Tests/MoverTests.antt =====
-- The reassignment of pages of src/slabs.c at concrete classes and requests.
use mem_exchange.Slabs.Reassign.{
  slabs_reassign_pick_any, do_slabs_reassign, reassign_pages, reassign_check, is_ok,
}
use mem_exchange.Slabs.Reassign.Picks.{
  CanGive, Woken, slabs_reassign_pick_any_complete, do_slabs_reassign-accepts,
}
use mem_exchange.Prelude.{
  refl, ℕ, ◌+◌, ◌*◌, ◌≤◌, ◌<◌, ◌≡◌, ◌≢◌, ◌⊎◌, true, false, arith, ℤ, pos, negsuc, ltb, ◌==◌,
  if◌then◌else◌,
}
use mem_exchange.Tracker.State.{Tracker}
use mem_exchange.Tests.Samples.{fresh, integer_double}
use mem_exchange.Tests.SlabTests.{memory}
use mem_exchange.Slabs.State.{Pool, zero_item}
use mem_exchange.Slabs.Classes.{zero_class}
use mem_exchange.Slabs.Reassign.{tenant_slab, broadcasting, done, Mover}
use mem_exchange.Slabs.Victor.{Turn, victor_waiting_routine}
use mem_exchange.Slabs.Victor.Turns.{
  Gives, posted, Counts, Finished, timed_out, page_there, victor_waiting_routine-Turned,
}
use mem_exchange.Slabs.Victims.{no_pick, pick_page}
use mem_exchange.Slabs.Victims.Least.{Candidate, picked, pick_page_least}

-- Class 2 has three pages at 1000, 2000 and 3000, with two items of 100 bytes on each.
abbrev pages : Pool
pages = record memory {
  slabclass = λ j. record zero_class {
    size = 100;
    perslab = 2;
    slabs = if j == 2 then 3 else 0;
    slab_list = λ k. 1000 * k + 1000;
  };
  items =
      λ a. record zero_item { page_id = if ltb a 2000 then 0 else (if ltb a 3000 then 1 else 2) };
}

abbrev idle : Mover
idle = record {
  rebal = record {
    slab_start = 0;
    slab_end = 0;
    slab_pos = 0;
    s_clsid = pos 0;
    d_clsid = pos 0;
    busy_items = 0;
    rescues = 0;
    evictions_nomem = 0;
    inline_reclaim = 0;
    chunk_rescues = 0;
    done = 0;
  };
  signal = 0;
  realloc_source = tenant_slab;
  realloc_destination = tenant_slab;
  slab_to_release = negsuc 0;
  is_taken_careof = false;
  pages_to_request = negsuc 0;
  aborted = false;
  transfer = done;
  total_released_pages = 0;
  total_received_pages = 0;
  start_t = 0;
  end_t = 0;
  time_elapsed = 0;
  prev_victim = 1;
  cur = 0;
}

slabs_reassign_pick_any_complete_example :
    ((c : ℕ) × (((slabs_reassign_pick_any (pos 1) 0 pages).0 ≡ pos c) × CanGive (pos 1) pages c))
    ⊎ (((slabs_reassign_pick_any (pos 1) 0 pages).0 ≡ negsuc 0)
        × ((c : ℕ) → 1 ≤ c → c ≤ 3 → (pos c ≡ pos 1) ⊎ ((pages.slabclass c).slabs ≤ 1)))
slabs_reassign_pick_any_complete_example =
    slabs_reassign_pick_any_complete (pos 1) 0 pages (omega arith) (omega arith)

do_slabs_reassign-accepts_example :
    let m' = (do_slabs_reassign (pos 2) (pos 1) pages idle).1 in
    (idle.signal ≡ 0)
    × (((pos 2 ≡ pos 1000) × (m'.signal ≡ 10) × (m'.rebal.d_clsid ≡ pos 1))
        ⊎ ((pos 2 ≢ pos 1000) × Woken (pos 1) pages idle m'))
unfolding do_slabs_reassign reassign_pages reassign_check is_ok
do_slabs_reassign-accepts_example =
    do_slabs_reassign-accepts (pos 2) (pos 1) pages idle
      (do_slabs_reassign (pos 2) (pos 1) pages idle).1 (omega arith) (omega arith) refl

-- a tenant that broadcasts for two pages, and a tracker that offers one
abbrev waiting : Mover
waiting = record idle { signal = 10; pages_to_request = pos 2; transfer = broadcasting }

abbrev offering : Tracker ℤ
offering = record fresh { spare_mem_avail = true; spare_mem_clsid = pos 2 }

abbrev turn : Turn
turn = record {
  clock1 = 1;
  clock2 = 2;
  per_sec = 1000000;
  port = pos 11212;
  server_port = pos 5000;
}

victor_waiting_routine-Turned_example :
    Gives (victor_waiting_routine turn waiting) (posted 0 offering 0) λ m' s'.
      (s'.sem ≡ 1)
      × ((((waiting.pages_to_request ≡ pos 0) ⊎ (waiting.aborted ≡ true)) × Finished waiting m' s')
          ⊎ ((waiting.pages_to_request ≢ pos 0)
              × ((waiting.aborted ≡ false)
                  × Counts
                      (if timed_out turn waiting offering
                        then false
                        else page_there offering broadcasting)
                      waiting
                      m')))
victor_waiting_routine-Turned_example = victor_waiting_routine-Turned turn waiting 0 offering 0

-- Class 2 has twelve local pages, of which page 1 has the fewest hits of the first three.
abbrev busy : Pool
busy = record memory {
  slabclass = λ j. record zero_class {
    slabs = if j == 2 then 12 else 0;
    hits = λ k. if k == 1 then 5 else 9;
  };
}

pick_page_least_example :
    ((i x : ℕ)
      → 1 ≤ i
      → i < 4
      → Candidate 1 busy i x
      → (pick_page 0 1 busy).lowest_mu ≤ (busy.slabclass i).hits x)
    × ((pick_page 0 1 busy ≡ no_pick)
        ⊎ ((i : ℕ) × ((x : ℕ) × ((1 ≤ i)
                × ((i < 4)
                    × (Candidate 1 busy i x
                        × (pick_page 0 1 busy ≡ picked i x (busy.slabclass i))))))))
pick_page_least_example = pick_page_least 0 1 busy (omega arith)
