-- ===== src/Tests/OverloadTests.antt =====
-- The overload control on concrete calls, and the properties of its modules at concrete inputs.
use mem_exchange.Prelude.{
  ℕ, zero, suc, ◌+◌, ◌*◌, ◌<◌, ◌≤◌, ◌≡◌, refl, true, false, List, [], ◌∷◌, pos, arith, ◌/◌, word,
  ◌+ℤ◌,
}
use mem_exchange.Overload.{
  Point, Victim, RemoteRead, Tick, Calls, step, place, decayed, ewma_update, Reach, begun, called,
  moved, get_remote_item, get_remote_items, region_size, alone, latch,
}
use mem_exchange.Overload.Slots.{IsCapped, get_remote_item-IsCapped}
use mem_exchange.Overload.Bounds.{Fits, get_remote_item-bounds}
use mem_exchange.Overload.Recovery.{Probes, get_remote_items-recovers}

abbrev idle : Victim
idle = record {
  victim_outstanding_rdma = pos 0;
  rdma_overloaded = false;
  ewma_timeout_ppm = 0;
  last_decay_ns = 0;
  last_probe_ns = 0;
  prevsize = 0;
  conns = λ c. record { rdma_local_region_r = 4096; last_used_addr = 4096 };
}

abbrev overloaded : Victim
overloaded = record idle { rdma_overloaded = true; ewma_timeout_ppm = 900000 }

abbrev small_item : RemoteRead
small_item = record { conn = 0; size = 96 }

abbrev large_item : RemoteRead
large_item = record { conn = 0; size = 240 }

abbrev at_time : ℕ → Tick
at_time t = record { now = t; post_fails = false; spurious = false; nbytes = λ a. 1 }

-- one call that has taken the steps to its reservation, and another that begins
abbrev two_calls : Calls
two_calls = (large_item, Point.starting) ∷ (small_item, Point.admitted) ∷ []

two_calls-Reach : Reach idle (record idle { victim_outstanding_rdma = pos 1 }) two_calls
unfolding step ◌+ℤ◌
two_calls-Reach = called _ _ large_item (
    moved _ _ 0 (at_time 7) small_item Point.reserving
      (moved _ _ 0 (at_time 7) small_item (Point.latching 0)
        (moved _ _ 0 (at_time 7) small_item Point.reading
          (moved _ _ 0 (at_time 7) small_item (Point.decay_timed 7)
            (moved _ _ 0 (at_time 7) small_item Point.starting (called _ _ small_item begun) refl)
            refl)
          refl)
        refl)
      refl)

get_remote_item-IsCapped_example :
    IsCapped (record idle { victim_outstanding_rdma = pos 1 }) two_calls
get_remote_item-IsCapped_example = get_remote_item-IsCapped idle _ two_calls refl two_calls-Reach

get_remote_item-bounds_example :
    let v = record idle { victim_outstanding_rdma = pos 1 } in
    (v.ewma_timeout_ppm ≤ 1000000)
    × ((s : ℕ)
        → s ≤ 1000000
        → ewma_update v.ewma_timeout_ppm s 50000
          ≡ (50000 * s + 950000 * v.ewma_timeout_ppm) / 1000000)
    × ((r : RemoteRead) → r.size ≤ region_size → Fits r.size ((place r v).conns r.conn))
get_remote_item-bounds_example =
    get_remote_item-bounds idle (record idle { victim_outstanding_rdma = pos 1 }) two_calls
      (omega arith) (λ c. omega arith) two_calls-Reach

-- a probe of the clock every 50 ms
abbrev probes_from : ℕ → ℕ → List (RemoteRead × Tick)
probes_from zero t = []
probes_from (suc m) t = (small_item, at_time (t + 50000000)) ∷ probes_from m (t + 50000000)

probes_from-Probes : (m t : ℕ) → t + m * 50000000 < word → Probes 0 t (probes_from m t)
probes_from-Probes zero t h = tt
probes_from-Probes (suc m) t h = (
  omega arith,
  omega arith,
  omega arith,
  refl,
  refl,
  (λ a. omega arith),
  probes_from-Probes m (t + 50000000) (omega arith),
)

get_remote_items-recovers_example :
    ((get_remote_items (probes_from 43 0) overloaded).rdma_overloaded ≡ false)
    × ((get_remote_items (probes_from 43 0) overloaded).ewma_timeout_ppm ≤ 50000)
get_remote_items-recovers_example =
    get_remote_items-recovers (probes_from 43 0) overloaded 0 0 refl refl (omega arith)
      (omega arith) (omega arith) (probes_from-Probes 43 0 (omega arith)) (omega arith)

-- two probes are not enough
still_overloaded : (get_remote_items (probes_from 2 0) overloaded).rdma_overloaded ≡ true
unfolding get_remote_items get_remote_item alone step latch place decayed ewma_update ◌+ℤ◌
still_overloaded = refl
