-- ===== src/Overload/Bounds.antt =====
-- The average of src/rdma_util.c and the buffers that it reads into, in every interleaving of calls.
use mem_exchange.Prelude.{ℕ, ◌+◌, ◌*◌, ◌/◌, ◌≤◌, ◌≡◌, arith, All, All-set, All-get_elem?}
use mem_exchange.Overload.{
  Point, Victim, Connection, RemoteRead, Tick, Calls, step, latch, place, decayed, ewma_update,
  Reach, begun, called, moved, region_size,
}

-- The arithmetic neither wraps nor is cut.
pub ewma_update_exact :
    (old s : ℕ)
    → old ≤ 1000000
    → s ≤ 1000000
    → ewma_update old s 50000 ≡ (50000 * s + 950000 * old) / 1000000
unfolding ewma_update
ewma_update_exact old s h i = omega arith

pub decayed_exact : (old : ℕ) → old ≤ 1000000 → decayed old ≡ old * 980000 / 1000000
unfolding decayed
decayed_exact old h = omega arith

ewma_update_bound : (old s : ℕ) → old ≤ 1000000 → s ≤ 1000000 → ewma_update old s 50000 ≤ 1000000
ewma_update_bound old s h i = omega (arith, ewma_update_exact old s h i)

decayed_le : (old : ℕ) → old ≤ 1000000 → decayed old ≤ old
decayed_le old h = omega (arith, decayed_exact old h)

-- The buffer of a connection starts in the local region, and `n` bytes of it fit.
abbrev pub Fits : ℕ → Connection → Type 0
Fits n c =
    (c.rdma_local_region_r ≤ c.last_used_addr)
    × (c.last_used_addr + n ≤ c.rdma_local_region_r + region_size)

-- Every connection's last buffer starts in its region.
abbrev pub IsPlaced : Victim → Type 0
IsPlaced v = (c : ℕ) → (v.conns c).rdma_local_region_r ≤ (v.conns c).last_used_addr

-- what a point holds of the average
abbrev pub Sampled : Point → Type 0
Sampled (Point.sampling s ok) = s ≤ 1000000
Sampled (Point.swapping s old ok) = s ≤ 1000000
Sampled p = Unit

step-average :
    (r : RemoteRead) (k : Tick) (v : Victim) (p : Point)
    → v.ewma_timeout_ppm ≤ 1000000
    → Sampled p
    → ((step r k v p).0.ewma_timeout_ppm ≤ 1000000) × Sampled (step r k v p).1
unfolding step latch place
step-average r k v (Point.decay_swap old) h s = grind (arith, decayed_le)
step-average r k v (Point.swapping x old ok) h s = grind (arith, ewma_update_bound)
step-average r k v p h s = ground arith

step-IsPlaced :
    (r : RemoteRead) (k : Tick) (v : Victim) (p : Point) → IsPlaced v → IsPlaced (step r k v p).0
unfolding step place
step-IsPlaced r k v Point.admitted h c = let at = h c in ground arith
step-IsPlaced r k v p h c = let at = h c in ground arith

-- what holds in every interleaving, with the values that the calls have read
record IsTame (v : Victim) (cs : Calls) : Type 0 where
  average : v.ewma_timeout_ppm ≤ 1000000
  samples : All (λ c. Sampled c.1) cs
  placed : IsPlaced v

Reach-IsTame :
    (v₀ v : Victim) (cs : Calls)
    → v₀.ewma_timeout_ppm ≤ 1000000
    → IsPlaced v₀
    → Reach v₀ v cs
    → IsTame v cs
Reach-IsTame v₀ v cs h at begun = record { average = h; samples = tt; placed = at }
Reach-IsTame v₀ v cs h at (called u ds r before) =
    let b = Reach-IsTame v₀ u ds h at before in
    record { average = b.average; samples = (tt, b.samples); placed = b.placed }
Reach-IsTame v₀ v cs h at (moved u ds i k r p before e) =
    let b = Reach-IsTame v₀ u ds h at before in
    let (average, sample) =
      step-average r k u p b.average (All-get_elem? _ ds i (r, p) b.samples e) in
    record {
      average = average;
      samples = All-set _ ds i _ b.samples sample;
      placed = step-IsPlaced r k u p b.placed;
    }

place-Fits :
    (v : Victim) (r : RemoteRead)
    → IsPlaced v
    → r.size ≤ region_size
    → Fits r.size ((place r v).conns r.conn)
unfolding place
place-Fits v r h small = let at = h r.conn in ground arith

-- In every interleaving of calls, from an average of at most 1,000,000 and buffers that start in their
-- regions: the average is at most 1,000,000, a sample moves it by the exact formula, and the buffer that
-- a call chooses for a read lies in its connection's local region, if the item is no larger than that.
pub get_remote_item-bounds :
    (v₀ v : Victim) (cs : Calls)
    → v₀.ewma_timeout_ppm ≤ 1000000
    → IsPlaced v₀
    → Reach v₀ v cs
    → (v.ewma_timeout_ppm ≤ 1000000)
      × ((s : ℕ)
          → s ≤ 1000000
          → ewma_update v.ewma_timeout_ppm s 50000
            ≡ (50000 * s + 950000 * v.ewma_timeout_ppm) / 1000000)
      × ((r : RemoteRead) → r.size ≤ region_size → Fits r.size ((place r v).conns r.conn))
get_remote_item-bounds v₀ v cs h at run =
    let b = Reach-IsTame v₀ v cs h at run in
    (
      b.average,
      (λ s. ewma_update_exact v.ewma_timeout_ppm s b.average),
      λ r. place-Fits v r b.placed,
    )
