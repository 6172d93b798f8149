-- ===== src/Overload/Alone.antt =====
-- A call of get_remote_item in src/rdma_util.c with no other between its steps, when its read succeeds.
use mem_exchange.Prelude.{
  ℕ, zero, suc, ◌+◌, ◌<◌, ◌≤◌, ◌≡◌, refl, ap, ◌∙◌, some, Option, arith, true, false, word, pos,
  ◌+ℤ◌,
}
use mem_exchange.Overload.{
  Point, Victim, RemoteRead, Tick, step, latch, place, decayed, ewma_update, alone, get_remote_item,
}

-- the average after a probe that succeeds
abbrev pub lowered : ℕ → ℕ
lowered e = ewma_update (decayed e) 0 50000

-- A slot is free, the read is posted, and its data are there at once.
abbrev pub Served : ℕ → Tick → Victim → Type 0
Served n k v =
    (v.victim_outstanding_rdma ≡ pos n)
    × (n < 256)
    × (k.post_fails ≡ false)
    × (k.spurious ≡ false)
    × ((a : ℕ) → 0 < k.nbytes a)

alone-add :
    (m n : ℕ) (r : RemoteRead) (k : Tick) (w : Victim × Point)
    → alone (m + n) r k w ≡ alone n r k (alone m r k w)
unfolding alone
alone-add zero n r k w =
    let none_more : 0 + n ≡ n = omega arith in ap (λ (x : ℕ). alone x r k w) none_more
alone-add (suc m) n r k (v, p) =
    let one_more : suc m + n ≡ suc (m + n) = omega arith in
    ap (λ (x : ℕ). alone x r k (v, p)) one_more ∙ alone-add m n r k (step r k v p)

alone-returned :
    (n : ℕ) (r : RemoteRead) (k : Tick) (v : Victim) (a : Option ℕ)
    → alone n r k (v, Point.returned a) ≡ (v, Point.returned a)
unfolding alone step
alone-returned zero r k v a = refl
alone-returned (suc n) r k v a = alone-returned n r k v a

module _ (r : RemoteRead) (k : Tick) where
  decaying :
      (v : Victim)
      → v.last_decay_ns + 50000000 ≤ k.now
      → k.now < word
      → k.spurious ≡ false
      → alone 5 r k (v, Point.starting) ≡ (
        record v { last_decay_ns = k.now; ewma_timeout_ppm = decayed v.ewma_timeout_ppm },
        Point.reading,
      )
  unfolding alone step
  decaying v due small swaps = ground arith

  probing :
      (v : Victim)
      → v.last_probe_ns + 50000000 ≤ k.now
      → k.now < word
      → v.rdma_overloaded ≡ true
      → 50000 < v.ewma_timeout_ppm
      → alone 5 r k (v, Point.reading) ≡ (record v { last_probe_ns = k.now }, Point.reserving)
  unfolding alone step latch
  probing v due small over high = ground arith

  clearing :
      (v : Victim)
      → v.rdma_overloaded ≡ true
      → v.ewma_timeout_ppm ≤ 50000
      → alone 3 r k (v, Point.reading) ≡ (record v { rdma_overloaded = false }, Point.reserving)
  unfolding alone step latch
  clearing v over low = ground arith

  passing :
      (v : Victim)
      → v.rdma_overloaded ≡ false
      → v.ewma_timeout_ppm ≤ 50000
      → alone 2 r k (v, Point.reading) ≡ (v, Point.reserving)
  unfolding alone step latch
  passing v over low = ground arith

  -- the slot is given back after a read that succeeds
  succeeding :
      (v : Victim) (n : ℕ)
      → Served n k v
      → let w = place r v in
        alone 8 r k (v, Point.reserving) ≡ (
          record w { ewma_timeout_ppm = ewma_update v.ewma_timeout_ppm 0 50000 },
          Point.returned (some (w.conns r.conn).last_used_addr),
        )
  unfolding alone step place ◌+ℤ◌
  succeeding v n (count, room, posts, swaps, ready) =
      let here = ready ((place r v).conns r.conn).last_used_addr in ground arith

  -- what a call leaves when it is alone and its read succeeds
  pub after_probing :
      (v : Victim) (n : ℕ)
      → v.last_decay_ns + 50000000 ≤ k.now
      → v.last_probe_ns + 50000000 ≤ k.now
      → k.now < word
      → Served n k v
      → v.rdma_overloaded ≡ true
      → 50000 < decayed v.ewma_timeout_ppm
      → let a = record v {
        last_decay_ns = k.now;
        ewma_timeout_ppm = decayed v.ewma_timeout_ppm;
        last_probe_ns = k.now;
      } in
        get_remote_item r k v ≡ (
          record (place r a) { ewma_timeout_ppm = lowered v.ewma_timeout_ppm },
          Point.returned (some ((place r a).conns r.conn).last_used_addr),
        )
  unfolding get_remote_item
  after_probing v n d p small (count, room, posts, swaps, ready) over high =
      let a = record v { last_decay_ns = k.now; ewma_timeout_ppm = decayed v.ewma_timeout_ppm } in
      let b = record a { last_probe_ns = k.now } in
      alone-add 5 13 r k (v, Point.starting)
      ∙ ap (alone 13 r k) (decaying v d small swaps)
      ∙ alone-add 5 8 r k (a, Point.reading)
      ∙ ap (alone 8 r k) (probing a p small over high)
      ∙ succeeding b n (count, room, posts, swaps, ready)

  pub after_clearing :
      (v : Victim) (n : ℕ)
      → v.last_decay_ns + 50000000 ≤ k.now
      → k.now < word
      → Served n k v
      → v.rdma_overloaded ≡ true
      → decayed v.ewma_timeout_ppm ≤ 50000
      → let a = record v {
        last_decay_ns = k.now;
        ewma_timeout_ppm = decayed v.ewma_timeout_ppm;
        rdma_overloaded = false;
      } in
        get_remote_item r k v ≡ (
          record (place r a) { ewma_timeout_ppm = lowered v.ewma_timeout_ppm },
          Point.returned (some ((place r a).conns r.conn).last_used_addr),
        )
  unfolding get_remote_item
  after_clearing v n d small (count, room, posts, swaps, ready) over low =
      let a = record v { last_decay_ns = k.now; ewma_timeout_ppm = decayed v.ewma_timeout_ppm } in
      let b = record a { rdma_overloaded = false } in
      alone-add 5 13 r k (v, Point.starting)
      ∙ ap (alone 13 r k) (decaying v d small swaps)
      ∙ alone-add 3 10 r k (a, Point.reading)
      ∙ ap (alone 10 r k) (clearing a over low)
      ∙ alone-add 8 2 r k (b, Point.reserving)
      ∙ ap (alone 2 r k) (succeeding b n (count, room, posts, swaps, ready))
      ∙ alone-returned 2 r k _ _

  pub after_passing :
      (v : Victim) (n : ℕ)
      → v.last_decay_ns + 50000000 ≤ k.now
      → k.now < word
      → Served n k v
      → v.rdma_overloaded ≡ false
      → decayed v.ewma_timeout_ppm ≤ 50000
      → let a = record v { last_decay_ns = k.now; ewma_timeout_ppm = decayed v.ewma_timeout_ppm } in
        get_remote_item r k v ≡ (
          record (place r a) { ewma_timeout_ppm = lowered v.ewma_timeout_ppm },
          Point.returned (some ((place r a).conns r.conn).last_used_addr),
        )
  unfolding get_remote_item
  after_passing v n d small (count, room, posts, swaps, ready) over low =
      let a = record v { last_decay_ns = k.now; ewma_timeout_ppm = decayed v.ewma_timeout_ppm } in
      alone-add 5 13 r k (v, Point.starting)
      ∙ ap (alone 13 r k) (decaying v d small swaps)
      ∙ alone-add 2 11 r k (a, Point.reading)
      ∙ ap (alone 11 r k) (passing a over low)
      ∙ alone-add 8 3 r k (a, Point.reserving)
      ∙ ap (alone 3 r k) (succeeding a n (count, room, posts, swaps, ready))
      ∙ alone-returned 3 r k _ _
