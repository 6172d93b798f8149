-- ===== src/Overload/Recovery.antt =====
-- An overloaded process of src/rdma_util.c recovers while its probes succeed.
use mem_exchange.Prelude.{
  ℕ, zero, suc, ◌+◌, ◌*◌, ◌-◌, ◌/◌, ◌<◌, ◌≤◌, ◌≡◌, ◌⊎◌, inl, inr, refl, ap, ◌∙◌, List, [], ◌∷◌,
  arith, leb, if◌then◌else◌, dec_lt, subst, sym, length, true, false, word, pos,
}
use mem_exchange.Overload.{
  Point, Victim, RemoteRead, Tick, place, decayed, get_remote_item, get_remote_items,
}
use mem_exchange.Overload.Bounds.{ewma_update_exact, decayed_exact}
use mem_exchange.Overload.Alone.{lowered, Served, after_probing, after_clearing, after_passing}

-- A strict bound of the average after one more call that leaves the process overloaded.
abbrev pub next_bound : ℕ → ℕ
next_bound b =
    let d = (b - 1) * 980000 / 1000000 in if leb d 50000 then 0 else d * 950000 / 1000000 + 1

abbrev pub bound_after : ℕ → ℕ → ℕ
bound_after zero b = b
bound_after (suc m) b = bound_after m (next_bound b)

-- Not overloaded and below the lower threshold, or overloaded and below `b`, with `n` slots taken and
-- the last decay and the last probe no later than `t`.
record IsRecovering (n b t : ℕ) (v : Victim) : Type 0 where
  slots : v.victim_outstanding_rdma ≡ pos n
  average :
      ((v.rdma_overloaded ≡ false) × (v.ewma_timeout_ppm ≤ 50000))
      ⊎ ((v.rdma_overloaded ≡ true) × (v.ewma_timeout_ppm < b))
  decay : v.last_decay_ns ≤ t
  probe : v.last_probe_ns ≤ t

lowered_le : (e : ℕ) → e ≤ 1000000 → decayed e ≤ 50000 → lowered e ≤ 50000
lowered_le e h low = omega (arith, ewma_update_exact (decayed e) 0 (omega arith) (omega arith))

lowered_lt : (e b : ℕ) → e < b → b ≤ 1000001 → 50000 < decayed e → lowered e < next_bound b
lowered_lt e b lt h high =
    let d = decayed_exact e (omega arith) in
    let u = ewma_update_exact (decayed e) 0 (omega arith) (omega arith) in ground arith

get_remote_item-IsRecovering :
    (r : RemoteRead) (k : Tick) (v : Victim) (n b t : ℕ)
    → IsRecovering n b t v
    → b ≤ 1000001
    → t + 50000000 ≤ k.now
    → k.now < word
    → Served n k v
    → IsRecovering n (next_bound b) k.now (get_remote_item r k v).0
unfolding place
get_remote_item-IsRecovering r k v n b t h small later word_lt served =
    let d = h.decay in
    let p = h.probe in
    let ends = λ (w : Victim × Point). IsRecovering n (next_bound b) k.now w.0 in
    elim h.average [
      | inl (off, low) ↦
          let shut = decayed_exact v.ewma_timeout_ppm (omega arith) in
          let lower = lowered_le v.ewma_timeout_ppm (omega arith) (omega arith) in
          subst ends (sym (after_passing r k v n (omega arith) word_lt served off (omega arith)))
            (record {
              slots = h.slots;
              average = inl (off, lower);
              decay = omega arith;
              probe = omega arith;
            })
      | inr (on, lt) ↦ elim (dec_lt 50000 (decayed v.ewma_timeout_ppm)) [
        | yes high ↦
            let lower = lowered_lt v.ewma_timeout_ppm b lt small high in
            subst ends
              (sym (after_probing r k v n (omega arith) (omega arith) word_lt served on high))
              (record {
                slots = h.slots;
                average = inr (on, lower);
                decay = omega arith;
                probe = omega arith;
              })
        | no not_high ↦
            let lower = lowered_le v.ewma_timeout_ppm (omega arith) (omega arith) in
            subst ends (sym (after_clearing r k v n (omega arith) word_lt served on (omega arith)))
              (record {
                slots = h.slots;
                average = inl (refl, lower);
                decay = omega arith;
                probe = omega arith;
              })
      ]
    ]

-- Calls that are alone, each at least one interval of decay after the one before, and served at once.
abbrev pub Probes : ℕ → ℕ → List (RemoteRead × Tick) → Type 0
Probes n t [] = Unit
Probes n t ((r, k) ∷ rest) =
    (t + 50000000 ≤ k.now)
    × (k.now < word)
    × (n < 256)
    × (k.post_fails ≡ false)
    × (k.spurious ≡ false)
    × ((a : ℕ) → 0 < k.nbytes a)
    × Probes n k.now rest

next_bound_small : (b : ℕ) → b ≤ 1000001 → next_bound b ≤ 1000001
next_bound_small b h = ground arith

get_remote_items-IsRecovering :
    (cs : List (RemoteRead × Tick)) (v : Victim) (n b t : ℕ)
    → IsRecovering n b t v
    → b ≤ 1000001
    → Probes n t cs
    → (u : ℕ) × IsRecovering n (bound_after (length cs) b) u (get_remote_items cs v)
unfolding get_remote_items
get_remote_items-IsRecovering [] v n b t h small ok = (t, h)
get_remote_items-IsRecovering ((r, k) ∷ cs) v n b t h small
      (later, word_lt, room, posts, swaps, ready, rest) =
    get_remote_items-IsRecovering cs (get_remote_item r k v).0 n (next_bound b) k.now
      (get_remote_item-IsRecovering r k v n b t h small later word_lt
        (h.slots, room, posts, swaps, ready))
      (next_bound_small b small) rest

bound_after_zero : (m : ℕ) → bound_after m 0 ≡ 0
bound_after_zero zero = refl
bound_after_zero (suc m) = bound_after_zero m

bound_after-add : (m n b : ℕ) → bound_after (m + n) b ≡ bound_after n (bound_after m b)
bound_after-add zero n b =
    let none_more : 0 + n ≡ n = omega arith in ap (λ (x : ℕ). bound_after x b) none_more
bound_after-add (suc m) n b =
    let one_more : suc m + n ≡ suc (m + n) = omega arith in
    ap (λ (x : ℕ). bound_after x b) one_more ∙ bound_after-add m n (next_bound b)

-- An overloaded process is no longer so after 43 calls, however bad the average was: when each is at
-- least 50 ms after the one before, is alone, has a free slot and finds its data at once.
pub get_remote_items-recovers :
    (cs : List (RemoteRead × Tick)) (v : Victim) (n t : ℕ)
    → v.victim_outstanding_rdma ≡ pos n
    → v.rdma_overloaded ≡ true
    → v.ewma_timeout_ppm ≤ 1000000
    → v.last_decay_ns ≤ t
    → v.last_probe_ns ≤ t
    → Probes n t cs
    → 43 ≤ length cs
    → ((get_remote_items cs v).rdma_overloaded ≡ false)
      × ((get_remote_items cs v).ewma_timeout_ppm ≤ 50000)
get_remote_items-recovers cs v n t count on average d p probes enough =
    let start : IsRecovering n 1000001 t v = record {
      slots = count;
      average = inr (on, omega arith);
      decay = d;
      probe = p;
    } in
    let (u, h) = get_remote_items-IsRecovering cs v n 1000001 t start (omega arith) probes in
    let split : 43 + (length cs - 43) ≡ length cs = omega arith in
    let none_left : bound_after (length cs) 1000001 ≡ 0 =
      ap (λ (x : ℕ). bound_after x 1000001) (sym split)
      ∙ bound_after-add 43 (length cs - 43) 1000001
      ∙ bound_after_zero (length cs - 43) in
    elim h.average [
      | inl low ↦ low
      | inr (still, below) ↦
          let below_none =
            subst (λ (x : ℕ). (get_remote_items cs v).ewma_timeout_ppm < x) none_left below in
          absurd (elim below_none [ ])
    ]
