-- ===== src/Overload/Slots.antt =====
-- The slots of src/rdma_util.c for outstanding reads, in every interleaving of calls.
use mem_exchange.Prelude.{
  ℕ, zero, suc, ◌+◌, ◌<◌, ◌≤◌, ◌≡◌, ◌⊎◌, ◌+ℤ◌, ap, ◌∙◌, inl, inr, some, [], ◌∷◌, pos, arith,
  get_elem?, set,
}
use mathlib.Core.Option.{some-injective, none-ne-some}
use mem_exchange.Overload.{
  Point, Victim, RemoteRead, Tick, Calls, step, latch, place, Reach, begun, called, moved,
}

-- a call with a read of its own under way
abbrev pub reads : Point → ℕ
reads Point.admitted = 1
reads Point.posted = 1
reads (Point.waiting w) = 1
reads (Point.spun w) = 1
reads (Point.sampling s ok) = 1
reads (Point.swapping s old ok) = 1
reads (Point.releasing ok) = 1
reads p = 0

-- a call that the counter counts: one with a read, or one that is about to take itself off again
abbrev pub counted : Point → ℕ
counted Point.refused = 1
counted p = reads p

abbrev pub total : (Point → ℕ) → Calls → ℕ
total f [] = 0
total f ((r, p) ∷ cs) = f p + total f cs

total-set :
    (f : Point → ℕ) (cs : Calls) (i : ℕ) (r : RemoteRead) (p q : Point)
    → get_elem? cs i ≡ some (r, p)
    → total f (set cs i (r, q)) + f p ≡ total f cs + f q
total-set f [] i r p q e = absurd (none-ne-some _ e)
total-set f ((s, x) ∷ cs) zero r p q e =
    let here : f x ≡ f p = ap (λ (y : RemoteRead × Point). f y.1) (some-injective _ _ e) in
    omega arith
total-set f ((s, x) ∷ cs) (suc i) r p q e = omega (arith, total-set f cs i r p q e)

-- One step moves the counter as it moves the calls that are counted, and admits below the cap only.
step-counted :
    (r : RemoteRead) (k : Tick) (v : Victim) (p : Point) (n : ℕ)
    → v.victim_outstanding_rdma ≡ pos (counted p + n)
    → ((step r k v p).0.victim_outstanding_rdma ≡ pos (counted (step r k v p).1 + n))
      × ((reads (step r k v p).1 ≤ reads p)
          ⊎ ((n < 256) × (reads p ≡ counted p) × (reads (step r k v p).1 ≤ 1)))
unfolding step place latch ◌+ℤ◌
step-counted r k v (Point.releasing ok) n e = ground arith
step-counted r k v p n e = ground arith

-- The counter is exact, and the calls with a read stay within the cap.
pub record IsCapped (v : Victim) (cs : Calls) : Type 0 where
  pub exact : v.victim_outstanding_rdma ≡ pos (total counted cs)
  pub capped : total reads cs ≤ 256

reads_le_counted : (cs : Calls) → total reads cs ≤ total counted cs
reads_le_counted [] = omega arith
reads_le_counted ((r, p) ∷ cs) =
    let head : reads p ≤ counted p = le_counted p in omega (arith, reads_le_counted cs)
  where
    le_counted : (p : Point) → reads p ≤ counted p
    le_counted p = ground arith

-- the other calls, when one of them is left out
total-without :
    (f : Point → ℕ) (cs : Calls) (i : ℕ) (r : RemoteRead) (p : Point)
    → get_elem? cs i ≡ some (r, p)
    → (n : ℕ) × (total f cs ≡ f p + n)
total-without f [] i r p e = absurd (none-ne-some _ e)
total-without f ((s, x) ∷ cs) zero r p e =
    (total f cs, ap (λ (y : RemoteRead × Point). f y.1 + total f cs) (some-injective _ _ e))
total-without f ((s, x) ∷ cs) (suc i) r p e =
    let (n, h) = total-without f cs i r p e in (f x + n, omega arith)

moved-IsCapped :
    (v : Victim) (cs : Calls) (i : ℕ) (k : Tick) (r : RemoteRead) (p : Point)
    → IsCapped v cs
    → get_elem? cs i ≡ some (r, p)
    → IsCapped (step r k v p).0 (set cs i (r, (step r k v p).1))
moved-IsCapped v cs i k r p h e =
    let q = (step r k v p).1 in
    let (n, others) = total-without counted cs i r p e in
    let (count, cap) = step-counted r k v p n (h.exact ∙ ap pos others) in
    let c = total-set counted cs i r p q e in
    let d = total-set reads cs i r p q e in
    let below = reads_le_counted cs in
    let room = h.capped in
    record {
      exact = count ∙ ap pos (omega arith);
      capped = elim cap [ inl le ↦ omega arith | inr (lt, same, one) ↦ omega arith ];
    }

-- From a counter of 0, in every interleaving of calls: `victim_outstanding_rdma` is the number of the
-- calls that hold a slot or are about to give back the one they were refused, and at most 256 calls
-- are reading.
pub get_remote_item-IsCapped :
    (v₀ v : Victim) (cs : Calls)
    → v₀.victim_outstanding_rdma ≡ pos 0
    → Reach v₀ v cs
    → IsCapped v cs
get_remote_item-IsCapped v₀ v cs z begun = record { exact = z; capped = omega arith }
get_remote_item-IsCapped v₀ v cs z (called u ds r before) =
    let h = get_remote_item-IsCapped v₀ u ds z before in
    let room = h.capped in record { exact = h.exact ∙ ap pos (omega arith); capped = omega arith }
get_remote_item-IsCapped v₀ v cs z (moved u ds i k r p before e) =
    moved-IsCapped u ds i k r p (get_remote_item-IsCapped v₀ u ds z before) e
