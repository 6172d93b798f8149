-- ===== src/Tracker/Calls/Liveness.antt =====
-- Every call returns as long as the semaphore is posted, and none does once an allocation that fails has
-- kept it.
use mem_exchange.Prelude.{
  ◌<◌, ◌≡◌, ◌⊎◌, inl, inr, refl, ap, ◌∙◌, none, some, List, [], ◌∷◌, ◌++◌, arith, Double, Bool,
  true, false, Bool-cases,
}
use mem_exchange.Tracker.State.{Shm}
use mem_exchange.Tracker.Alloc.{shm_malloc, shm_malloc_spare}
use mem_exchange.Tracker.Calls.{Call, malloc, malloc_spare, spare_mem, call, calls}

module _ {D : Type 0} ⦃d : Double D⦄ where
  -- the memory after one call
  abbrev pub after : Call D → Shm D → Shm D
  after c s = elim (call c s) [ none ↦ s | some r ↦ r.1 ]

  -- the call is an allocation that returns NULL
  abbrev pub fails : Call D → Shm D → Bool
  fails (malloc os n) s = elim (shm_malloc os n s) [
    | none ↦ false
    | some (p, t) ↦ elim p [ none ↦ true | some a ↦ false ]
  ]
  fails (malloc_spare os n id) s = elim (shm_malloc_spare os n id s) [
    | none ↦ false
    | some (p, t) ↦ elim p [ none ↦ true | some a ↦ false ]
  ]
  fails c s = false

  pub call_returns :
      (c : Call D) (s : Shm D)
      → 0 < s.sem
      → fails c s ≡ false
      → (call c s ≡ some (tt, after c s)) × ((after c s).sem ≡ s.sem)
  unfolding call shm_malloc shm_malloc_spare
  call_returns (malloc os n) s h ok = ground arith
  call_returns (malloc_spare os n id) s h ok = ground arith
  call_returns (spare_mem ptr n cls id) s h ok = ground arith
  call_returns c s h ok = ground arith

  call-fails :
      (c : Call D) (s : Shm D)
      → s.sem ≡ 1
      → fails c s ≡ true
      → (call c s ≡ some (tt, after c s)) × ((after c s).sem ≡ 0)
  unfolding call shm_malloc shm_malloc_spare
  call-fails (malloc os n) s h bad = ground arith
  call-fails (malloc_spare os n id) s h bad = ground arith
  call-fails c s h bad = ground arith

  call_blocks : (c : Call D) (s : Shm D) → s.sem ≡ 0 → call c s ≡ none
  unfolding call shm_malloc shm_malloc_spare
  call_blocks (spare_mem ptr n cls id) s h = ground arith
  call_blocks c s h = ground arith

  abbrev pub Returns : List (Call D) → Shm D → Type 0
  Returns cs s = (s' : Shm D) × (calls cs s ≡ some s') × (s'.sem ≡ 1)

  -- an allocation fails after calls that return, and after it every call blocks
  abbrev pub Loses : List (Call D) → Shm D → Type 0
  Loses cs s =
      (before : List (Call D)) × (c : Call D) × (rest : List (Call D)) × (s₁ : Shm D) × (cs
        ≡ before ++ (c ∷ rest))
      × (calls before s ≡ some s₁)
      × (fails c s₁ ≡ true)
      × (call c s₁ ≡ some (tt, after c s₁))
      × ((b : Call D) → call b (after c s₁) ≡ none)

  -- With the semaphore free, any sequence of calls either runs to its end, and the semaphore is free
  -- again; or it has an allocation that fails, the calls before that return, it returns NULL itself, and
  -- after it no call of any process returns.
  pub calls_return : (cs : List (Call D)) (s : Shm D) → s.sem ≡ 1 → Returns cs s ⊎ Loses cs s
  unfolding calls
  calls_return [] s h = inl (s, refl, h)
  calls_return (c ∷ cs) s h = elim (Bool-cases (fails c s)) [
    | inl bad ↦
        let (run, lost) = call-fails c s h bad in
        inr ([], c, cs, s, refl, refl, bad, run, λ b. call_blocks b (after c s) lost)
    | inr ok ↦
        let (run, same) = call_returns c s (omega arith) ok in
        elim (calls_return cs (after c s) (same ∙ h)) [
          | inl (s', rest, free) ↦ inl (s', rw (run, calls) rest, free)
          | inr (before, b, rest, s₁, split, to_b, bad, at_b, blocked) ↦ inr (
            c ∷ before,
            b,
            rest,
            s₁,
            ap (λ (bs : List (Call D)). c ∷ bs) split,
            rw (run, calls) to_b,
            bad,
            at_b,
            blocked,
          )
        ]
  ]
