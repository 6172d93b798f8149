-- ===== src/Tracker/Calls/Locks.antt =====
-- The three locks over a sequence of calls: each is held from the call that takes it to the call that
-- releases it, and a candidate under its lock stays the candidate.
use mem_exchange.Prelude.{
  ◌<◌, ◌≡◌, Bool, true, false, some, List, [], ◌∷◌, All, ℤ, ◌==ℤ◌, ◌&&◌, arith, Double,
  Option-cases, inl, inr, subst,
}
use mathlib.Core.Option.{some-injective}
use mem_exchange.Tracker.State.{Shm}
use mem_exchange.Tracker.Scores.{
  withdraw_min, propose_min, propose_max, lock_max_score, lock_min_score,
}
use mem_exchange.Tracker.Flags.{lock_spare}
use mem_exchange.Tracker.Alloc.{shm_malloc, shm_malloc_spare}
use mem_exchange.Tracker.Calls.{
  Call, malloc, malloc_spare, spare_mem, spare_release, max_unlock, min_unlock, scores, call, calls,
}

module _ {D : Type 0} where
  abbrev pub releases_spare : Call D → Bool
  releases_spare spare_release = true
  releases_spare _ = false

  abbrev pub releases_max : Call D → Bool
  releases_max max_unlock = true
  releases_max _ = false

  abbrev pub releases_min : Call D → Bool
  releases_min min_unlock = true
  releases_min _ = false

  -- a property of the memory that no call of a sequence breaks
  module _ ⦃d : Double D⦄ (P : Call D → Type 0) (Q : Shm D → Type 0)
      (keep : (c : Call D) (s s' : Shm D) → P c → Q s → call c s ≡ some (tt, s') → Q s') where
    calls_keep : (cs : List (Call D)) (s s' : Shm D) → All P cs → Q s → calls cs s ≡ some s' → Q s'
    unfolding calls
    calls_keep [] s s' p q e = subst Q (some-injective _ _ e) q
    calls_keep (c ∷ cs) s s' p q e = elim (Option-cases (call c s)) [
      | inl blocked ↦ cc
      | inr ((u, t), run) ↦ calls_keep cs t s' p.1 (keep c s t p.0 q run) (rw (run, calls) at e)
    ]

module _ {D : Type 0} ⦃d : Double D⦄ where
  spare_kept :
      (c : Call D) (s s' : Shm D)
      → releases_spare c ≡ false
      → s.track.spare_lock ≡ true
      → call c s ≡ some (tt, s')
      → s'.track.spare_lock ≡ true
  unfolding call shm_malloc shm_malloc_spare withdraw_min propose_min propose_max
  spare_kept (malloc os k) s s' p q e = ground arith
  spare_kept (malloc_spare os k own) s s' p q e = ground arith
  spare_kept (spare_mem ptr n cls id) s s' p q e = ground arith
  spare_kept c s s' p q e = ground arith

  max_kept :
      (id : ℤ) (c : Call D) (s s' : Shm D)
      → releases_max c ≡ false
      → (s.track.max_score_lock ≡ true) × (s.track.max_id ≡ id)
      → call c s ≡ some (tt, s')
      → (s'.track.max_score_lock ≡ true) × (s'.track.max_id ≡ id)
  unfolding call shm_malloc shm_malloc_spare withdraw_min propose_min propose_max
  max_kept id (malloc os k) s s' p q e = ground arith
  max_kept id (malloc_spare os k own) s s' p q e = ground arith
  max_kept id (spare_mem ptr n cls own) s s' p q e = ground arith
  max_kept id c s s' p q e = ground arith

  -- a call that may end the candidacy of `id` as the victim
  abbrev pub ends_min : ℤ → Call D → Bool
  ends_min id (scores sc1 sc2 own) = d.eq sc2 d.dbl_max && own ==ℤ id
  ends_min id c = releases_min c

  min_kept :
      (id : ℤ) (c : Call D) (s s' : Shm D)
      → ends_min id c ≡ false
      → (s.track.min_score_lock ≡ true) × (s.track.min_id ≡ id)
      → call c s ≡ some (tt, s')
      → (s'.track.min_score_lock ≡ true) × (s'.track.min_id ≡ id)
  unfolding call shm_malloc shm_malloc_spare withdraw_min propose_min propose_max
  min_kept id (malloc os k) s s' p q e = ground arith
  min_kept id (malloc_spare os k own) s s' p q e = ground arith
  min_kept id (spare_mem ptr n cls own) s s' p q e = ground arith
  min_kept id c s s' p q e = ground arith

  -- After `lock_spare` has succeeded, it fails until the spare page's lock is released, whatever the
  -- other calls do.
  pub lock_spare_excludes :
      (cs : List (Call D)) (s s₁ s₂ : Shm D)
      → lock_spare s ≡ some (true, s₁)
      → All (λ c. releases_spare c ≡ false) cs
      → calls cs s₁ ≡ some s₂
      → 0 < s₂.sem
      → lock_spare s₂ ≡ some (false, s₂)
  unfolding lock_spare
  lock_spare_excludes cs s s₁ s₂ taken others run free =
      let held : s₁.track.spare_lock ≡ true = ground arith in
      let still =
        calls_keep _ (λ t. t.track.spare_lock ≡ true) spare_kept cs s₁ s₂ others held run in
      ground arith

  -- After `lock_max_score` has succeeded, it fails and the victor's id stays what it was, until
  -- `unlock_max_score` is called.
  pub lock_max_score_excludes :
      (cs : List (Call D)) (s s₁ s₂ : Shm D)
      → lock_max_score s ≡ some (true, s₁)
      → All (λ c. releases_max c ≡ false) cs
      → calls cs s₁ ≡ some s₂
      → 0 < s₂.sem
      → (lock_max_score s₂ ≡ some (false, s₂)) × (s₂.track.max_id ≡ s.track.max_id)
  unfolding lock_max_score
  lock_max_score_excludes cs s s₁ s₂ taken others run free =
      let id = s.track.max_id in
      let held : (s₁.track.max_score_lock ≡ true) × (s₁.track.max_id ≡ id) = ground arith in
      let still =
        calls_keep _ (λ t. (t.track.max_score_lock ≡ true) × (t.track.max_id ≡ id)) (max_kept id) cs
          s₁ s₂ others held run in
      ground arith

  -- After `lock_min_score` has returned 2, it returns 0 and the victim's id stays what it was, until
  -- `unlock_min_score` is called or the victim itself reports the score `__DBL_MAX__`.
  pub lock_min_score_excludes :
      (cs : List (Call D)) (s s₁ s₂ : Shm D)
      → lock_min_score s ≡ some (2, s₁)
      → All (λ c. ends_min s.track.min_id c ≡ false) cs
      → calls cs s₁ ≡ some s₂
      → 0 < s₂.sem
      → (lock_min_score s₂ ≡ some (0, s₂)) × (s₂.track.min_id ≡ s.track.min_id)
  unfolding lock_min_score
  lock_min_score_excludes cs s s₁ s₂ taken others run free =
      let id = s.track.min_id in
      let held : (s₁.track.min_score_lock ≡ true) × (s₁.track.min_id ≡ id) = ground arith in
      let still =
        calls_keep _ (λ t. (t.track.min_score_lock ≡ true) × (t.track.min_id ≡ id)) (min_kept id) cs
          s₁ s₂ others held run in
      ground arith
