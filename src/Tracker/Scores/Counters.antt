-- ===== src/Tracker/Scores/Counters.antt =====
-- The counters by which a candidate is confirmed: `compare_minID` and `compare_maxID` of
-- src/shm_malloc.c.
use mem_exchange.Prelude.{
  ℕ, zero, suc, ◌+◌, ◌<◌, ◌≡◌, ◌≢◌, ◌^◌, refl, ap, sym, subst, ◌∙◌, Option, none, some, ℤ, pos,
  arith, Double,
}
use mathlib.Core.Option.{some-injective}
use mem_exchange.Tracker.State.{Tracker, Shm}
use mem_exchange.Tracker.Scores.{
  no_id, scored, withdraw_min, propose_min, propose_max, set_scores, set_scores-free,
  compare_min_id,
}

module _ {D : Type 0} where
  -- `compare_minID` called `k` more times by one tenant, with its last result
  unfoldable pub min_rounds : ℕ → ℤ → D → Shm D → ℤ → Option (ℤ × Shm D)
  min_rounds zero id sc s b = some (b, s)
  min_rounds (suc k) id sc s b = elim (compare_min_id id sc s) [
    | none ↦ none
    | some (b', s') ↦ min_rounds k id sc s' b'
  ]

  min_round :
      (id : ℤ) (sc : D) (s : Shm D) (c : ℕ)
      → 0 < s.sem
      → s.track.min_id ≡ id
      → s.track.min_counter ≡ pos c
      → c + 1 < 2 ^ 31
      → compare_min_id id sc s
        ≡ some (
          pos (c + 1),
          record s { track = record s.track { min_score = sc; min_counter = pos (c + 1) } },
        )
  unfolding compare_min_id
  min_round id sc s c free cand count small = ground arith

  min_rounds-eq :
      (k : ℕ) (id : ℤ) (sc : D) (s : Shm D) (c : ℕ)
      → 0 < s.sem
      → s.track.min_id ≡ id
      → s.track.min_counter ≡ pos c
      → c + k < 2 ^ 31
      → (t : Shm D) × (min_rounds k id sc s (pos c) ≡ some (pos (c + k), t))
  unfolding min_rounds
  min_rounds-eq zero id sc s c free cand count small = (s, ground arith)
  min_rounds-eq (suc k) id sc s c free cand count small =
      let step = min_round id sc s c free cand count (omega arith) in
      let s' : Shm D = record s {
        track = record s.track { min_score = sc; min_counter = pos (c + 1) };
      } in
      let (t, run) = min_rounds-eq k id sc s' (c + 1) free cand refl (omega arith) in
      (t, rw (step, min_rounds) (run ∙ ground arith))

  -- A call by another tenant returns 0 and changes nothing.
  pub compare_min_id_other :
      (id : ℤ) (sc : D) (s : Shm D)
      → 0 < s.sem
      → id ≢ s.track.min_id
      → compare_min_id id sc s ≡ some (pos 0, s)
  unfolding compare_min_id
  compare_min_id_other id sc s free other = ground arith

module _ {D : Type 0} ⦃d : Double D⦄ where
  fresh_counter :
      (sc1 sc2 : D) (id : ℤ) (t : Tracker D)
      → id ≢ no_id
      → t.min_id ≢ id
      → (scored sc1 sc2 id t).min_id ≡ id
      → (scored sc1 sc2 id t).min_counter ≡ pos 0
  unfolding withdraw_min propose_min propose_max
  fresh_counter sc1 sc2 id t real new now = ground arith

  -- A tenant that a report has just made the victim counts its rounds from the start: after `k` calls
  -- of `compare_minID` the last has returned `k`, whatever the previous victim had counted.
  pub min_rounds_new :
      (k : ℕ) (sc1 sc2 sc : D) (id : ℤ) (s s' : Shm D)
      → k < 2 ^ 31
      → 0 < s.sem
      → id ≢ no_id
      → s.track.min_id ≢ id
      → set_scores sc1 sc2 id s ≡ some (tt, s')
      → s'.track.min_id ≡ id
      → (t : Shm D) × (min_rounds k id sc s' (pos 0) ≡ some (pos k, t))
  min_rounds_new k sc1 sc2 sc id s s' small free real new e now =
      let u : Shm D = record s { track = scored sc1 sc2 id s.track } in
      let same : u ≡ s' =
        ap (λ (p : Unit {0} × Shm D). p.1)
          (some-injective _ _ (sym (set_scores-free sc1 sc2 id s free) ∙ e)) in
      let cand : u.track.min_id ≡ id = ap (λ (v : Shm D). v.track.min_id) same ∙ now in
      let zero_add : 0 + k ≡ k = omega arith in
      subst (λ (j : ℕ). (t : Shm D) × (min_rounds k id sc s' (pos 0) ≡ some (pos j, t))) zero_add
        (subst (λ (v : Shm D). (t : Shm D) × (min_rounds k id sc v (pos 0) ≡ some (pos (0 + k), t)))
          same
          (min_rounds-eq k id sc u 0 free cand (fresh_counter sc1 sc2 id s.track real new cand)
            (omega arith)))
