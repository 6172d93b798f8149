-- ===== src/Tracker/Scores.antt =====
-- The scores in src/shm_malloc.c: the candidate with the highest score gains a page (the victor),
-- the one with the lowest gives one up (the victim). The ids of local tenants are their ports.
pub mod Candidates
pub mod Counters
use mem_exchange.Prelude.{
  ℕ, ◌≡◌, ◌<◌, some, arith, Bool, true, false, not, ◌&&◌, ℤ, pos, negsuc, ◌==ℤ◌, ltb_ℤ, int_suc,
  ◌+ℤ◌, if◌then◌else◌, Double,
}
use mem_exchange.Tracker.State.{Tracker, Shm, M, locked}

abbrev pub no_id : ℤ
no_id = negsuc 0

module _ {D : Type 0} ⦃d : Double D⦄ where
  -- the three tests of `set_scores`, in their order
  unfoldable pub withdraw_min : D → ℤ → Tracker D → Tracker D
  withdraw_min sc2 id t =
      if d.eq sc2 d.dbl_max && t.min_id ==ℤ id
      then record t { min_id = no_id; min_score = d.worst; victim_potential = false }
      else t

  unfoldable pub propose_min : D → ℤ → Tracker D → Tracker D
  propose_min sc2 id t =
      if d.lt sc2 t.min_score && not t.min_score_lock
      then record t {
        min_counter = if t.min_id ==ℤ id then t.min_counter else pos 0;
        min_id = id;
        min_score = sc2;
        victim_potential = if ltb_ℤ id (pos 99999) then true else t.victim_potential;
      }
      else t

  unfoldable pub propose_max : D → ℤ → Tracker D → Tracker D
  propose_max sc1 id t =
      if d.lt t.max_score sc1 && not t.max_score_lock
      then (let t' = record t {
        max_counter = if t.max_id ==ℤ id then t.max_counter else pos 0;
        max_id = id;
        max_score = sc1;
      } in
          if t'.min_id ==ℤ id && not t'.min_score_lock
          then record t' { min_id = no_id; min_score = d.worst }
          else t')
      else t

  abbrev pub scored : D → D → ℤ → Tracker D → Tracker D
  scored sc1 sc2 id t = propose_max sc1 id (propose_min sc2 id (withdraw_min sc2 id t))

  unfoldable pub set_scores : D → D → ℤ → M D (Unit {0})
  unfolding locked
  set_scores sc1 sc2 id = locked (λ t. (tt, scored sc1 sc2 id t))

  pub set_scores-free :
      (sc1 sc2 : D) (id : ℤ) (s : Shm D)
      → 0 < s.sem
      → set_scores sc1 sc2 id s ≡ some (tt, record s { track = scored sc1 sc2 id s.track })
  unfolding set_scores
  set_scores-free sc1 sc2 id s free = ground arith

  unfoldable pub reset_min_score : M D (Unit {0})
  unfolding locked
  reset_min_score =
      locked (λ t.
        (tt, if t.min_score_lock then t else record t { min_score = d.worst; min_id = no_id }))

  unfoldable pub unlock_max_score : M D (Unit {0})
  unfolding locked
  unlock_max_score =
      locked
        (λ t. (tt, record t { max_score_lock = false; max_score = d.minus_one; max_id = no_id }))

module _ {D : Type 0} where
  -- the counter after the increment, or 0 when `id` is not the candidate
  unfoldable pub compare_min_id : ℤ → D → M D ℤ
  unfolding locked ◌+ℤ◌
  compare_min_id id sc = locked λ t.
      let b = int_suc t.min_counter in
      if id ==ℤ t.min_id then (b, record t { min_score = sc; min_counter = b }) else (pos 0, t)

  unfoldable pub compare_max_id : ℤ → D → M D ℤ
  unfolding locked ◌+ℤ◌
  compare_max_id id sc = locked λ t.
      let b = int_suc t.max_counter in
      if id ==ℤ t.max_id then (b, record t { max_score = sc; max_counter = b }) else (pos 0, t)

  unfoldable pub lock_max_score : M D Bool
  unfolding locked
  lock_max_score =
      locked
        (λ t. if t.max_score_lock then (false, t) else (true, record t { max_score_lock = true }))

  -- 1: there is no candidate; 2: the lock was taken; 0: it is held
  unfoldable pub lock_min_score : M D ℕ
  unfolding locked
  lock_min_score = locked λ t.
      if t.min_id ==ℤ no_id
      then (1, t)
      else if t.min_score_lock
      then (0, t)
      else (2, record t { min_score_lock = true })

  unfoldable pub unlock_min_score : M D (Unit {0})
  unfolding locked
  unlock_min_score = locked (λ t. (tt, record t { min_score_lock = false }))
