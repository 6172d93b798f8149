-- ===== src/Tracker/Scores/Candidates.antt =====
-- What `set_scores` of src/shm_malloc.c does to the victor and the victim.
use mem_exchange.Prelude.{ℤ, ◌≡◌, ◌≢◌, true, false, some, arith, Double}
use mem_exchange.Tracker.State.{Shm}
use mem_exchange.Tracker.Scores.{no_id, withdraw_min, propose_min, propose_max, set_scores}

module _ {D : Type 0} ⦃d : Double D⦄ where
  -- No report lowers the highest score, and without the lock none leaves it below the reported one;
  -- under the lock the victor and its score stay.
  pub set_scores_raises :
      (sc1 sc2 : D) (id : ℤ) (s s' : Shm D)
      → set_scores sc1 sc2 id s ≡ some (tt, s')
      → (d.lt s'.track.max_score s.track.max_score ≡ false)
        × (s.track.max_score_lock ≡ false → d.lt s'.track.max_score sc1 ≡ false)
        × (s.track.max_score_lock ≡ true
            → (s'.track.max_score ≡ s.track.max_score) × (s'.track.max_id ≡ s.track.max_id))
  unfolding set_scores withdraw_min propose_min propose_max
  set_scores_raises sc1 sc2 id s s' e = ground (
    arith,
    d.lt_irrefl sc1,
    d.lt_irrefl s.track.max_score,
    d.lt_trans s.track.max_score sc1 s.track.max_score,
  )

  -- A tenant that becomes the victor by its report is not the victim after it, if neither lock is
  -- held.
  pub set_scores_separates :
      (sc1 sc2 : D) (id : ℤ) (s s' : Shm D)
      → id ≢ no_id
      → s.track.max_score_lock ≡ false
      → s.track.min_score_lock ≡ false
      → d.lt s.track.max_score sc1 ≡ true
      → set_scores sc1 sc2 id s ≡ some (tt, s')
      → (s'.track.max_id ≡ id) × (s'.track.min_id ≢ id)
  unfolding set_scores withdraw_min propose_min propose_max
  set_scores_separates sc1 sc2 id s s' real m l up e = ground (arith)

  -- A victor that reports no higher score than its recorded one, and a lower score than the victim's,
  -- becomes the victim too.
  pub set_scores_both :
      (sc1 sc2 : D) (s s' : Shm D)
      → s.track.min_score_lock ≡ false
      → d.lt s.track.max_score sc1 ≡ false
      → d.lt sc2 s.track.min_score ≡ true
      → d.eq sc2 d.dbl_max ≡ false
      → set_scores sc1 sc2 s.track.max_id s ≡ some (tt, s')
      → (s'.track.max_id ≡ s.track.max_id) × (s'.track.min_id ≡ s.track.max_id)
  unfolding set_scores withdraw_min propose_min propose_max
  set_scores_both sc1 sc2 s s' l keep low e b = ground arith
