-- ===== src/Mtc/Receiver/Victim.antt =====
-- The victim's side of src/start_tracker.c: the local candidate is locked while a requester decides.
use mem_exchange.Prelude.{
  ℕ, ◌-◌, ◌<◌, ◌≡◌, ◌≢◌, true, false, List, ◌∷◌, length, ℤ, arith, Double, ◌⊎◌,
}
use mem_exchange.Tracker.Scores.{no_id}
use mem_exchange.Mtc.State.{Text, Peer, listening, Node, done}
use mem_exchange.Mtc.Receiver.{msg_max, poll_min, on_reject}

module _ {D : Type 0} ⦃d : Double D⦄ (x : Text D) (heap : List ℕ) where
  -- With a local candidate that is not locked and a response that fits its buffer, one round of the
  -- loop locks the candidate, sends its score, and waits for the requester.
  pub poll_min_sends :
      (peer : Peer) (r_mc_id : ℕ) (wait_ns : ℤ) (n : Node D)
      → 0 < n.shm.sem
      → n.shm.track.min_id ≢ no_id
      → n.shm.track.min_score_lock ≡ false
      → length (x.show_response n.shm.track.min_score wait_ns) < msg_max - 2
      → poll_min x heap peer r_mc_id wait_ns n
        ≡ done (
          tt,
          record n {
            shm = record n.shm { track = record n.shm.track { min_score_lock = true } };
            waiting = true;
            phase = listening;
            sent = (peer, b's' ∷ r_mc_id ∷ x.show_response n.shm.track.min_score wait_ns) ∷ n.sent;
          },
        )
  unfolding poll_min
  poll_min_sends peer r_mc_id wait_ns n free cand unlocked fits = ground arith

  -- Without a candidate, or with a locked one, a round changes nothing, and the loop goes on.
  pub poll_min_waits :
      (peer : Peer) (r_mc_id : ℕ) (wait_ns : ℤ) (n : Node D)
      → 0 < n.shm.sem
      → (n.shm.track.min_id ≡ no_id) ⊎ (n.shm.track.min_score_lock ≡ true)
      → poll_min x heap peer r_mc_id wait_ns n ≡ done (tt, n)
  unfolding poll_min
  poll_min_waits peer r_mc_id wait_ns n free stuck = ground arith

  -- A rejection ends the wait and unlocks the candidate, which stays the candidate.
  pub on_reject_unlocks :
      (n n' : Node D)
      → on_reject x heap n ≡ done (tt, n')
      → (n'.waiting ≡ false)
        × (n'.shm.track.min_score_lock ≡ false)
        × (n'.shm.track.min_id ≡ n.shm.track.min_id)
        × (n'.shm.sem ≡ n.shm.sem)
  unfolding on_reject
  on_reject_unlocks n n' e = ground arith
