-- ===== src/Mtc/Soundness.antt =====
-- Between the steps of the tracker process of src/start_tracker.c the semaphore is free and the
-- identifier is a digit, and no step blocks.
use mem_exchange.Prelude.{
  ℕ, ◌<◌, ◌≤◌, ◌≡◌, ◌≢◌, ◌⊎◌, refl, Bool, List, ℤ, arith, Double, length, get_or, Option-cases, inl,
  inr,
}
use mem_exchange.Tracker.Scores.{set_scores}
use mem_exchange.Tracker.Calls.Liveness.{call_returns}
use mem_exchange.Mtc.State.{
  Text, Peer, Node, Run, done, after, awaiting_min, awaiting_port, N, ◌>>◌,
}
use mem_exchange.Mtc.Receiver.{
  on_high, on_port, on_accept, on_reject, on_finish, answer, judge, decide, on_response, recv_msg,
  poll_min, poll_port, msg_max,
}
use mem_exchange.Mtc.Sender.{broadcast_part, finish_part, timeout_part, sender_round}
use mem_exchange.Mtc.Process.{Step, receive, poll, poll_listener, sender, tenant, Reach, here, next}

pub record IsSound {D : Type 0} (n : Node D) : Type 0 where
  pub free : n.shm.sem ≡ 1
  pub digit : n.mc_id ≤ 9

-- A piece of a thread that goes on, and leaves a sound process.
abbrev pub Sound : {D : Type 0} → Run (Unit {0} × Node D) → Node D → Type 0
Sound r n = (r ≡ done (tt, after r n)) × IsSound (after r n)

Sound-done :
    {D : Type 0} (r : Run (Unit {0} × Node D)) (n m : Node D)
    → r ≡ done (tt, m)
    → IsSound m
    → Sound r n
Sound-done r n m e s = rw e (refl, s)

-- two pieces, one after the other
Sound->> :
    {D : Type 0} (p q : N D (Unit {0})) (n : Node D)
    → Sound (p n) n
    → ((m : Node D) → IsSound m → Sound (q m) m)
    → Sound ((p >> q) n) n
Sound->> p q n (run, s) rest =
    let m = after (p n) n in
    let (run', s') = rest m s in Sound-done ((p >> q) n) n (after (q m) m) (rw (run, ◌>>◌) run') s'

-- where a handler ends: it is over, or one of its two waiting loops begins
abbrev pub Ends : {D : Type 0} → Node D → Peer → List ℕ → Node D → Type 0
Ends n peer buffer m =
    (m.phase ≡ n.phase)
    ⊎ (((get_or buffer 0 0 ≡ b'H') × (m.phase ≡ awaiting_min peer (get_or buffer 1 0)))
        ⊎ ((get_or buffer 0 0 ≡ b'p') × (m.phase ≡ awaiting_port peer)))

module _ {D : Type 0} ⦃d : Double D⦄ (x : Text D) (heap : List ℕ) (n : Node D)
    (sound : IsSound n) where
  on_high-Sound : (peer : Peer) (buffer : List ℕ) → Sound (on_high x heap peer buffer n) n
  unfolding on_high
  on_high-Sound peer buffer = ground arith

  poll_min-Sound : (peer : Peer) (r : ℕ) (w : ℤ) → Sound (poll_min x heap peer r w n) n
  unfolding poll_min
  poll_min-Sound peer r w = ground arith

  on_port-Sound : (peer : Peer) (buffer : List ℕ) → Sound (on_port x heap peer buffer n) n
  unfolding on_port
  on_port-Sound peer buffer = ground arith

  poll_port-Sound : (peer : Peer) → Sound (poll_port x heap peer n) n
  unfolding poll_port
  poll_port-Sound peer = ground arith

  on_accept-Sound : (peer : Peer) → Sound (on_accept x heap peer n) n
  unfolding on_accept
  on_accept-Sound peer = ground arith

  on_reject-Sound : Sound (on_reject x heap n) n
  unfolding on_reject
  on_reject-Sound = ground arith

  on_finish-Sound : (peer : Peer) (buffer : List ℕ) → Sound (on_finish x heap peer buffer n) n
  unfolding on_finish
  on_finish-Sound peer buffer = ground arith

  broadcast-Sound : (group : Peer) → Sound (broadcast_part x heap group n) n
  unfolding broadcast_part
  broadcast-Sound group = ground arith

  finish-Sound : (group : Peer) → Sound (finish_part x heap group n) n
  unfolding finish_part
  finish-Sound group = ground arith

  timeout-Sound : (group : Peer) (expired : Bool) → Sound (timeout_part x heap group expired n) n
  unfolding timeout_part
  timeout-Sound group expired = ground arith

  answer-Sound : (peer : Peer) (r : ℕ) (score : D) → Sound (answer x heap peer r score n) n
  unfolding answer judge decide set_scores
  answer-Sound peer r score = ground arith

  on_response-Sound : (peer : Peer) (buffer : List ℕ) → Sound (on_response x heap peer buffer n) n
  unfolding on_response
  on_response-Sound peer buffer = elim (Option-cases (x.scan_response buffer)) [
    | inl e ↦ rw (e, on_response) (refl, sound)
    | inr ((r, score, w), e) ↦ rw (e, on_response) (answer-Sound peer r score)
  ]

  handled-Sound :
      (peer : Peer) (buffer : List ℕ)
      → length buffer < msg_max
      → (length buffer ≢ 1) ⊎ (get_or buffer 0 0 ≢ b'H')
      → Sound (recv_msg x heap peer buffer n) n
  unfolding recv_msg
  handled-Sound peer buffer short whole = ground (
    arith,
    on_high-Sound peer buffer,
    on_response-Sound peer buffer,
    on_port-Sound peer buffer,
    on_accept-Sound peer,
    on_reject-Sound,
    on_finish-Sound peer buffer,
  )

  on_high-phase :
      (peer : Peer) (buffer : List ℕ)
      → ((after (on_high x heap peer buffer n) n).phase ≡ n.phase)
        ⊎ ((after (on_high x heap peer buffer n) n).phase ≡ awaiting_min peer (get_or buffer 1 0))
  unfolding on_high
  on_high-phase peer buffer = ground arith

  on_port-phase :
      (peer : Peer) (buffer : List ℕ)
      → ((after (on_port x heap peer buffer n) n).phase ≡ n.phase)
        ⊎ ((after (on_port x heap peer buffer n) n).phase ≡ awaiting_port peer)
  unfolding on_port
  on_port-phase peer buffer = ground arith

  on_accept-phase : (peer : Peer) → (after (on_accept x heap peer n) n).phase ≡ n.phase
  unfolding on_accept
  on_accept-phase peer = ground arith

  on_reject-phase : (after (on_reject x heap n) n).phase ≡ n.phase
  unfolding on_reject
  on_reject-phase = ground arith

  on_finish-phase :
      (peer : Peer) (buffer : List ℕ) → (after (on_finish x heap peer buffer n) n).phase ≡ n.phase
  unfolding on_finish
  on_finish-phase peer buffer = ground arith

  answer-phase :
      (peer : Peer) (r : ℕ) (score : D) → (after (answer x heap peer r score n) n).phase ≡ n.phase
  unfolding answer judge decide set_scores
  answer-phase peer r score = ground arith

  on_response-phase :
      (peer : Peer) (buffer : List ℕ) → (after (on_response x heap peer buffer n) n).phase ≡ n.phase
  unfolding on_response
  on_response-phase peer buffer = elim (Option-cases (x.scan_response buffer)) [
    | inl e ↦ rw (e, on_response) refl
    | inr ((r, score, w), e) ↦ rw (e, on_response) (answer-phase peer r score)
  ]

  handled-Ends :
      (peer : Peer) (buffer : List ℕ) → Ends n peer buffer (after (recv_msg x heap peer buffer n) n)
  unfolding recv_msg
  handled-Ends peer buffer = ground (
    arith,
    on_high-phase peer buffer,
    on_response-phase peer buffer,
    on_port-phase peer buffer,
    on_accept-phase peer,
    on_reject-phase,
    on_finish-phase peer buffer,
  )

  -- A packet that fits the buffer, and is no lone 'H', is handled without waiting for a semaphore in
  -- vain, and no semaphore is kept. The handler then is over, or it stands before one of its two waiting
  -- loops: for a candidate after an 'H', for the listener's port after a 'p'.
  pub recv_msg-Sound :
      (peer : Peer) (buffer : List ℕ)
      → length buffer < msg_max
      → (length buffer ≢ 1) ⊎ (get_or buffer 0 0 ≢ b'H')
      → Sound (recv_msg x heap peer buffer n) n
        × Ends n peer buffer (after (recv_msg x heap peer buffer n) n)
  recv_msg-Sound peer buffer short whole =
      (handled-Sound peer buffer short whole, handled-Ends peer buffer)

module _ {D : Type 0} ⦃d : Double D⦄ (x : Text D) (heap : List ℕ) (group : Peer) where
  -- A round of the sender goes on to its end, whatever is to be sent and whether the wait has expired.
  pub sender_round-Sound :
      (expired : Bool) (n : Node D) → IsSound n → Sound (sender_round x heap group expired n) n
  unfolding sender_round
  sender_round-Sound expired n sound =
      Sound->> (broadcast_part x heap group) _ n (broadcast-Sound x heap n sound group) λ m s.
        Sound->> (finish_part x heap group) (timeout_part x heap group expired) m
          (finish-Sound x heap m s group) λ k t. timeout-Sound x heap k t group expired

  received-IsSound :
      (peer : Peer) (buffer : List ℕ) (n m : Node D)
      → IsSound n
      → recv_msg x heap peer buffer n ≡ done (tt, m)
      → IsSound m
  unfolding recv_msg
  received-IsSound peer buffer n m sound e = ground (
    arith,
    on_high-Sound x heap n sound peer buffer,
    on_response-Sound x heap n sound peer buffer,
    on_port-Sound x heap n sound peer buffer,
    on_accept-Sound x heap n sound peer,
    on_reject-Sound x heap n sound,
    on_finish-Sound x heap n sound peer buffer,
  )

  from_Sound :
      (r : Run (Unit {0} × Node D)) (n m : Node D) → Sound r n → r ≡ done (tt, m) → IsSound m
  from_Sound r n m (run, s) e = rw e at s

module _ {D : Type 0} ⦃d : Double D⦄ (x : Text D) (group : Peer) where
  Step-IsSound : {n m : Node D} → Step x group n m → IsSound n → IsSound m
  Step-IsSound (receive heap peer buffer at e) s = received-IsSound x heap group peer buffer _ _ s e
  Step-IsSound (poll heap peer r w at e) s =
      from_Sound x heap group _ _ _ (poll_min-Sound x heap _ s peer r w) e
  Step-IsSound (poll_listener heap peer at e) s =
      from_Sound x heap group _ _ _ (poll_port-Sound x heap _ s peer) e
  Step-IsSound (sender heap expired e) s =
      from_Sound x heap group _ _ _ (sender_round-Sound x heap group expired _ s) e
  Step-IsSound {n} (tenant c ok e moved) s =
      let (run, same) = call_returns c n.shm (omega arith) ok in ground arith

  -- Whatever packets arrive and whatever the tenants call, as long as none of their allocations fails,
  -- the tracker process keeps the semaphore free between steps and its identifier between 0 and 9.
  pub Reach-IsSound : {n m : Node D} → IsSound n → Reach x group n m → IsSound m
  Reach-IsSound s here = s
  Reach-IsSound s (next r step) = Step-IsSound step (Reach-IsSound s r)
