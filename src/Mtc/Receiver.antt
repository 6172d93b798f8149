-- ===== src/Mtc/Receiver.antt =====
-- `recv_msg` and `receiver_routine` of src/start_tracker.c. The two loops that wait for another process
-- are steps of their own, between which other processes may run.
pub mod Responses
pub mod Victim
use mem_exchange.Prelude.{
  ℕ, zero, suc, ◌+◌, ◌-◌, Bool, true, false, not, Option, none, some, List, [], ◌∷◌, ◌++◌, take,
  length, get_or, drop, ltb, leb, ◌==◌, ◌&&◌, ◌||◌, ℤ, pos, ◌==ℤ◌, ltb_ℤ, if◌then◌else◌, Double,
}
use mem_exchange.Tracker.State.{Tracker, get_tracker}
use mem_exchange.Tracker.Scores.{
  set_scores, reset_min_score, unlock_max_score, compare_min_id, compare_max_id, lock_min_score,
  unlock_min_score,
}
use mem_exchange.Tracker.Flags.{lock_spare, set_rdma_server_info}
use mem_exchange.Mtc.State.{
  Text, Peer, Phase, listening, awaiting_min, awaiting_port, Node, Run, done, blocked, undefined, N,
  ◌>>=◌, ◌>>◌, skip, shared, send, goto, set_waiting, set_client, pointer_bytes, sender_id,
}

abbrev pub msg_max : ℕ
msg_max = 64

-- `char access_port_n[10]`, printed into by `snprintf`, and the message that carries it
abbrev pub port_message : {D : Type 0} → Text D → List ℕ → ℤ → List ℕ
port_message x heap port = pointer_bytes heap (b'p' ∷ take 9 (x.show_port port) ++ 0 ∷ [])

-- `if((++mc_id) > 9) mc_id = 0;`
abbrev pub next_mc_id : ℕ → ℕ
next_mc_id k = if ltb 9 (k + 1) then 0 else k + 1

abbrev pub write_log : {D : Type 0} → ℕ → N D (Unit {0})
write_log status n = done (tt, record n { log = status ∷ n.log })

abbrev pub step_mc_id : {D : Type 0} → N D (Unit {0})
step_mc_id n = done (tt, record n { mc_id = next_mc_id n.mc_id })

module _ {D : Type 0} ⦃d : Double D⦄ (x : Text D) (heap : List ℕ) where
  -- 'H': a remote tenant wants a page
  unfoldable pub on_high : Peer → List ℕ → N D (Unit {0})
  unfolding get_tracker set_scores compare_max_id
  on_high peer buffer = do
    let score = x.atof (b'0' ∷ b'0' ∷ drop 2 buffer)
    shared (set_scores score d.dbl_max (sender_id peer))
    t ← shared get_tracker
    if t.victim_potential
        then (do
          b ← shared (compare_max_id (sender_id peer) score)
          if ltb_ℤ (pos 0) b then goto (awaiting_min peer (get_or buffer 1 0)) else skip)
        else skip

  -- one round of the loop that waits for the candidate, which takes `wait_ns` in all, and the response
  unfoldable pub poll_min : Peer → ℕ → ℤ → N D (Unit {0})
  unfolding get_tracker lock_min_score
  poll_min peer r_mc_id wait_ns = do
    q ← shared lock_min_score
    if q == 2
        then (do
          t ← shared get_tracker
          let text = x.show_response t.min_score wait_ns
          if leb (msg_max - 2) (length text)
              then goto listening
              else (do send peer (b's' ∷ r_mc_id ∷ text); set_waiting true; goto listening))
        else skip

  -- `compare_minID(…) != 0 && lock_spare()`, and the verdict
  unfoldable pub decide : Peer → D → N D ℕ
  unfolding compare_min_id lock_spare
  decide peer min_score = do
    b ← shared (compare_min_id (sender_id peer) min_score)
    taken ← (if b ==ℤ pos 0 then (λ n. done (false, n)) else shared lock_spare)
    if taken
        then (do write_log 0; step_mc_id; (λ n. done (b'x', n)))
        else (do write_log 1; (λ n. done (b'r', n)))

  -- the verdict on a candidate whose response carries the current identifier
  unfoldable pub judge : Peer → D → N D ℕ
  judge peer min_score = do
    shared (set_scores d.int_min min_score (sender_id peer))
    decide peer min_score

  -- the answer to a response that parses
  unfoldable pub answer : Peer → ℕ → D → N D (Unit {0})
  answer peer r_mc_id min_score n =
      if r_mc_id == n.mc_id + b'0'
      then (do msg ← judge peer min_score; send peer (msg ∷ [])) n
      else (do write_log 2; send peer (b'r' ∷ [])) n

  -- 's': a tracker proposes its candidate
  unfoldable pub on_response : Peer → List ℕ → N D (Unit {0})
  on_response peer buffer n = elim (x.scan_response buffer) [
    | none ↦ done (tt, n)
    | some (r_mc_id, min_score, wait_ns) ↦ answer peer r_mc_id min_score n
  ]

  -- 'p': the peer's RDMA port
  unfoldable pub on_port : Peer → List ℕ → N D (Unit {0})
  unfolding set_rdma_server_info
  on_port peer buffer = do
    shared (set_rdma_server_info peer.address (x.atoi (b'0' ∷ drop 1 buffer)))
    (λ n. if n.client then set_waiting false n else goto (awaiting_port peer) n)

  -- one round of the loop that waits for the listener, and the answer
  unfoldable pub poll_port : Peer → N D (Unit {0})
  unfolding get_tracker unlock_min_score reset_min_score
  poll_port peer = do
    t ← shared get_tracker
    if t.local_access_port_n ==ℤ pos 0 then skip else (do
      send peer (port_message x heap t.local_access_port_n)
      shared unlock_min_score
      shared reset_min_score
      goto listening)

  -- 'x': the requester has accepted
  unfoldable pub on_accept : Peer → N D (Unit {0})
  unfolding get_tracker
  on_accept peer = do
    set_client true
    t ← shared get_tracker
    send peer (port_message x heap t.min_id)

  -- 'r': the requester has rejected
  unfoldable pub on_reject : N D (Unit {0})
  unfolding unlock_min_score
  on_reject = do set_waiting false; shared unlock_min_score

  -- 'B': a remote tenant has finished its reallocation
  unfoldable pub on_finish : Peer → List ℕ → N D (Unit {0})
  unfolding compare_max_id unlock_max_score
  on_finish peer buffer = do
    b ← shared (compare_max_id (sender_id peer) (x.atof (b'0' ∷ drop 1 buffer)))
    if ltb_ℤ (pos 0) b then shared unlock_max_score else skip

  -- The body of `recv_msg` on a packet. The buffer has `MSG_MAX` bytes, its end is marked behind the
  -- packet, and a lone 'H' is read past that mark.
  unfoldable pub recv_msg : Peer → List ℕ → N D (Unit {0})
  recv_msg peer buffer n =
      let kind = get_or buffer 0 0 in
      if leb msg_max (length buffer)
      then undefined
      else if kind == b'H' && not n.waiting
      then (if length buffer == 1 then undefined else on_high peer buffer n)
      else if kind == b's'
      then on_response peer buffer n
      else if kind == b'p'
      then on_port peer buffer n
      else if kind == b'x'
      then on_accept peer n
      else if kind == b'r'
      then on_reject n
      else if kind == b'B'
      then on_finish peer buffer n
      else skip n
