-- ===== src/Mtc/Process.antt =====
-- The tracker process of src/start_tracker.c as a transition system: the receiver's rounds, the
-- sender's rounds, and the calls that tenants make on the shared memory. An allocation that fails is no
-- step: it keeps the semaphore, and every process stops. Each of recv_msg's two waiting loops is a phase, and
-- one of its rounds a step, since it may go on for ever.
use mem_exchange.Prelude.{ℕ, ◌≡◌, Bool, false, some, List, ℤ, Double}
use mem_exchange.Tracker.State.{Shm}
use mem_exchange.Tracker.Calls.{Call, call}
use mem_exchange.Tracker.Calls.Liveness.{fails}
use mem_exchange.Mtc.State.{Text, Peer, listening, awaiting_min, awaiting_port, Node, done}
use mem_exchange.Mtc.Receiver.{recv_msg, poll_min, poll_port}
use mem_exchange.Mtc.Sender.{sender_round}

module _ {D : Type 0} ⦃d : Double D⦄ (x : Text D) (group : Peer) where
  pub data Step (n : Node D) : Node D → Type 0 where
    receive :
        {m : Node D} (heap : List ℕ) (peer : Peer) (buffer : List ℕ)
        → n.phase ≡ listening
        → recv_msg x heap peer buffer n ≡ done (tt, m)
        → Step n m
    poll :
        {m : Node D} (heap : List ℕ) (peer : Peer) (r_mc_id : ℕ) (wait_ns : ℤ)
        → n.phase ≡ awaiting_min peer r_mc_id
        → poll_min x heap peer r_mc_id wait_ns n ≡ done (tt, m)
        → Step n m
    poll_listener :
        {m : Node D} (heap : List ℕ) (peer : Peer)
        → n.phase ≡ awaiting_port peer
        → poll_port x heap peer n ≡ done (tt, m)
        → Step n m
    sender :
        {m : Node D} (heap : List ℕ) (expired : Bool)
        → sender_round x heap group expired n ≡ done (tt, m)
        → Step n m
    tenant :
        {m : Node D} {s : Shm D} (c : Call D)
        → fails c n.shm ≡ false
        → call c n.shm ≡ some (tt, s)
        → m ≡ record n { shm = s }
        → Step n m

  pub data Reach (n : Node D) : Node D → Type 0 where
    here : Reach n n
    next : {m k : Node D} → Reach n m → Step m k → Reach n k
