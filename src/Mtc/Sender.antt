-- ===== src/Mtc/Sender.antt =====
-- `send_msg` and the loop body of `sender_routine` of src/start_tracker.c.
pub mod Wire
use mem_exchange.Prelude.{
  ℕ, ◌+◌, Bool, true, false, ◌&&◌, List, [], ◌∷◌, ◌++◌, take, if◌then◌else◌, Double,
}
use mem_exchange.Tracker.State.{Tracker, get_tracker}
use mem_exchange.Tracker.Scores.{unlock_min_score}
use mem_exchange.Tracker.Flags.{stop_rdma_broadcast, stop_rdma_finish_broadcast}
use mem_exchange.Mtc.State.{
  Text, Peer, Node, Run, done, N, ◌>>=◌, ◌>>◌, skip, shared, send, set_waiting, set_client,
  pointer_bytes,
}

-- `char score_str[50]`, printed into by `snprintf`
abbrev pub score_text : {D : Type 0} → Text D → D → List ℕ
score_text x score = take 49 (x.show_score score)

module _ {D : Type 0} (x : Text D) (heap : List ℕ) (group : Peer) where
  unfoldable pub send_high : N D (Unit {0})
  unfolding get_tracker
  send_high = do
    t ← shared get_tracker
    (λ n.
        send group
          (pointer_bytes heap (b'H' ∷ (n.mc_id + b'0') ∷ score_text x t.max_score ++ 0 ∷ [])) n)

  unfoldable pub send_finish : N D (Unit {0})
  unfolding get_tracker
  send_finish = do
    t ← shared get_tracker
    send group (pointer_bytes heap (b'B' ∷ score_text x t.temp_score ++ 0 ∷ []))

  unfoldable pub broadcast_part : N D (Unit {0})
  unfolding get_tracker stop_rdma_broadcast send_high
  broadcast_part = do
    t ← shared get_tracker
    if t.rdma_broadcast then (do shared stop_rdma_broadcast; set_client false; send_high) else skip

  unfoldable pub finish_part : N D (Unit {0})
  unfolding get_tracker stop_rdma_finish_broadcast send_finish
  finish_part = do
    t ← shared get_tracker
    if t.finish_broadcast then (do shared stop_rdma_finish_broadcast; send_finish) else skip

  -- `expired` is what `check_timeout` answers
  unfoldable pub timeout_part : Bool → N D (Unit {0})
  unfolding unlock_min_score
  timeout_part expired n =
      (if n.waiting && expired then (do shared unlock_min_score; set_waiting false) else skip) n

  unfoldable pub sender_round : Bool → N D (Unit {0})
  sender_round expired = do broadcast_part; finish_part; timeout_part expired
