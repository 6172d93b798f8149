-- ===== src/Tests/MtcTests.antt =====
-- The protocol's theorems at sample packets.
use mem_exchange.Prelude.{
  ℕ, ◌+◌, ◌%◌, ◌≡◌, ◌≢◌, inl, refl, true, false, none, some, List, [], ◌∷◌, ℤ, pos, negsuc,
  pos_part, arith, ◌+ℤ◌, drop, get_or, ◌==◌, if◌then◌else◌,
}
use mem_exchange.Tracker.State.{get_tracker}
use mem_exchange.Tracker.Scores.{
  set_scores, withdraw_min, propose_min, propose_max, compare_min_id, compare_max_id,
  lock_min_score, unlock_min_score,
}
use mem_exchange.Tracker.Flags.{lock_spare}
use mem_exchange.Mtc.State.{
  after, Text, Peer, listening, Node, done, remove_char, sender_id, digits_from,
}
use mem_exchange.Mtc.Receiver.{
  on_high, on_response, answer, judge, decide, on_reject, poll_min, recv_msg,
}
use mem_exchange.Mtc.Receiver.Responses
use mem_exchange.Mtc.Sender.{send_high}
use mem_exchange.Mtc.Process.{receive, here, next}
use mem_exchange.Mtc.Soundness
use mem_exchange.Mtc.Soundness.{IsSound, Sound}
use mem_exchange.Tests.Samples.{integer_double, memory, traded}

run : Unit {0}
unfolding get_tracker set_scores withdraw_min propose_min propose_max compare_min_id compare_max_id
    lock_min_score unlock_min_score lock_spare remove_char sender_id on_high on_response answer
    judge decide on_reject poll_min recv_msg send_high ◌+ℤ◌
run = tt

-- a response "s0,7" has the identifier '0' and the score 7
abbrev text : Text ℤ
text = record {
  atof = λ s. pos (digits_from 0 s);
  atoi = λ s. pos (digits_from 0 s);
  scan_response = λ s.
      if get_or s 2 0 == b','
      then some (get_or s 1 0, pos (digits_from 0 (drop 3 s)), pos 0)
      else none;
  show_score = λ a. (b'0' + pos_part a % 10) ∷ b'.' ∷ b'0' ∷ b'0' ∷ b'0' ∷ b'0' ∷ b'0' ∷ b'0' ∷ [];
  show_response = λ a w. b',' ∷ (b'0' + pos_part a % 10) ∷ [];
  show_port = λ p. b'1' ∷ b'1' ∷ b'2' ∷ b'1' ∷ (b'0' + pos_part p % 10) ∷ [];
}

-- 10.10.1.5 and 10.10.1.6
abbrev five : Peer
five = record {
  address = record { sin_addr = 5; sin_port = 33333 };
  dotted = b'1' ∷ b'0' ∷ b'.' ∷ b'1' ∷ b'0' ∷ b'.' ∷ b'1' ∷ b'.' ∷ b'5' ∷ [];
}

abbrev six : Peer
six = record {
  address = record { sin_addr = 6; sin_port = 33333 };
  dotted = b'1' ∷ b'0' ∷ b'.' ∷ b'1' ∷ b'0' ∷ b'.' ∷ b'1' ∷ b'.' ∷ b'6' ∷ [];
}

sender_id-five : sender_id five ≡ pos 101015
unfolding run
sender_id-five = refl

abbrev idle : Node ℤ
idle = record {
  shm = memory;
  mc_id = 0;
  client = false;
  waiting = false;
  phase = listening;
  sent = [];
  log = [];
}

abbrev candidate : Node ℤ
candidate = record idle { shm = traded }

abbrev response : List ℕ
response = b's' ∷ b'0' ∷ b',' ∷ b'7' ∷ []

idle-IsSound : IsSound idle
idle-IsSound = omega arith

Accepted-five : Responses.Accepted text [] five b'0' (pos 7) idle
unfolding run
Accepted-five = (refl, refl, refl)

counter_five : (Responses.enter text [] five (pos 7) idle).shm.track.min_counter ≢ negsuc 0
unfolding run
counter_five = λ e. cc

first_accepted :
    (n' : Node ℤ) × (on_response text [] five response idle ≡ done (tt, n'))
    × (n'.sent ≡ (five, b'x' ∷ []) ∷ [])
    × (n'.shm.track.spare_lock ≡ true)
    × (n'.mc_id ≡ 1)
first_accepted =
    Responses.on_response_accepts text [] five response b'0' (pos 7) (pos 0) idle (omega arith) refl
      Accepted-five counter_five

-- the process after it
abbrev busy : Node ℤ
busy = first_accepted.0

on_response_once_example :
    on_response text [] six (b's' ∷ b'0' ∷ b',' ∷ b'1' ∷ []) busy
    ≡ done (tt, record busy { sent = (six, b'r' ∷ []) ∷ busy.sent; log = 2 ∷ busy.log })
on_response_once_example =
    Responses.on_response_once text [] five six response (b's' ∷ b'0' ∷ b',' ∷ b'1' ∷ []) b'0'
      (pos 7) (pos 1) (pos 0) (pos 0) idle busy busy (omega arith) (omega arith) refl refl
      Accepted-five counter_five first_accepted.1 refl

recv_msg-Sound_example :
    Sound (recv_msg text [] five response idle) idle
    × Soundness.Ends idle five response (after (recv_msg text [] five response idle) idle)
recv_msg-Sound_example =
    Soundness.recv_msg-Sound text [] idle idle-IsSound five response (omega arith)
      (inl (omega arith))

Reach-IsSound_example : IsSound busy
unfolding recv_msg
Reach-IsSound_example =
    Soundness.Reach-IsSound text five idle-IsSound
      (next here (receive [] five response refl first_accepted.1))
