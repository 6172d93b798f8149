-- ===== src/Mtc/Receiver/Responses.antt =====
-- The victor's side of src/start_tracker.c: which responses it accepts.
use mem_exchange.Prelude.{
  ℕ, ◌+◌, ◌<◌, ◌≤◌, ◌≡◌, ◌≢◌, true, false, some, List, [], ◌∷◌, int_suc, ℤ, negsuc, ==_iff, refl,
  ◌∙◌, ◌+ℤ◌, arith, Double,
}
use mem_exchange.Tracker.Scores.{
  scored, set_scores, withdraw_min, propose_min, propose_max, set_scores-free,
}
use mem_exchange.Mtc.State.{Text, Peer, Node, done, sender_id, ◌>>=◌, shared->>}
use mem_exchange.Mtc.Receiver.{next_mc_id, decide, judge, answer, on_response}

module _ {D : Type 0} ⦃d : Double D⦄ (x : Text D) (heap : List ℕ) where
  -- A response is accepted when it carries the current identifier, its sender is the victim once its
  -- score is entered, and no tenant holds the spare page's lock.
  abbrev pub Accepted : Peer → ℕ → D → Node D → Type 0
  Accepted peer r_mc_id min_score n =
      (r_mc_id ≡ n.mc_id + b'0')
      × ((scored d.int_min min_score (sender_id peer) n.shm.track).min_id ≡ sender_id peer)
      × (n.shm.track.spare_lock ≡ false)

  -- the memory once the score is entered
  abbrev pub enter : Peer → D → Node D → Node D
  enter peer min_score n = record n {
    shm = record n.shm { track = scored d.int_min min_score (sender_id peer) n.shm.track };
  }

  judge-eq :
      (peer : Peer) (min_score : D) (n : Node D)
      → 0 < n.shm.sem
      → judge x heap peer min_score n ≡ decide x heap peer min_score (enter peer min_score n)
  unfolding judge
  judge-eq peer min_score n free =
      shared->> (set_scores d.int_min min_score (sender_id peer)) n
        (set_scores-free d.int_min min_score (sender_id peer) n.shm free)
        (decide x heap peer min_score)

  -- the memory once the candidate is confirmed and the lock is taken
  abbrev accept : D → Node D → Node D
  accept min_score n = record n {
    shm = record n.shm {
      track = record n.shm.track {
        min_score = min_score;
        min_counter = int_suc n.shm.track.min_counter;
        spare_lock = true;
      };
    };
    mc_id = next_mc_id n.mc_id;
    log = 0 ∷ n.log;
  }

  decide_accepts :
      (peer : Peer) (min_score : D) (n : Node D)
      → 0 < n.shm.sem
      → n.shm.track.min_id ≡ sender_id peer
      → n.shm.track.spare_lock ≡ false
      → n.shm.track.min_counter ≢ negsuc 0
      → decide x heap peer min_score n ≡ done (b'x', accept min_score n)
  unfolding decide ◌+ℤ◌
  decide_accepts peer min_score n free victim unlocked count = ground arith

  unlocked_entered :
      (peer : Peer) (min_score : D) (n : Node D)
      → n.shm.track.spare_lock ≡ false
      → (enter peer min_score n).shm.track.spare_lock ≡ false
  unfolding withdraw_min propose_min propose_max
  unlocked_entered peer min_score n h = ground arith

  answered :
      (peer : Peer) (buffer : List ℕ) (r_mc_id : ℕ) (min_score : D) (wait_ns : ℤ) (n : Node D)
      → x.scan_response buffer ≡ some (r_mc_id, min_score, wait_ns)
      → on_response x heap peer buffer n ≡ answer x heap peer r_mc_id min_score n
  unfolding on_response
  answered peer buffer r_mc_id min_score wait_ns n scan = rw (scan, on_response)

  -- with the current identifier the answer is the verdict
  answer_current :
      (peer : Peer) (r_mc_id : ℕ) (min_score : D) (n : Node D) {msg : ℕ} {m : Node D}
      → r_mc_id ≡ n.mc_id + b'0'
      → judge x heap peer min_score n ≡ done (msg, m)
      → answer x heap peer r_mc_id min_score n
        ≡ done (tt, record m { sent = (peer, msg ∷ []) ∷ m.sent })
  unfolding answer
  answer_current peer r_mc_id min_score n id verdict =
      rw ((==_iff r_mc_id (n.mc_id + b'0')).1 id, answer) (rw (verdict, ◌>>=◌))

  -- An accepted response is answered by 'x'; it takes the spare page's lock and moves to the next
  -- identifier, so that other responses to the same request are outdated.
  pub on_response_accepts :
      (peer : Peer) (buffer : List ℕ) (r_mc_id : ℕ) (min_score : D) (wait_ns : ℤ) (n : Node D)
      → 0 < n.shm.sem
      → x.scan_response buffer ≡ some (r_mc_id, min_score, wait_ns)
      → Accepted peer r_mc_id min_score n
      → (enter peer min_score n).shm.track.min_counter ≢ negsuc 0
      → (n' : Node D) × (on_response x heap peer buffer n ≡ done (tt, n'))
        × (n'.sent ≡ (peer, b'x' ∷ []) ∷ n.sent)
        × (n'.shm.track.spare_lock ≡ true)
        × (n'.mc_id ≡ next_mc_id n.mc_id)
  unfolding on_response
  on_response_accepts peer buffer r_mc_id min_score wait_ns n free scan (id, victim, unlocked)
        count =
      let m = enter peer min_score n in
      let verdict =
        judge-eq peer min_score n free
        ∙ decide_accepts peer min_score m free victim (unlocked_entered peer min_score n unlocked)
            count in
      (
        record (accept min_score m) { sent = (peer, b'x' ∷ []) ∷ n.sent },
        answered peer buffer r_mc_id min_score wait_ns n scan
            ∙ answer_current peer r_mc_id min_score n id verdict,
        refl,
        refl,
        refl,
      )

  -- A response with another identifier is answered by 'r' and changes no shared memory.
  pub on_response_outdated :
      (peer : Peer) (buffer : List ℕ) (r_mc_id : ℕ) (min_score : D) (wait_ns : ℤ) (n : Node D)
      → x.scan_response buffer ≡ some (r_mc_id, min_score, wait_ns)
      → r_mc_id ≢ n.mc_id + b'0'
      → on_response x heap peer buffer n
        ≡ done (tt, record n { sent = (peer, b'r' ∷ []) ∷ n.sent; log = 2 ∷ n.log })
  unfolding answer
  on_response_outdated peer buffer r_mc_id min_score wait_ns n scan other =
      answered peer buffer r_mc_id min_score wait_ns n scan ∙ ground arith

  -- Once a response to a request is accepted, a further response to the same request, by whatever
  -- tracker, is answered by 'r' and changes no shared memory, until the identifier moves again.
  pub on_response_once :
      (peer other : Peer) (buffer buffer' : List ℕ) (r_mc_id : ℕ) (score score' : D) (w w' : ℤ)
      (n n' m : Node D)
      → n.mc_id ≤ 9
      → 0 < n.shm.sem
      → x.scan_response buffer ≡ some (r_mc_id, score, w)
      → x.scan_response buffer' ≡ some (r_mc_id, score', w')
      → Accepted peer r_mc_id score n
      → (enter peer score n).shm.track.min_counter ≢ negsuc 0
      → on_response x heap peer buffer n ≡ done (tt, n')
      → m.mc_id ≡ n'.mc_id
      → on_response x heap other buffer' m
        ≡ done (tt, record m { sent = (other, b'r' ∷ []) ∷ m.sent; log = 2 ∷ m.log })
  on_response_once peer other buffer buffer' r_mc_id score score' w w' n n' m small free scan scan'
        ok count run same =
      let (n₁, run₁, _, _, id) =
        on_response_accepts peer buffer r_mc_id score w n free scan ok count in
      let moved : n'.mc_id ≡ next_mc_id n.mc_id = cc (run, run₁, id) in
      let old = ok.0 in on_response_outdated other buffer' r_mc_id score' w' m scan' (ground arith)
