-- ===== src/Mtc/Sender/Wire.antt =====
-- What the broadcasts of src/start_tracker.c carry.
use mem_exchange.Prelude.{
  ℕ, zero, suc, ap, ◌∙◌, ◌+◌, ◌<◌, ◌≤◌, ◌≡◌, refl, List, [], ◌∷◌, ◌++◌, take, length, arith,
}
use mem_exchange.Tracker.State.{get_tracker, get_tracker-free}
use mem_exchange.Mtc.State.{Text, Peer, Node, done, shared->>=}
use mem_exchange.Mtc.Sender.{send_high}

-- a prefix that lies inside the first list and inside its cut
take-append_inside :
    {A : Type 0} (k m : ℕ) (xs ys zs : List A)
    → k ≤ m
    → k ≤ length xs
    → take k ((take m xs ++ ys) ++ zs) ≡ take k xs
take-append_inside zero m xs ys zs h l = refl
take-append_inside (suc k) zero xs ys zs h l = absurd (omega arith)
take-append_inside (suc k) (suc m) [] ys zs h l = absurd (omega arith)
take-append_inside (suc k) (suc m) (x ∷ xs) ys zs h l =
    ap (λ r. x ∷ r) (take-append_inside k m xs ys zs (omega arith) (omega arith))

module _ {D : Type 0} (x : Text D) (heap : List ℕ) (group : Peer) where
  -- The request for a page carries the letter, the identifier and the first six bytes of the score's
  -- text, whatever its length, since the size passed on is that of a pointer.
  pub send_high_cut :
      (n : Node D)
      → 0 < n.shm.sem
      → 6 ≤ length (x.show_score n.shm.track.max_score)
      → send_high x heap group n
        ≡ done (
          tt,
          record n {
            sent =
                (group, b'H' ∷ (n.mc_id + b'0') ∷ take 6 (x.show_score n.shm.track.max_score))
                ∷ n.sent;
          },
        )
  unfolding send_high
  send_high_cut n free long =
      let text = x.show_score n.shm.track.max_score in
      shared->>= get_tracker n (get_tracker-free n.shm free) _
      ∙ ap (λ l. done (tt, record n { sent = (group, b'H' ∷ (n.mc_id + b'0') ∷ l) ∷ n.sent }))
          (take-append_inside 6 49 text (0 ∷ []) heap (omega arith) long)
