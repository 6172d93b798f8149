-- ===== src/Tokens/Words.antt =====
-- tokenize_command of src/memcached.c gives the words of the command.
use mem_exchange.Prelude.{
  ℕ, zero, suc, ◌+◌, ◌-◌, ◌≡◌, ◌≢◌, ◌<◌, refl, ap, ◌∙◌, subst, inl, inr, true, false, List, [], ◌∷◌,
  ◌++◌, ◌==◌, map, length, set, take, drop, arith, All, length-append, Bool-cases,
}
use mathlib.Core.List.{append_assoc}
use mem_exchange.Tokens.{Scan, scan_byte, scan, add_token, tokenize_command}
use mem_exchange.Tokens.Marks.{zeroed, scan-zeroed, scan-break, scan-on, cut}
use mem_exchange.Tokens.Pieces.{drop-next, drop-set}
use mem_exchange.Tokens.Splitting.{
  words_from, word_then, content, left, IsAt, byte, grown, passed, Splits, map-add, ended, full,
  Points,
}

words-other :
    (cur rest : List ℕ) (c : ℕ)
    → (c == 32) ≡ false
    → words_from cur (c ∷ rest) ≡ words_from (cur ++ (c ∷ [])) rest
unfolding words_from
words-other cur rest c h = rw (h, words_from)

words-space :
    (cur rest : List ℕ) (c : ℕ)
    → (c == 32) ≡ true
    → words_from cur (c ∷ rest) ≡ word_then cur (words_from [] rest)
unfolding words_from
words-space cur rest c h = rw (h, words_from)

-- a space, given what the rest of the loop does
module _ (t : ℕ) (command pre rest : List ℕ) (c : ℕ) (z : Scan)
    (rest_of : (y : Scan) (before : List ℕ) (m : ℕ)
      → IsAt command before [] rest y
      → length y.tokens + suc m ≡ t - 1
      → Splits command (words_from [] rest) (suc m) y (scan t (length rest) y)) where
  space-Splits :
      (cur : List ℕ) (m : ℕ)
      → IsAt command pre cur (c ∷ rest) z
      → All (λ d. d ≢ 0) rest
      → length z.tokens + suc m ≡ t - 1
      → (c == 32) ≡ true
      → Splits command (word_then cur (words_from [] rest)) (suc m) z (scan t (suc (length rest)) z)
  unfolding scan_byte
  space-Splits [] m h nonzero room space =
      let b = byte command pre [] rest c z h in
      let at = h.cursor in
      let from = h.start in
      let w = record z { start = suc z.cursor; cursor = suc z.cursor } in
      let next : scan_byte t z ≡ (false, w) = ground arith in
      let i =
        passed command pre [] rest c z h z.tokens z.text
          (drop-next z.text z.cursor c rest h.ahead) in
      rw (scan-on t (length rest) z w next) (rest_of w _ m i room)
  space-Splits (x ∷ xs) zero h nonzero room space =
      let b = byte command pre (x ∷ xs) rest c z h in
      let at = h.cursor in
      let from = h.start in
      let next : scan_byte t z ≡ (true, cut z) = ground arith in
      let i =
        passed command pre (x ∷ xs) rest c z h (add_token z) (set z.text z.cursor 0)
          (drop-set z.text z.cursor 0 ∙ drop-next z.text z.cursor c rest h.ahead) in
      let (tokens, words, points) = full command _ rest (cut z) i nonzero in
      rw (scan-break t (length rest) z (cut z) next) (
        ap (map (content command)) tokens ∙ map-add command pre (x ∷ xs) (c ∷ rest) z h,
        words,
        points,
      )
  space-Splits (x ∷ xs) (suc m) h nonzero room space =
      let b = byte command pre (x ∷ xs) rest c z h in
      let at = h.cursor in
      let from = h.start in
      let next : scan_byte t z ≡ (false, cut z) = ground arith in
      let i =
        passed command pre (x ∷ xs) rest c z h (add_token z) (set z.text z.cursor 0)
          (drop-set z.text z.cursor 0 ∙ drop-next z.text z.cursor c rest h.ahead) in
      let n = length-append z.tokens (record { value = z.start; size = z.cursor - z.start } ∷ []) in
      let (tokens, words, points) = rest_of (cut z) _ m i (omega arith) in
      let old = map (content command) z.tokens in
      let new = take (suc m) (words_from [] rest) in
      rw (scan-on t (length rest) z (cut z) next) (
        tokens
            ∙ ap (λ (ts : List (List ℕ)). ts ++ new) (map-add command pre (x ∷ xs) (c ∷ rest) z h)
            ∙ append_assoc old ((x ∷ xs) ∷ []) new,
        words,
        points,
      )

scan-Splits :
    (max_tokens : ℕ) (command pre cur rest : List ℕ) (z : Scan) (m : ℕ)
    → IsAt command pre cur rest z
    → All (λ c. c ≢ 0) rest
    → length z.tokens + suc m ≡ max_tokens - 1
    → Splits command (words_from cur rest) (suc m) z (scan max_tokens (length rest) z)
unfolding scan_byte
scan-Splits t command pre cur [] z m h nonzero room = unfold scan in ended command pre cur z m h
scan-Splits t command pre cur (c ∷ rest) z m h (some_byte, nonzero) room =
    let b = byte command pre cur rest c z h in
    let at = h.cursor in
    let from = h.start in
    let n = length rest in
    elim (Bool-cases (c == 32)) [
      | inl space ↦ rw (words-space cur rest c space) (
          space-Splits t command pre rest c z
            (λ y before k i r. scan-Splits t command before [] rest y k i nonzero r) cur m h nonzero
            room space)
      | inr other ↦
          let w = record z { cursor = suc z.cursor } in
          let next : scan_byte t z ≡ (false, w) = ground arith in
          rw (words-other cur rest c other, scan-on t n z w next)
            (scan-Splits t command pre (cur ++ (c ∷ [])) rest w m (grown command pre cur rest c z h)
              nonzero room)
    ]

-- Of a command with no zero byte, tokenize_command gives the first `max_tokens - 1` words, in order, each
-- as its place and its length. The terminal token points at a text with the words that are left; it
-- points at a byte of the command or is null. The command is left with a zero byte behind each token, and
-- otherwise as it was.
pub tokenize_command-words :
    (command : List ℕ) (max_tokens : ℕ)
    → 1 < max_tokens
    → All (λ c. c ≢ 0) command
    → let (r, text) = tokenize_command command max_tokens in
      (map (content command) r.0 ≡ take (max_tokens - 1) (words_from [] command))
      × (words_from [] (left command r.1) ≡ drop (max_tokens - 1) (words_from [] command))
      × Points command r.1
      × (text ≡ zeroed r.0 command)
unfolding tokenize_command
tokenize_command-words command max_tokens two nonzero =
    let z : Scan = record { start = 0; cursor = 0; tokens = []; text = command } in
    let i : IsAt command [] [] command z = record {
      split = refl;
      start = refl;
      cursor = omega arith;
      ahead = refl;
    } in
    let room : suc (max_tokens - 2) ≡ max_tokens - 1 = omega arith in
    let (tokens, words, points) =
      subst
        (λ (m : ℕ). Splits command (words_from [] command) m z (scan max_tokens (length command) z))
        room
        (scan-Splits max_tokens command [] [] command z (max_tokens - 2) i nonzero (omega arith)) in
    (tokens, words, points, scan-zeroed max_tokens command)
