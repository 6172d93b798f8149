-- ===== src/Tokens/Marks.antt =====
-- What tokenize_command of src/memcached.c writes into the command.
use mem_exchange.Prelude.{
  ℕ, zero, suc, ◌+◌, ◌-◌, ◌≡◌, ◌≤◌, ◌⊎◌, refl, sym, ap, ◌∙◌, inl, inr, Bool, true, false, List, [],
  ◌∷◌, ◌++◌, ◌==◌, length, get_or, set, arith, length-set, Bool-cases,
}
use mem_exchange.Tokens.{Token, Scan, scan_byte, scan, end_tokens, add_token}

-- the scan with one byte less to go
module _ (max_tokens n : ℕ) (z w : Scan) where
  pub scan-break : scan_byte max_tokens z ≡ (true, w) → scan max_tokens (suc n) z ≡ w
  unfolding scan
  scan-break e = rw (e, scan) (ap (λ (p : Bool × Scan). p.1) e)

  pub scan-on :
      scan_byte max_tokens z ≡ (false, w) → scan max_tokens (suc n) z ≡ scan max_tokens n w
  unfolding scan
  scan-on e = rw (e, scan) (ap (λ (p : Bool × Scan). scan max_tokens n p.1) e)

-- a word is added
abbrev pub cut : Scan → Scan
cut z = record {
  start = suc z.cursor;
  cursor = suc z.cursor;
  tokens = add_token z;
  text = set z.text z.cursor 0;
}

-- a command with a zero byte behind each token; there is one behind its end as it is
abbrev pub zeroed : List Token → List ℕ → List ℕ
zeroed [] command = command
zeroed (t ∷ ts) command = zeroed ts (set command (t.value + t.size) 0)

zeroed-add :
    (ts : List Token) (t : Token) (command : List ℕ)
    → zeroed (ts ++ (t ∷ [])) command ≡ set (zeroed ts command) (t.value + t.size) 0
zeroed-add [] t command = refl
zeroed-add (u ∷ ts) t command = zeroed-add ts t (set command (u.value + u.size) 0)

set-past : (xs : List ℕ) (i v : ℕ) → length xs ≤ i → set xs i v ≡ xs
set-past [] i v h = refl
set-past (x ∷ xs) zero v h = absurd (omega arith)
set-past (x ∷ xs) (suc i) v h = ap (λ (ys : List ℕ). x ∷ ys) (set-past xs i v (omega arith))

-- with `n` bytes to go
record IsMarked (command : List ℕ) (n : ℕ) (z : Scan) : Type 0 where
  zeros : z.text ≡ zeroed z.tokens command
  order : z.start ≤ z.cursor
  rest : z.cursor + n ≡ length z.text

-- behind the loop no word is open, or it is at the end
record IsScanned (command : List ℕ) (z : Scan) : Type 0 where
  zeros : z.text ≡ zeroed z.tokens command
  order : z.start ≤ z.cursor
  closed : (z.start ≡ z.cursor) ⊎ (length z.text ≤ z.cursor)

add-zeroed :
    (command : List ℕ) (z : Scan)
    → z.text ≡ zeroed z.tokens command
    → z.start ≤ z.cursor
    → zeroed (add_token z) command ≡ set z.text z.cursor 0
add-zeroed command z h le =
    let up : z.start + (z.cursor - z.start) ≡ z.cursor = omega arith in
    zeroed-add z.tokens (record { value = z.start; size = z.cursor - z.start }) command
    ∙ ap (λ (i : ℕ). set (zeroed z.tokens command) i 0) up
    ∙ ap (λ (c : List ℕ). set c z.cursor 0) (sym h)

cut-IsMarked :
    (command : List ℕ) (n : ℕ) (z : Scan) → IsMarked command (suc n) z → IsMarked command n (cut z)
cut-IsMarked command n z m =
    let l = length-set z.text z.cursor 0 in
    let r = m.rest in
    record {
      zeros = sym (add-zeroed command z m.zeros m.order);
      order = omega arith;
      rest = omega arith;
    }

scan-IsScanned :
    (max_tokens : ℕ) (command : List ℕ) (n : ℕ) (z : Scan)
    → IsMarked command n z
    → IsScanned command (scan max_tokens n z)
unfolding scan_byte
scan-IsScanned t command zero z m =
    let r = m.rest in
    unfold scan in record { zeros = m.zeros; order = m.order; closed = inr (omega arith) }
scan-IsScanned t command (suc n) z m =
    let r = m.rest in
    let o = m.order in
    let w = record z { cursor = suc z.cursor } in
    let g = record z { start = suc z.cursor; cursor = suc z.cursor } in
    let c = cut-IsMarked command n z m in
    elim (Bool-cases (get_or z.text z.cursor 0 == 32)) [
      | inr other ↦
          let next : scan_byte t z ≡ (false, w) = ground arith in
          let i : IsMarked command n w = record {
            zeros = m.zeros;
            order = omega arith;
            rest = omega arith;
          } in
          rw (scan-on t n z w next) (scan-IsScanned t command n w i)
      | inl space ↦ elim (Bool-cases (z.start == z.cursor)) [
        | inl same ↦
            let next : scan_byte t z ≡ (false, g) = ground arith in
            let i : IsMarked command n g = record {
              zeros = m.zeros;
              order = omega arith;
              rest = omega arith;
            } in
            rw (scan-on t n z g next) (scan-IsScanned t command n g i)
        | inr apart ↦ elim (Bool-cases (length z.tokens + 1 == t - 1)) [
          | inl last ↦
              let next : scan_byte t z ≡ (true, cut z) = ground arith in
              rw (scan-break t n z (cut z) next)
                (record { zeros = c.zeros; order = c.order; closed = inl refl })
          | inr more ↦
              let next : scan_byte t z ≡ (false, cut z) = ground arith in
              rw (scan-on t n z (cut z) next) (scan-IsScanned t command n (cut z) c)
        ]
      ]
    ]

end-zeroed :
    (command : List ℕ) (z : Scan) → IsScanned command z → z.text ≡ zeroed (end_tokens z).0 command
unfolding end_tokens
end-zeroed command z h = elim (Bool-cases (z.start == z.cursor)) [
  | inl same ↦ rw (same) h.zeros
  | inr apart ↦
      let past : length z.text ≤ z.cursor = let c = h.closed in ground arith in
      rw (apart)
        (sym (set-past z.text z.cursor 0 past) ∙ sym (add-zeroed command z h.zeros h.order))
]

pub scan-zeroed :
    (max_tokens : ℕ) (command : List ℕ)
    → let z =
        scan max_tokens
          (length command)
          (record { start = 0; cursor = 0; tokens = []; text = command }) in
      z.text ≡ zeroed (end_tokens z).0 command
scan-zeroed t command =
    let z : Scan = record { start = 0; cursor = 0; tokens = []; text = command } in
    let m : IsMarked command (length command) z = record {
      zeros = refl;
      order = omega arith;
      rest = omega arith;
    } in
    end-zeroed command _ (scan-IsScanned t command (length command) z m)
