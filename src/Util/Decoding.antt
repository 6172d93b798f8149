-- ===== src/Util/Decoding.antt =====
-- What the encoding of src/util.c stands for, and the room that it takes.
use mem_exchange.Prelude.{
  ℕ, ◌+◌, ◌-◌, ◌*◌, ◌/◌, ◌%◌, ◌≤◌, ◌<◌, ◌≡◌, ◌≢◌, ◌⊎◌, inl, inr, refl, sym, subst, ◌∙◌, true, false,
  Bool-cases, Option-cases, length-append, none, some, List, [], ◌∷◌, ◌++◌, length, All, ltb, leb,
  dec_lt, if◌then◌else◌, arith,
}
use mathlib.Core.Option.{some-injective, none-ne-some}
use mem_exchange.Util.{
  is_kept, hex_digit, uriencode_map, uriencode_step, prepend, uriencode_from, uriencode,
}

-- the value of a digit
unfoldable pub digit_value : ℕ → ℕ
digit_value c = if ltb c 58 then c - 48 else c - 55

-- `Decodes out src`: a reader of `out` finds the bytes `src`, and then the byte 0.
pub data Decodes : List ℕ → List ℕ → Type 0 where
  ended : Decodes (0 ∷ []) []
  kept : (x : ℕ) (out src : List ℕ) → x ≢ 37 → x ≢ 0 → Decodes out src → Decodes (x ∷ out) (x ∷ src)
  escaped :
      (a b : ℕ) (out src : List ℕ)
      → Decodes out src
      → Decodes (37 ∷ a ∷ b ∷ out) ((16 * digit_value a + digit_value b) ∷ src)

digit_value-hex_digit : (n : ℕ) → n < 16 → digit_value (hex_digit n) ≡ n
unfolding digit_value hex_digit
digit_value-hex_digit n h = ground arith

is_kept-plain : (x : ℕ) → is_kept x ≡ true → (x ≢ 37) × (x ≢ 0)
unfolding is_kept
is_kept-plain x h = (ground arith, ground arith)

step-kept : (x : ℕ) → is_kept x ≡ true → uriencode_step x ≡ x ∷ []
unfolding uriencode_step uriencode_map
step-kept x e = rw (e, uriencode_step, uriencode_map) refl

step-escaped :
    (x : ℕ)
    → is_kept x ≡ false
    → uriencode_step x ≡ 37 ∷ hex_digit (x / 16) ∷ hex_digit (x % 16) ∷ []
unfolding uriencode_step uriencode_map
step-escaped x e = rw (e, uriencode_step, uriencode_map) refl

-- What an iteration writes is read as its byte.
step-Decodes :
    (x : ℕ) (out src : List ℕ)
    → x < 256
    → Decodes out src
    → Decodes (uriencode_step x ++ out) (x ∷ src)
step-Decodes x out src byte rest = elim (Bool-cases (is_kept x)) [
  | inl e ↦ let (a, b) = is_kept-plain x e in rw (step-kept x e) (kept x out src a b rest)
  | inr e ↦
      let high = digit_value-hex_digit (x / 16) (omega arith) in
      let low = digit_value-hex_digit (x % 16) (omega arith) in
      let whole : 16 * digit_value (hex_digit (x / 16)) + digit_value (hex_digit (x % 16)) ≡ x =
        rw (high, low) (omega arith) in
      rw (step-escaped x e) (
        subst (λ y. Decodes (37 ∷ hex_digit (x / 16) ∷ hex_digit (x % 16) ∷ out) (y ∷ src)) whole
          (escaped (hex_digit (x / 16)) (hex_digit (x % 16)) out src rest))
]

step-length : (x : ℕ) → (1 ≤ length (uriencode_step x)) × (length (uriencode_step x) ≤ 3)
step-length x = elim (Bool-cases (is_kept x)) [
  | inl e ↦ rw (step-kept x e) (omega arith, omega arith)
  | inr e ↦ rw (step-escaped x e) (omega arith, omega arith)
]

-- What the loop leaves is read as the source, and ends inside the buffer.
from-Decodes :
    (d : ℕ) (src : List ℕ) (dstlen : ℕ) (out : List ℕ)
    → All (λ x. x < 256) src
    → d < dstlen
    → uriencode_from d src dstlen ≡ some out
    → Decodes out src × (d + length out ≤ dstlen)
unfolding uriencode_from prepend
from-Decodes d [] dstlen out bytes room h =
    let is = some-injective _ _ h in
    (subst (λ o. Decodes o []) is ended, subst (λ o. d + length o ≤ dstlen) is (omega arith))
from-Decodes d (x ∷ src) dstlen out (byte, bytes) room h =
    let code = uriencode_step x in
    let (one, three) = step-length x in
    elim (Bool-cases (leb dstlen (d + 4))) [
      | inl e ↦ ground (arith, e, h)
      | inr e ↦ elim (Option-cases (uriencode_from (d + length code) src dstlen)) [
        | inl stops ↦ ground (arith, e, stops, h)
        | inr (tail, is) ↦
            let within : d + length code < dstlen = ground arith in
            let (reads, ends) = from-Decodes (d + length code) src dstlen tail bytes within is in
            let whole : code ++ tail ≡ out = some-injective _ _ (simp (e, is) at h) in
            (
              subst (λ o. Decodes o (x ∷ src)) whole (step-Decodes x tail src byte reads),
              subst (λ o. d + length o ≤ dstlen) whole
                  (omega (arith, length-append code tail, ends)),
            )
      ]
    ]

-- With room for three bytes each, and one more than the byte at the end, the loop returns true.
from-succeeds :
    (d : ℕ) (src : List ℕ) (dstlen : ℕ)
    → d + (3 * length src + 1) < dstlen
    → (out : List ℕ) × (uriencode_from d src dstlen ≡ some out)
unfolding uriencode_from prepend
from-succeeds d [] dstlen room = (0 ∷ [], refl)
from-succeeds d (x ∷ src) dstlen room =
    let (one, three) = step-length x in
    let (out, is) = from-succeeds (d + length (uriencode_step x)) src dstlen (omega arith) in
    let fits : leb dstlen (d + 4) ≡ false = ground arith in
    (uriencode_step x ++ out, simp (fits, is) refl)

-- A string of bytes that is encoded into a buffer that is not empty: either the call returns false, and
-- the buffer has at most 3 bytes for each of the string and one more; or it returns true, what it wrote
-- is inside the buffer, and a reader finds the string in it.
pub uriencode-Decodes :
    (src : List ℕ) (dstlen : ℕ)
    → All (λ x. x < 256) src
    → 0 < dstlen
    → ((uriencode src dstlen ≡ none) × (dstlen ≤ 3 * length src + 1))
      ⊎ ((out : List ℕ) × ((uriencode src dstlen ≡ some out)
            × (Decodes out src × (length out ≤ dstlen))))
unfolding uriencode
uriencode-Decodes src dstlen bytes room = elim (Option-cases (uriencode_from 0 src dstlen)) [
  | inr (out, is) ↦
      let (reads, ends) = from-Decodes 0 src dstlen out bytes room is in
      inr (out, (is, (reads, omega arith)))
  | inl stops ↦ elim (dec_lt (3 * length src + 1) dstlen) [
    | yes fits ↦
        let (out, is) = from-succeeds 0 src dstlen (omega arith) in
        absurd (none-ne-some out (sym stops ∙ is))
    | no short ↦ inl (stops, omega arith)
  ]
]
