-- ===== src/Util.antt =====
-- The percent encoding of src/util.c. A string is the list of its bytes; what `dst` holds is the list of
-- the bytes written, in order. `size_t` is a number, and the counter `x`, an `int`, is left out: a string
-- is shorter than 2 ^ 31.
pub mod Decoding
pub mod Numbers
use mem_exchange.Prelude.{
  ℕ, ◌+◌, ◌/◌, ◌%◌, Bool, ◌&&◌, ◌||◌, ◌==◌, ltb, leb, if◌then◌else◌, Option, none, some, List, [],
  ◌∷◌, ◌++◌, length,
}

-- `isalnum` in the C locale, and the four other bytes that stand for themselves
unfoldable pub is_kept : ℕ → Bool
is_kept x =
    (leb 48 x && leb x 57)
    || ((leb 65 x && leb x 90)
        || ((leb 97 x && leb x 122) || ((x == 45) || ((x == 46) || ((x == 95) || (x == 126))))))

-- a digit of the conversion `%X`
unfoldable pub hex_digit : ℕ → ℕ
hex_digit n = if ltb n 10 then 48 + n else 55 + n

-- the entry that `uriencode_init` makes for a byte; `none` for NULL
unfoldable pub uriencode_map : ℕ → Option (List ℕ)
uriencode_map x =
    if is_kept x then none else some (37 ∷ hex_digit (x / 16) ∷ hex_digit (x % 16) ∷ [])

-- the bytes that an iteration writes
unfoldable pub uriencode_step : ℕ → List ℕ
uriencode_step x = elim (uriencode_map x) [ some code ↦ code | none ↦ x ∷ [] ]

-- what goes before what the rest of the loop writes
unfoldable pub prepend : List ℕ → Option (List ℕ) → Option (List ℕ)
prepend code none = none
prepend code (some out) = some (code ++ out)

-- The loop from the place `d` of `dst` on, with the byte 0 at the end; `none` where it returns false.
unfoldable pub uriencode_from : ℕ → List ℕ → ℕ → Option (List ℕ)
uriencode_from d [] dstlen = some (0 ∷ [])
uriencode_from d (x ∷ src) dstlen =
    let rest = uriencode_from (d + length (uriencode_step x)) src dstlen in
    if leb dstlen (d + 4) then none else prepend (uriencode_step x) rest

unfoldable pub uriencode : List ℕ → ℕ → Option (List ℕ)
uriencode src dstlen = uriencode_from 0 src dstlen
