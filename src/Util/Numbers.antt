-- ===== src/Util/Numbers.antt =====
-- The conversions `safe_strtoull`, `safe_strtoll`, `safe_strtoul` and `safe_strtol` of src/util.c. What
-- the C library makes of a text, by `strtoull` and its kin, is an argument. `long` has 64 bits.
use mem_exchange.Prelude.{
  ℕ, zero, suc, ◌-◌, ◌%◌, ◌^◌, Bool, false, not, ◌&&◌, ◌||◌, ◌==◌, leb, ltb, if◌then◌else◌, Option,
  none, some, List, [], ◌∷◌, ℤ, pos, negsuc,
}

-- What a conversion gives: its value, whether `errno` is then ERANGE, and where `endptr` points, counted
-- from the start of the text.
pub record Parsed (N : Type 0) : Type 0 where
  pub value : N
  pub erange : Bool
  pub end : ℕ

-- the byte of a text at a place, with the byte 0 behind the last
unfoldable pub byte_at : List ℕ → ℕ → ℕ
byte_at [] n = 0
byte_at (c ∷ str) zero = c
byte_at (c ∷ str) (suc n) = byte_at str n

unfoldable pub xisspace : ℕ → Bool
xisspace c = (c == 32) || (leb 9 c && leb c 13)

-- `strchr(str, '-') != NULL`
unfoldable pub has_minus : List ℕ → Bool
has_minus [] = false
has_minus (c ∷ str) = (c == 45) || has_minus str

-- both tests that the four functions share: a number was read, and the text or its word ends behind it
unfoldable pub is_whole : {N : Type 0} → List ℕ → Parsed N → Bool
is_whole str p =
    let c = byte_at str p.end in
    not (p.erange || (p.end == 0)) && (xisspace c || ((c == 0) && not (p.end == 0)))

-- the uncommon case of a number that is negative as a signed one, and a text with a sign
unfoldable pub is_negative : List ℕ → ℕ → Bool
is_negative str n = leb (2 ^ 63) n && has_minus str

-- What goes to `out`; `none` where the function returns false.
unfoldable pub safe_strtoull : List ℕ → Parsed ℕ → Option ℕ
safe_strtoull str ull =
    if is_whole str ull then (if is_negative str ull.value then none else some ull.value) else none

unfoldable pub safe_strtoll : List ℕ → Parsed ℤ → Option ℤ
safe_strtoll str ll = if is_whole str ll then some ll.value else none

-- The assignment of an `unsigned long` to an `uint32_t` keeps the low 32 bits.
unfoldable pub safe_strtoul : List ℕ → Parsed ℕ → Option ℕ
safe_strtoul str l =
    if is_whole str l
    then (if is_negative str l.value then none else some (l.value % 2 ^ 32))
    else none

-- a number below 2 ^ 32 as the `int32_t` of the same bits
unfoldable pub signed32 : ℕ → ℤ
signed32 n = if ltb n (2 ^ 31) then pos n else negsuc (2 ^ 32 - 1 - n)

-- the low 32 bits of a `long`, as an `int32_t`
unfoldable pub low32 : ℤ → ℤ
low32 (pos n) = signed32 (n % 2 ^ 32)
low32 (negsuc n) = signed32 (2 ^ 32 - 1 - n % 2 ^ 32)

unfoldable pub safe_strtol : List ℕ → Parsed ℤ → Option ℤ
safe_strtol str l = if is_whole str l then some (low32 l.value) else none
