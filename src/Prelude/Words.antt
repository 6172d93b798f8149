-- ===== src/Prelude/Words.antt =====
-- Machine words: `size_t` and pointers of 64 bits, `unsigned int` of 32.
use Prim.Native.Nat.{ℕ, ◌+◌, ◌-◌, ◌%◌, ◌^◌}
use mem_exchange.Prelude.Tests.{ltb, if◌then◌else◌}

abbrev pub word : ℕ
word = 2 ^ 64

abbrev pub add64 : ℕ → ℕ → ℕ
add64 a b = (a + b) % word

abbrev pub sub64 : ℕ → ℕ → ℕ
sub64 a b = (a + word - b) % word

abbrev pub add32 : ℕ → ℕ → ℕ
add32 a b = (a + b) % 2 ^ 32

abbrev pub sub32 : ℕ → ℕ → ℕ
sub32 a b = (a + 2 ^ 32 - b) % 2 ^ 32

-- A word stored in an `int`, and widened to a word again: its low 32 bits, sign-extended.
abbrev pub through_int : ℕ → ℕ
through_int n = let r = n % 2 ^ 32 in if ltb r (2 ^ 31) then r else r + (word - 2 ^ 32)
