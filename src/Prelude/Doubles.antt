-- ===== src/Prelude/Doubles.antt =====
-- The `double` values of the tracker. Their order and arithmetic are the machine's: an instance
-- gives the operations that the source uses, and the laws of IEEE comparison that the proofs use.
use Prim.Native.Nat.{ℕ}
use mathlib.Core.Path.{◌≡◌}
use mathlib.Core.Bool.{Bool, true, false}

-- The laws also hold of comparisons with a NaN, which are false.
pub record Double (D : Type 0) : Type 0 where
  pub lt : D → D → Bool
  pub eq : D → D → Bool
  pub of_size : ℕ → D
  pub add : D → D → D
  pub sub : D → D → D
  -- 9999999999, the score of no candidate
  pub worst : D
  -- -1
  pub minus_one : D
  -- `__DBL_MAX__`
  pub dbl_max : D
  -- `INT_MIN` as a double
  pub int_min : D
  pub lt_irrefl : (a : D) → lt a a ≡ false
  pub lt_trans : (a b c : D) → lt a b ≡ true → lt b c ≡ true → lt a c ≡ true
  pub eq_refl-dbl_max : eq dbl_max dbl_max ≡ true
