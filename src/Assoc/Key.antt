-- ===== src/Assoc/Key.antt =====
-- The comparison of keys in src/assoc.c: `(nkey == it->nkey) && (memcmp(key, ITEM_key(it), nkey) == 0)`.
use mem_exchange.Prelude.{
  ℕ, zero, suc, ◌≡◌, refl, Bool, true, false, ◌&&◌, List, [], ◌∷◌, ◌==◌, length, arith, ◌↔◌,
}

-- `memcmp(a, b, n) == 0` on byte strings of at least `n` bytes
unfoldable pub memcmp_eq : List ℕ → List ℕ → ℕ → Bool
memcmp_eq a b zero = true
memcmp_eq [] b (suc n) = false
memcmp_eq (x ∷ a) [] (suc n) = false
memcmp_eq (x ∷ a) (y ∷ b) (suc n) = x == y && memcmp_eq a b n

unfoldable pub same_key : List ℕ → List ℕ → Bool
same_key key k = length key == length k && memcmp_eq key k (length key)

memcmp_eq_refl : (a : List ℕ) → memcmp_eq a a (length a) ≡ true
unfolding memcmp_eq
memcmp_eq_refl [] = refl
memcmp_eq_refl (x ∷ a) = ground (arith, memcmp_eq_refl a)

memcmp_eq_sound : (a b : List ℕ) → length a ≡ length b → memcmp_eq a b (length a) ≡ true → a ≡ b
unfolding memcmp_eq
memcmp_eq_sound [] [] l e = refl
memcmp_eq_sound [] (y ∷ b) l e = absurd (omega arith)
memcmp_eq_sound (x ∷ a) [] l e = absurd (omega arith)
memcmp_eq_sound (x ∷ a) (y ∷ b) l e = ground (arith, memcmp_eq_sound a b)

-- The test decides equality of keys.
pub same_key_iff : (a b : List ℕ) → (same_key a b ≡ true) ↔ (a ≡ b)
unfolding same_key
same_key_iff a b = (
  λ h. memcmp_eq_sound a b (ground arith) (ground arith),
  λ e. rw (← e) (ground (arith, memcmp_eq_refl a)),
)
