-- ===== src/Tokens/Pieces.antt =====
-- Lists cut at an index, for the strings of src/memcached.c.
use mem_exchange.Prelude.{
  ℕ, zero, suc, ◌≡◌, refl, ap, List, [], ◌∷◌, ◌++◌, length, get_or, set, take, drop, arith,
}

pub drop-next :
    (xs : List ℕ) (n : ℕ) (y : ℕ) (ys : List ℕ) → drop n xs ≡ y ∷ ys → drop (suc n) xs ≡ ys
drop-next [] zero y ys e = ground arith
drop-next [] (suc n) y ys e = ground arith
drop-next (x ∷ xs) zero y ys e = ground arith
drop-next (x ∷ xs) (suc n) y ys e = drop-next xs n y ys e

pub get_or-drop : (xs : List ℕ) (n y d : ℕ) (ys : List ℕ) → drop n xs ≡ y ∷ ys → get_or xs n d ≡ y
get_or-drop [] zero y d ys e = ground arith
get_or-drop [] (suc n) y d ys e = ground arith
get_or-drop (x ∷ xs) zero y d ys e = ground arith
get_or-drop (x ∷ xs) (suc n) y d ys e = get_or-drop xs n y d ys e

pub get_or-past : (xs : List ℕ) (n d : ℕ) → drop n xs ≡ [] → get_or xs n d ≡ d
get_or-past [] n d e = refl
get_or-past (x ∷ xs) zero d e = ground arith
get_or-past (x ∷ xs) (suc n) d e = get_or-past xs n d e

-- a write behind the index
pub drop-set : (xs : List ℕ) (n v : ℕ) → drop (suc n) (set xs n v) ≡ drop (suc n) xs
drop-set [] n v = refl
drop-set (x ∷ xs) zero v = refl
drop-set (x ∷ xs) (suc n) v = drop-set xs n v

pub drop-length : (xs ys : List ℕ) → drop (length xs) (xs ++ ys) ≡ ys
drop-length [] ys = refl
drop-length (x ∷ xs) ys = drop-length xs ys

pub take-length : (xs ys : List ℕ) → take (length xs) (xs ++ ys) ≡ xs
take-length [] ys = refl
take-length (x ∷ xs) ys = ap (λ (zs : List ℕ). x ∷ zs) (take-length xs ys)
