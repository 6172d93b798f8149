-- ===== src/Shadow/Order.antt =====
-- Lists of addresses as the specification of the linked queue in src/shadows.c: the neighbours of an
-- element, before and after another one is taken out. Zero is the null address.
use mem_exchange.Prelude.{
  ℕ, ◌+◌, ◌≡◌, ◌≢◌, refl, sym, Bool, true, false, not, ◌&&◌, ◌||◌, List, [], ◌∷◌, ◌==◌, arith,
  if◌then◌else◌, length, inl, inr, Bool-cases,
}

unfoldable pub mem : ℕ → List ℕ → Bool
mem a [] = false
mem a (x ∷ xs) = a == x || mem a xs

unfoldable pub unique : List ℕ → Bool
unique [] = true
unique (x ∷ xs) = not (mem x xs) && unique xs

unfoldable pub first : List ℕ → ℕ
first [] = 0
first (x ∷ xs) = x

-- the last element, `p` where there is none
unfoldable pub last_from : ℕ → List ℕ → ℕ
last_from p [] = p
last_from p (x ∷ xs) = last_from x xs

unfoldable pub next_of : ℕ → List ℕ → ℕ
next_of a [] = 0
next_of a (x ∷ xs) = if a == x then first xs else next_of a xs

-- the element before `a`, `p` where `a` is the first
unfoldable pub prev_from : ℕ → ℕ → List ℕ → ℕ
prev_from p a [] = 0
prev_from p a (x ∷ xs) = if a == x then p else prev_from x a xs

unfoldable pub del : ℕ → List ℕ → List ℕ
del a [] = []
del a (x ∷ xs) = if a == x then xs else x ∷ del a xs

pub mem-del :
    (a x : ℕ) (xs : List ℕ) → unique xs ≡ true → mem a (del x xs) ≡ (mem a xs && not (a == x))
unfolding mem unique del
mem-del a x [] u = refl
mem-del a x (y ∷ xs) u = ground (arith, mem-del a x xs)

pub unique-del : (x : ℕ) (xs : List ℕ) → unique xs ≡ true → unique (del x xs) ≡ true
unfolding mem unique del
unique-del x [] u = refl
unique-del x (y ∷ xs) u = ground (arith, unique-del x xs, mem-del y x xs)

pub length-del : (x : ℕ) (xs : List ℕ) → mem x xs ≡ true → length (del x xs) + 1 ≡ length xs
unfolding mem del
length-del x [] m = cc
length-del x (y ∷ xs) m = ground (arith, length-del x xs)

first-mem : (x : ℕ) (xs : List ℕ) → x ≢ 0 → mem x xs ≡ false → first xs ≢ x
unfolding mem first
first-mem x [] n m = λ e. n (sym e)
first-mem x (y ∷ xs) n m = λ e. ground arith

pub next-mem : (a x : ℕ) (xs : List ℕ) → x ≢ 0 → mem x xs ≡ false → next_of a xs ≢ x
unfolding mem next_of
next-mem a x [] n m = λ e. n (sym e)
next-mem a x (y ∷ xs) n m = ground (arith, next-mem a x xs, first-mem x xs)

pub last-mem : (p x : ℕ) (xs : List ℕ) → p ≢ x → mem x xs ≡ false → last_from p xs ≢ x
unfolding mem last_from
last-mem p x [] n m = n
last-mem p x (y ∷ xs) n m = ground (arith, last-mem y x xs)

pub prev-mem : (p a x : ℕ) (xs : List ℕ) → x ≢ 0 → p ≢ x → mem x xs ≡ false → prev_from p a xs ≢ x
unfolding mem prev_from
prev-mem p a x [] z n m = λ e. z (sym e)
prev-mem p a x (y ∷ xs) z n m = ground (arith, prev-mem y a x xs)

pub first-del :
    (x : ℕ) (xs : List ℕ)
    → mem x xs ≡ true
    → mem 0 xs ≡ false
    → first (del x xs) ≡ (if first xs == x then next_of x xs else first xs)
unfolding mem del first next_of
first-del x [] m z = cc
first-del x (y ∷ xs) m z = ground arith

pub next-del :
    (a x : ℕ) (xs : List ℕ)
    → unique xs ≡ true
    → mem x xs ≡ true
    → mem 0 xs ≡ false
    → a ≢ x
    → next_of a (del x xs) ≡ (if next_of a xs == x then next_of x xs else next_of a xs)
unfolding mem unique del next_of
next-del a x [] u m z d = cc
next-del a x (y ∷ xs) u m z d = elim (Bool-cases (x == y)) [
  | inl e ↦ ground (arith, next-mem a x xs)
  | inr e ↦ ground (arith, next-del a x xs, first-del x xs)
]

pub last-del :
    (p x : ℕ) (xs : List ℕ)
    → unique xs ≡ true
    → mem x xs ≡ true
    → p ≢ x
    → last_from p (del x xs) ≡ (if last_from p xs == x then prev_from p x xs else last_from p xs)
unfolding mem unique del last_from prev_from
last-del p x [] u m d = cc
last-del p x (y ∷ []) u m d = ground arith
last-del p x (y ∷ z ∷ xs) u m d = elim (Bool-cases (x == y)) [
  | inl e ↦ ground (arith, last-mem z x xs)
  | inr e ↦ ground (arith, last-del y x (z ∷ xs))
]

pub prev-del :
    (p a x : ℕ) (xs : List ℕ)
    → unique xs ≡ true
    → mem x xs ≡ true
    → mem 0 xs ≡ false
    → a ≢ x
    → p ≢ x
    → prev_from p a (del x xs)
      ≡ (if prev_from p a xs == x then prev_from p x xs else prev_from p a xs)
unfolding mem unique del prev_from
prev-del p a x [] u m z d e = cc
prev-del p a x (y ∷ []) u m z d e = ground arith
prev-del p a x (y ∷ w ∷ xs) u m z d e = elim (Bool-cases (x == y)) [
  | inl f ↦ ground (arith, prev-mem w a x xs)
  | inr f ↦ ground (arith, prev-del y a x (w ∷ xs))
]

-- `a` is before `x` if and only if `x` is after `a`.
pub next-prev :
    (p a x : ℕ) (xs : List ℕ)
    → unique xs ≡ true
    → mem a xs ≡ true
    → mem x xs ≡ true
    → mem 0 xs ≡ false
    → mem p xs ≡ false
    → (next_of a xs == x) ≡ (prev_from p x xs == a)
unfolding mem unique next_of prev_from first
next-prev p a x [] u m n z q = cc
next-prev p a x (y ∷ []) u m n z q = ground arith
next-prev p a x (y ∷ w ∷ xs) u m n z q = elim (Bool-cases (a == y)) [
  | inl e ↦ ground (arith, prev-mem w x a xs)
  | inr e ↦ elim (Bool-cases (x == y)) [
    | inl f ↦ ground (arith, next-mem a x xs)
    | inr f ↦ ground (arith, next-prev y a x (w ∷ xs))
  ]
]
