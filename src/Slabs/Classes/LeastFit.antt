-- ===== src/Slabs/Classes/LeastFit.antt =====
-- The class that slabs_clsid of src/slabs.c picks.
use mem_exchange.Prelude.{
  ℕ, refl, zero, suc, ◌+◌, ◌≤◌, ◌<◌, ◌≡◌, ◌⊎◌, inl, inr, ◌==◌, ltb, arith, Bool-cases,
}
use mem_exchange.Slabs.State.{Pool}
use mem_exchange.Slabs.Pages.{Settings}
use mem_exchange.Slabs.Classes.{clsid_from, slabs_clsid}

-- `r` is a class from `res` on, every class before it is too small for `size`, and `r` itself is large
-- enough unless it is the largest class.
abbrev pub IsLeastFit : Pool → ℕ → ℕ → ℕ → Type 0
IsLeastFit p size res r =
    (res ≤ r)
    × ((r ≤ p.power_largest)
        × (((j : ℕ) → res ≤ j → j < r → (p.slabclass j).size < size)
            × ((size ≤ (p.slabclass r).size) ⊎ (r ≡ p.power_largest))))

clsid_from-IsLeastFit :
    (n size res : ℕ) (p : Pool)
    → res ≤ p.power_largest
    → p.power_largest < res + n
    → IsLeastFit p size res (clsid_from n size res p)
unfolding clsid_from
clsid_from-IsLeastFit zero size res p h enough = absurd (omega arith)
clsid_from-IsLeastFit (suc n) size res p h enough =
    elim (Bool-cases (ltb (p.slabclass res).size size)) [
      | inr e ↦ simp e (omega arith, (h, (λ j lo hi. absurd (omega arith), inl (ground arith))))
      | inl e ↦ elim (Bool-cases (res == p.power_largest)) [
        | inl g ↦ simp (e, g) (h, (omega arith, (λ j lo hi. ground arith, inr refl)))
        | inr g ↦
            let more : res < p.power_largest = ground arith in
            let (lo, (hi, (small, fit))) =
              clsid_from-IsLeastFit n size (res + 1) p (omega arith) (omega arith) in
            simp (e, g) (omega arith, (hi, (λ j a b. ground (arith, small j), fit)))
      ]
    ]

-- slabs_clsid gives 0 exactly for the sizes that no item may have. Otherwise it gives a class in use
-- such that every smaller one is too small for the size, and that is itself large enough, unless it is
-- the largest.
pub slabs_clsid-IsLeastFit :
    (o : Settings) (size : ℕ) (p : Pool)
    → 1 ≤ p.power_largest
    → (((size ≡ 0) ⊎ (o.item_size_max < size)) × (slabs_clsid o size p ≡ 0))
      ⊎ ((0 < size) × ((size ≤ o.item_size_max) × IsLeastFit p size 1 (slabs_clsid o size p)))
unfolding slabs_clsid
slabs_clsid-IsLeastFit o size p h = elim (Bool-cases (size == 0)) [
  | inl e ↦ inl (inl (ground arith), simp e refl)
  | inr e ↦ elim (Bool-cases (ltb o.item_size_max size)) [
    | inl g ↦ inl (inr (ground arith), simp (e, g) refl)
    | inr g ↦ inr (
      ground arith,
      (ground arith, simp (e, g) (clsid_from-IsLeastFit p.power_largest size 1 p h (omega arith))),
    )
  ]
]
