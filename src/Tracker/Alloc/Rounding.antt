-- ===== src/Tracker/Alloc/Rounding.antt =====
-- The rounding of a request to whole memory pages: `page_round` of src/shm_malloc.c.
use native.Mathlib.Nat.{mod-eq_of_lt, div-add-mod, mod-lt}
use mem_exchange.Prelude.{
  ℕ, ◌+◌, ◌*◌, ◌/◌, ◌%◌, ◌^◌, ◌≤◌, ◌<◌, ◌≡◌, ap, ◌∙◌, through_int, word, arith,
}
use mem_exchange.Tracker.Alloc.{page_round}

-- The page size divides into words of 8 bytes, and a request is at most 2 ^ 31 - 2 pages, so that
-- the page index is an `int`.
pub record Fits (page n : ℕ) : Type 0 where
  pub positive : 0 < page
  pub whole : page % 8 ≡ 0
  pub small : page ≤ 2 ^ 30
  pub index : n / page < 2 ^ 31

through_int_small : (k : ℕ) → k < 2 ^ 31 → through_int k ≡ k
through_int_small k h = ground arith

product_bound : (k page : ℕ) → k < 2 ^ 31 → page ≤ 2 ^ 30 → (k + 1) * page ≤ 2 ^ 31 * 2 ^ 30
product_bound k page h p = grind arith

-- Under `Fits` the size is a plain product.
pub page_round-eq : {page n : ℕ} → Fits page n → page_round page n ≡ (n / page + 1) * page
page_round-eq {page} {n} f =
    ap (λ (t : ℕ). ((t + 1) * page) % word) (through_int_small (n / page) f.index)
    ∙ mod-eq_of_lt (omega (arith, product_bound (n / page) page f.index f.small))

pub page_round_bounds :
    {page n : ℕ}
    → Fits page n
    → (n < page_round page n) × (page_round page n ≤ n + page) × (page_round page n ≤ 2 ^ 61)
page_round_bounds {page} {n} f = rw (page_round-eq f) (
    omega (
      arith,
      product_bound (n / page) page f.index f.small,
      div-add-mod n page,
      mod-lt n {m = page} f.positive,
    ))

whole_product : (k page : ℕ) → page % 8 ≡ 0 → 8 * (k * page / 8) ≡ k * page
whole_product k page h =
    let eighth : page ≡ 8 * (page / 8) = omega arith in
    let split : k * page ≡ 8 * (k * (page / 8)) = ap (λ (t : ℕ). k * t) eighth ∙ omega arith in
    omega arith

pub page_round_whole : {page n : ℕ} → Fits page n → 8 * (page_round page n / 8) ≡ page_round page n
page_round_whole {page} {n} f = rw (page_round-eq f) (whole_product (n / page + 1) page f.whole)
