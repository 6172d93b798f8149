-- ===== src/Slabs/Pages/Release.antt =====
-- memory_release and do_slabs_adjust_mem_limit of src/slabs.c: how many pages of the page pool go back
-- to the system.
use mem_exchange.Prelude.{
  ℕ, zero, suc, ◌+◌, ◌-◌, ◌*◌, ◌≤◌, ◌<◌, ◌^◌, ◌≡◌, ◌≢◌, ◌⊎◌, inl, inr, refl, ◌==◌, leb, arith,
  sub64, leb→le, Bool-cases,
}
use mem_exchange.Slabs.State.{page_pool}
use mem_exchange.Slabs.Pages.{Slabs, get_page_from_global_pool, release_pages}

abbrev pub pooled : Slabs → ℕ
pooled s = (s.pool.slabclass page_pool).slabs

-- the pages of the page pool are not NULL
abbrev pub Real : Slabs → Type 0
Real s = (k : ℕ) → k < pooled s → (s.pool.slabclass page_pool).slab_list k ≢ 0

-- From `s` to `s'` pages of `size` bytes went back, until the limit was kept or no page was left, and
-- none after that.
pub record Released (size : ℕ) (s s' : Slabs) : Type 0 where
  pub taken : pooled s' ≤ pooled s
  pub paid : s'.mem_malloced + (pooled s - pooled s') * size ≡ s.mem_malloced
  pub kept : (s'.mem_malloced ≤ s.mem_limit) ⊎ (pooled s' ≡ 0)
  pub needed : (pooled s' ≡ pooled s) ⊎ (s.mem_limit < s'.mem_malloced + size)

-- one round of the loop
next_release : ℕ → Slabs → Slabs
next_release size s = record s {
  pool = (get_page_from_global_pool s.pool).1;
  mem_malloced = sub64 s.mem_malloced size;
}

round :
    (n size : ℕ) (s : Slabs)
    → s.mem_limit < s.mem_malloced
    → (get_page_from_global_pool s.pool).0 ≢ 0
    → release_pages (suc n) size s ≡ release_pages n size (next_release size s)
unfolding release_pages next_release
round n size s over page = ground arith

stop : (n size : ℕ) (s : Slabs) → s.mem_malloced ≤ s.mem_limit → release_pages n size s ≡ s
unfolding release_pages
stop zero size s h = refl
stop (suc n) size s h = ground arith

empty : (n size : ℕ) (s : Slabs) → pooled s ≡ 0 → release_pages n size s ≡ s
unfolding release_pages get_page_from_global_pool
empty zero size s h = refl
empty (suc n) size s h = ground arith

next_release-facts :
    (size : ℕ) (s : Slabs)
    → 0 < pooled s
    → size ≤ s.mem_malloced
    → s.mem_malloced < 2 ^ 64
    → ((next_release size s).mem_limit ≡ s.mem_limit)
      × (((next_release size s).mem_malloced + size ≡ s.mem_malloced)
          × ((pooled (next_release size s) + 1 ≡ pooled s)
              × (((next_release size s).pool.slabclass page_pool).slab_list
                  ≡ (s.pool.slabclass page_pool).slab_list)))
unfolding next_release get_page_from_global_pool
next_release-facts size s some fits small = (refl, (ground arith, (ground arith, ground arith)))

same-Released :
    (size : ℕ) (s : Slabs) → (s.mem_malloced ≤ s.mem_limit) ⊎ (pooled s ≡ 0) → Released size s s
same-Released size s why = record {
  taken = omega arith;
  paid = let none : pooled s - pooled s ≡ 0 = omega arith in rw none (omega arith);
  kept = why;
  needed = inl refl;
}

next-Released :
    (size : ℕ) (s r : Slabs)
    → s.mem_limit < s.mem_malloced
    → 0 < pooled s
    → size ≤ s.mem_malloced
    → s.mem_malloced < 2 ^ 64
    → Released size (next_release size s) r
    → Released size s r
next-Released size s r over some fits small x =
    let (limit, (paid, (count, pages))) = next_release-facts size s some fits small in
    let taken = x.taken in
    let step : pooled s - pooled r ≡ (pooled (next_release size s) - pooled r) + 1 = omega arith in
    record {
      taken = omega arith;
      paid = rw step (omega (arith, x.paid, paid));
      kept = elim x.kept [ inl e ↦ inl (omega arith) | inr e ↦ inr e ];
      needed = elim x.needed [
        | inl e ↦
            let all : pooled (next_release size s) - pooled r ≡ 0 = omega arith in
            let paid' : r.mem_malloced + 0 * size ≡ (next_release size s).mem_malloced =
              rw all at x.paid in
            inr (omega arith)
        | inr e ↦ inr (omega arith)
      ];
    }

page_there : (s : Slabs) → 0 < pooled s → Real s → (get_page_from_global_pool s.pool).0 ≢ 0
unfolding get_page_from_global_pool
page_there s some real = ground (arith, real (pooled s - 1))

Real-next :
    (size : ℕ) (s : Slabs)
    → 0 < pooled s
    → size ≤ s.mem_malloced
    → s.mem_malloced < 2 ^ 64
    → Real s
    → Real (next_release size s)
Real-next size s some one small real k h =
    let (limit, (paid, (count, pages))) = next_release-facts size s some one small in
    rw pages (real k (omega arith))

-- A round for every page of the pool is enough: memory_release stops when the limit is kept or the
-- pool is empty, and takes no page that it does not need.
pub release_pages-Released :
    (n size : ℕ) (s : Slabs)
    → pooled s ≤ n
    → Real s
    → pooled s * size ≤ s.mem_malloced
    → s.mem_malloced < 2 ^ 64
    → Released size s (release_pages n size s)
release_pages-Released zero size s h real fits small =
    rw (empty zero size s (omega arith)) (same-Released size s (inr (omega arith)))
release_pages-Released (suc n) size s h real fits small =
    elim (Bool-cases (leb s.mem_malloced s.mem_limit)) [
      | inl e ↦ rw (stop (suc n) size s (leb→le _ _ e)) (same-Released size s (inl (leb→le _ _ e)))
      | inr e ↦ elim (Bool-cases (pooled s == 0)) [
        | inl z ↦
            let z' : pooled s ≡ 0 = ground arith in
            rw (empty (suc n) size s z') (same-Released size s (inr z'))
        | inr z ↦
            let over : s.mem_limit < s.mem_malloced = ground arith in
            let some : 0 < pooled s = ground arith in
            let k = pooled s - 1 in
            let more : pooled s ≡ k + 1 = omega arith in
            let fits' : (k + 1) * size ≤ s.mem_malloced = rw more at fits in
            let one : size ≤ s.mem_malloced = omega arith in
            let (limit, (paid, (count, pages))) = next_release-facts size s some one small in
            let left : pooled (next_release size s) ≡ k = omega arith in
            rw (round n size s over (page_there s some real)) (
              next-Released size s _ over some one small (
                release_pages-Released n size (next_release size s) (omega arith)
                  (Real-next size s some one small real) (rw left (omega arith)) (omega arith)))
      ]
    ]
