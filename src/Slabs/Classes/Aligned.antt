-- ===== src/Slabs/Classes/Aligned.antt =====
-- The chunk sizes that slabs_init of src/slabs.c makes.
use mem_exchange.Prelude.{
  ℕ, zero, suc, ◌+◌, ◌-◌, ◌/◌, ◌%◌, ◌≤◌, ◌<◌, ◌≡◌, refl, Bool, false, ◌==◌, arith, Bool-cases, inl,
  inr, Option, none, some, subst,
}
use mem_exchange.Slabs.State.{Pool}
use mem_exchange.Slabs.Pages.{Settings, Slabs, Outside}
use mem_exchange.Slabs.Classes.{Factor, align_size, init_classes, set_size, slabs_init, zero_class}

align_size-mod : (size : ℕ) → align_size size % 8 ≡ 0
unfolding align_size
align_size-mod size = ground arith

-- the classes from `i` up to `last` have chunks of whole machine words, as many to a page as fit
abbrev pub Aligned : Settings → Pool → ℕ → ℕ → Type 0
Aligned o p i last =
    (j : ℕ)
    → i ≤ j
    → j < last
    → ((p.slabclass j).size % 8 ≡ 0)
      × ((p.slabclass j).perslab ≡ o.slab_page_size / (p.slabclass j).size)

-- What the loop makes of the classes from `i` on; those before it stay.
record Inits (o : Settings) (n i : ℕ) (p : Pool) (r : ℕ × Pool) : Type 0 where
  more : i ≤ r.0
  bound : r.0 ≤ i + n
  aligned : Aligned o r.1 i r.0
  before : (j : ℕ) → j < i → r.1.slabclass j ≡ p.slabclass j

Inits-stop : (o : Settings) (n i : ℕ) (p : Pool) → Inits o n i p (i, p)
Inits-stop o n i p = record {
  more = omega arith;
  bound = omega arith;
  aligned = λ j a b. absurd (omega arith);
  before = λ j h. refl;
}

Inits-next :
    (o : Settings) (n i size : ℕ) (p : Pool) (r : ℕ × Pool)
    → size % 8 ≡ 0
    → Inits o n (i + 1) (set_size o i size p) r
    → Inits o (suc n) i p r
Inits-next o n i size p r whole x = record {
  more = omega (arith, x.more);
  bound = omega (arith, x.bound);
  aligned = λ j a b. elim (Bool-cases (j == i)) [
    | inl e ↦
        let same : i ≡ j = ground arith in
        subst
          (λ k.
            ((r.1.slabclass k).size % 8 ≡ 0)
            × ((r.1.slabclass k).perslab ≡ o.slab_page_size / (r.1.slabclass k).size))
          same (rw (x.before i (omega arith)) (ground arith, ground arith))
    | inr e ↦ x.aligned j (ground arith) b
  ];
  before = λ j h. ground (arith, x.before j);
}

init_classes-Inits :
    (o : Settings) (f : Factor) (sizes : Option (ℕ → ℕ)) (n i size : ℕ) (p : Pool)
    → Inits o n i p (init_classes o f sizes n i size p)
unfolding init_classes
init_classes-Inits o f sizes zero i size p = Inits-stop o zero i p
init_classes-Inits o f (some given) (suc n) i size p =
    let aligned = align_size (given (i - 1)) in
    let rest = init_classes-Inits o f (some given) n (i + 1) aligned (set_size o i aligned p) in
    elim (Bool-cases (given (i - 1) == 0)) [
      | inl e ↦ simp e (Inits-stop o (suc n) i p)
      | inr e ↦ simp e (Inits-next o n i aligned p _ (align_size-mod (given (i - 1))) rest)
    ]
init_classes-Inits o f none (suc n) i size p =
    let aligned = align_size size in
    let rest = init_classes-Inits o f none n (i + 1) (f.times aligned) (set_size o i aligned p) in
    elim (Bool-cases (f.at_most size)) [
      | inl e ↦ simp e (Inits-stop o (suc n) i p)
      | inr e ↦ simp e (Inits-next o n i aligned p _ (align_size-mod size) rest)
    ]

-- After slabs_init without preallocation there is a class, at most 63 of them are in use, and every one
-- but the largest has chunks of a multiple of 8 bytes, as many to a page as fit. The largest has the
-- maximal chunk size.
pub slabs_init-Aligned :
    (o : Settings) (f : Factor) (sizes : Option (ℕ → ℕ)) (first limit : ℕ) (isgreedy : Bool)
    (base share : ℕ) (malloced : Option ℕ) (out : ℕ → Outside) (s : Slabs)
    → (s' : Slabs) × ((slabs_init o f sizes first limit false isgreedy base share malloced out s
          ≡ some s')
        × ((1 ≤ s'.pool.power_largest)
            × ((s'.pool.power_largest ≤ 63)
                × (Aligned o s'.pool 1 s'.pool.power_largest
                    × ((s'.pool.slabclass s'.pool.power_largest).size ≡ o.slab_chunk_size_max)))))
unfolding slabs_init
slabs_init-Aligned o f sizes first limit isgreedy base share malloced out s =
    (_, (refl, (x.more, (x.bound, (λ j a b. others j a b, ground arith)))))
  where
    cleared : Pool
    cleared = record s.pool { slabclass = λ i. zero_class }

    r : ℕ × Pool
    r = init_classes o f sizes 62 1 first cleared

    x : Inits o 62 1 cleared r
    x = init_classes-Inits o f sizes 62 1 first cleared

    others :
        (j : ℕ)
        → 1 ≤ j
        → j < r.0
        → (((set_size o r.0 o.slab_chunk_size_max r.1).slabclass j).size % 8 ≡ 0)
          × (((set_size o r.0 o.slab_chunk_size_max r.1).slabclass j).perslab
              ≡ o.slab_page_size / ((set_size o r.0 o.slab_chunk_size_max r.1).slabclass j).size)
    others j a b = let e : (j == r.0) ≡ false = ground arith in simp e (x.aligned j a b)
