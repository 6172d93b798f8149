-- ===== src/Slabs/Reassign/Picks.antt =====
-- Which classes slabs_reassign_pick_any and force_reassign of src/slabs.c find, and which requests
-- do_slabs_reassign accepts.
use mem_exchange.Prelude.{
  sym, ◌∙◌, ℕ, zero, suc, ◌+◌, ◌≤◌, ◌<◌, ◌≡◌, ◌≢◌, ◌⊎◌, inl, inr, refl, true, false, ltb, arith,
  if◌then◌else◌, ℤ, pos, negsuc, ◌==ℤ◌, Bool-cases, ==ℤ_iff,
}
use mem_exchange.Slabs.State.{Pool}
use mem_exchange.Slabs.Reassign.{
  external, reassign_ok, Mover, in_range, next_class, pick_from, slabs_reassign_pick_any, no_spare,
  reassign_check, accept, is_ok, reassign_pages, do_slabs_reassign,
}

-- a class that can give a page to class `dst`
abbrev pub CanGive : ℤ → Pool → ℕ → Type 0
CanGive dst p c = (1 ≤ c) × ((c ≤ p.power_largest) × ((pos c ≢ dst) × (1 < (p.slabclass c).slabs)))

-- the classes that the next n rounds look at, from class `cur` on
abbrev pub Ahead : ℕ → ℕ → ℕ → ℕ → Type 0
Ahead largest n cur c = ((cur < c) × (c ≤ cur + n)) ⊎ (c + largest ≤ cur + n)

next_class-range :
    (cur : ℕ) (p : Pool)
    → 1 ≤ p.power_largest
    → (1 ≤ next_class cur p) × (next_class cur p ≤ p.power_largest)
unfolding next_class
next_class-range cur p some = (ground arith, ground arith)

next_class-Ahead :
    (n cur c : ℕ) (p : Pool)
    → cur ≤ p.power_largest
    → 1 ≤ c
    → c ≤ p.power_largest
    → Ahead p.power_largest (suc n) cur c
    → (c ≡ next_class cur p) ⊎ Ahead p.power_largest n (next_class cur p) c
unfolding next_class
next_class-Ahead n cur c p h lo hi a = ground arith

-- The outcome of a search of n rounds: a class that can give a page, or none of those looked at can.
abbrev pub Picks : ℕ → ℕ → ℤ → Pool → ℤ × ℕ → Type 0
Picks n cur dst p r =
    ((c : ℕ) × ((r.0 ≡ pos c) × CanGive dst p c))
    ⊎ ((r.0 ≡ negsuc 0)
        × ((c : ℕ)
            → 1 ≤ c
            → c ≤ p.power_largest
            → Ahead p.power_largest n cur c
            → (pos c ≡ dst) ⊎ ((p.slabclass c).slabs ≤ 1)))

Picks-next :
    (n cur : ℕ) (dst : ℤ) (p : Pool) (r : ℤ × ℕ)
    → cur ≤ p.power_largest
    → (pos (next_class cur p) ≡ dst) ⊎ ((p.slabclass (next_class cur p)).slabs ≤ 1)
    → Picks n (next_class cur p) dst p r
    → Picks (suc n) cur dst p r
Picks-next n cur dst p r h bad (inl y) = inl y
Picks-next n cur dst p r h bad (inr (e, all)) = inr (
  e,
  λ c lo hi a. elim (next_class-Ahead n cur c p h lo hi a) [
    | inl same ↦ rw same bad
    | inr later ↦ all c lo hi later
  ],
)

pick_from-Picks :
    (n cur : ℕ) (dst : ℤ) (p : Pool)
    → cur ≤ p.power_largest
    → 1 ≤ p.power_largest
    → Picks n cur dst p (pick_from n dst cur p)
unfolding pick_from
pick_from-Picks zero cur dst p h some =
    inr (refl, λ c lo hi a. absurd (elim a [ inl e ↦ omega arith | inr e ↦ omega arith ]))
pick_from-Picks (suc n) cur dst p h some =
    let (lo, hi) = next_class-range cur p some in
    let rest = pick_from-Picks n (next_class cur p) dst p hi some in
    elim (Bool-cases (pos (next_class cur p) ==ℤ dst)) [
      | inl e ↦
          let same : pos (next_class cur p) ≡ dst = (==ℤ_iff _ _).0 e in
          simp e (Picks-next n cur dst p (pick_from n dst (next_class cur p) p) h (inl same) rest)
      | inr e ↦ elim (Bool-cases (ltb 1 (p.slabclass (next_class cur p)).slabs)) [
        | inl g ↦
            let other : pos (next_class cur p) ≢ dst =
              λ k. ground (arith, (==ℤ_iff (pos (next_class cur p)) dst).1 k) in
            simp (e, g) (inl (_, (refl, (lo, (hi, (other, ground arith))))))
        | inr g ↦
            simp (e, g)
              (Picks-next n cur dst p (pick_from n dst (next_class cur p) p) h (inr (ground arith))
                rest)
      ]
    ]

-- slabs_reassign_pick_any looks at every class once: it gives a class other than the destination that
-- has more than one page, or -1 when there is none.
pub slabs_reassign_pick_any_complete :
    (dst : ℤ) (cur : ℕ) (p : Pool)
    → cur ≤ p.power_largest
    → 1 ≤ p.power_largest
    → ((c : ℕ) × (((slabs_reassign_pick_any dst cur p).0 ≡ pos c) × CanGive dst p c))
      ⊎ (((slabs_reassign_pick_any dst cur p).0 ≡ negsuc 0)
          × ((c : ℕ) → 1 ≤ c → c ≤ p.power_largest → (pos c ≡ dst) ⊎ ((p.slabclass c).slabs ≤ 1)))
unfolding slabs_reassign_pick_any
slabs_reassign_pick_any_complete dst cur p h some =
    elim (pick_from-Picks p.power_largest cur dst p h some) [
      | inl y ↦ inl y
      | inr (e, all) ↦ inr (e, λ c lo hi. all c lo hi (around cur c p h hi))
    ]
  where
    around :
        (cur c : ℕ) (p : Pool)
        → cur ≤ p.power_largest
        → c ≤ p.power_largest
        → Ahead p.power_largest p.power_largest cur c
    around cur c p h hi = elim (Bool-cases (ltb cur c)) [
      | inl e ↦ inl (ground arith, omega arith)
      | inr e ↦ inr (ground arith)
    ]

-- a class of this tenant that can give a page: class 1, or one with a page to spare
abbrev pub Source : ℤ → Pool → Type 0
Source x p =
    (c : ℕ) × (x ≡ pos c)
    × (1 ≤ c)
    × (c ≤ p.power_largest)
    × ((c ≡ 1) ⊎ (2 ≤ (p.slabclass c).slabs))

-- a class of this tenant, or 0 for the pool of pages
abbrev pub Target : ℤ → Pool → Type 0
Target x p = (c : ℕ) × (x ≡ pos c) × (c ≤ p.power_largest)

Source-test : (x : ℤ) (p : Pool) → in_range 1 x p ≡ true → no_spare x p ≡ false → Source x p
Source-test (pos c) p range spare = (c, refl, ground arith, ground arith, one_or_two)
  where
    one_or_two : (c ≡ 1) ⊎ (2 ≤ (p.slabclass c).slabs)
    one_or_two = ground arith
Source-test (negsuc c) p range spare = ground arith

Target-test : (x : ℤ) (p : Pool) → in_range 0 x p ≡ true → Target x p
Target-test (pos c) p range = (c, refl, ground arith)
Target-test (negsuc c) p range = ground arith

picked-apart :
    (dst : ℤ) (cur : ℕ) (p : Pool)
    → cur ≤ p.power_largest
    → 1 ≤ p.power_largest
    → in_range 1 (slabs_reassign_pick_any dst cur p).0 p ≡ true
    → (slabs_reassign_pick_any dst cur p).0 ≢ dst
picked-apart dst cur p h some range = elim (slabs_reassign_pick_any_complete dst cur p h some) [
  | inl (c, (e, (lo, (hi, (other, give))))) ↦ λ k. other (sym e ∙ k)
  | inr (e, all) ↦ let bad : in_range 1 (negsuc 0) p ≡ true = rw e at range in ground arith
]

-- what a request that wakes the mover asks for
pub record Woken (dst : ℤ) (p : Pool) (m m' : Mover) : Type 0 where
  pub woken : m'.signal ≡ 1
  pub to : m'.rebal.d_clsid ≡ dst
  pub source : external m.realloc_source ≡ false → Source m'.rebal.s_clsid p
  pub target :
      (external m.realloc_source ≡ true) ⊎ (external m.realloc_destination ≡ false) → Target dst p
  pub apart :
      external m.realloc_source ≡ false
      → external m.realloc_destination ≡ false
      → m'.rebal.s_clsid ≢ dst

pages-Woken :
    (src dst : ℤ) (p : Pool) (m m' : Mover)
    → (src ≡ dst → external m.realloc_source ≡ true)
    → m.cur ≤ p.power_largest
    → 1 ≤ p.power_largest
    → reassign_pages src dst p m ≡ (reassign_ok, m')
    → Woken dst p m m'
unfolding reassign_pages reassign_check accept is_ok
pages-Woken src dst p m m' same h some run = record {
  woken = ground arith;
  to = ground arith;
  source = λ own. Source-test _ p (from_range own) (ground arith);
  target = λ which. Target-test dst p (elim which [ inl e ↦ ground arith | inr e ↦ ground arith ]);
  apart = λ own kept. elim (Bool-cases (src ==ℤ negsuc 0)) [
    | inl e ↦
        let is : m'.rebal.s_clsid ≡ picked = from ∙ simp e refl in
        λ k. picked-apart dst m.cur p h some (rw is at (from_range own)) (sym is ∙ k)
    | inr e ↦
        let is : m'.rebal.s_clsid ≡ src = from ∙ simp e refl in
        λ k. let out = same (sym is ∙ k) in ground arith
  ];
}
  where
    picked : ℤ
    picked = (slabs_reassign_pick_any dst m.cur p).0

    from_range : external m.realloc_source ≡ false → in_range 1 m'.rebal.s_clsid p ≡ true
    from_range own = ground arith

    from : m'.rebal.s_clsid ≡ (if src ==ℤ negsuc 0 then picked else src)
    from = ground arith

-- A request that is accepted found the mover idle. With the source 1000 it tells the mover to wait for a
-- page for `dst`. Any other one wakes it for `dst`; unless the page comes from outside, the source is class
-- 1 or a class with at least two pages; unless it goes outside only, `dst` is a class in use or 0; and
-- within this tenant the two differ.
pub do_slabs_reassign-accepts :
    (src dst : ℤ) (p : Pool) (m m' : Mover)
    → m.cur ≤ p.power_largest
    → 1 ≤ p.power_largest
    → do_slabs_reassign src dst p m ≡ (reassign_ok, m')
    → (m.signal ≡ 0)
      × (((src ≡ pos 1000) × (m'.signal ≡ 10) × (m'.rebal.d_clsid ≡ dst))
          ⊎ ((src ≢ pos 1000) × Woken dst p m m'))
unfolding do_slabs_reassign
do_slabs_reassign-accepts src dst p m m' h some run =
    let idle : m.signal ≡ 0 = ground arith in
    elim (Bool-cases (src ==ℤ pos 1000)) [
      | inl e ↦ (idle, inl ((==ℤ_iff _ _).0 e, ground arith, ground arith))
      | inr e ↦
          let other : src ≢ pos 1000 = λ k. ground (arith, (==ℤ_iff src (pos 1000)).1 k) in
          let same : src ≡ dst → external m.realloc_source ≡ true =
            λ k. let equal = (==ℤ_iff src dst).1 k in ground arith in
          let pages : reassign_pages src dst p m ≡ (reassign_ok, m') = ground arith in
          (idle, inr (other, pages-Woken src dst p m m' same h some pages))
    ]
