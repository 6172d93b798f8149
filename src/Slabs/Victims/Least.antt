-- ===== src/Slabs/Victims/Least.antt =====
-- The page that calculate_scores of src/slabs.c would give up.
use mem_exchange.Prelude.{
  ℕ, zero, suc, ◌+◌, ◌-◌, ◌≤◌, ◌<◌, ◌≡◌, ◌≢◌, ◌⊎◌, inl, inr, refl, sym, ap, ◌∙◌, false, not, ◌&&◌,
  ◌||◌, ◌==◌, ltb, arith, if◌then◌else◌, pos, negsuc, ◌==ℤ◌, ==ℤ_iff, Bool-cases,
}
use mem_exchange.Slabs.State.{SlabClass, Pool}
use mem_exchange.Slabs.Victims.{Pick, no_pick, scan_pages, scan_classes, pick_page}

abbrev pub picked : ℕ → ℕ → SlabClass → Pick
picked i j c = record { lowest_mu = c.hits j; cls_id2 = pos i; page_id2 = pos j }

-- The scan of the pages `j` .. `j + n - 1` of a class, from `k` on, gave `r`.
record Scanned (i j n : ℕ) (c : SlabClass) (k r : Pick) : Type 0 where
  least : (x : ℕ) → j ≤ x → x < j + n → c.conn x ≡ 0 → r.lowest_mu ≤ c.hits x
  lower : r.lowest_mu ≤ k.lowest_mu
  kind : (r ≡ k) ⊎ ((x : ℕ) × ((j ≤ x) × ((x < j + n) × ((c.conn x ≡ 0) × (r ≡ picked i x c)))))

Scanned-next :
    (i j n : ℕ) (c : SlabClass) (k r : Pick)
    → (c.conn j ≡ 0 → k.lowest_mu ≤ c.hits j)
    → Scanned i (j + 1) n c k r
    → Scanned i j (suc n) c k r
Scanned-next i j n c k r first s = record {
  least = λ x lo hi near. elim (Bool-cases (x == j)) [
    | inl e ↦ let same : x ≡ j = ground arith in ground (arith, first, s.lower)
    | inr e ↦ s.least x (ground arith) (omega arith) near
  ];
  lower = s.lower;
  kind = elim s.kind [
    | inl e ↦ inl e
    | inr (x, (lo, (hi, (near, is)))) ↦ inr (x, (omega arith, (omega arith, (near, is))))
  ];
}

Scanned-found :
    (i j n : ℕ) (c : SlabClass) (k r : Pick)
    → c.hits j < k.lowest_mu
    → c.conn j ≡ 0
    → Scanned i (j + 1) n c (picked i j c) r
    → Scanned i j (suc n) c k r
Scanned-found i j n c k r lower near s =
    let t = Scanned-next i j n c (picked i j c) r (λ e. omega arith) s in
    record {
      least = t.least;
      lower = omega (arith, t.lower);
      kind = elim t.kind [
        | inl e ↦ inr (j, (omega arith, (omega arith, (near, e))))
        | inr y ↦ inr y
      ];
    }

scan_pages-Scanned :
    (n i j : ℕ) (c : SlabClass) (k : Pick) → Scanned i j n c k (scan_pages false n i j c k)
unfolding scan_pages
scan_pages-Scanned zero i j c k = record {
  least = λ x lo hi near. absurd (omega arith);
  lower = omega arith;
  kind = inl refl;
}
scan_pages-Scanned (suc n) i j c k =
    let on = scan_pages-Scanned n i (j + 1) c k in
    let on_found = scan_pages-Scanned n i (j + 1) c (picked i j c) in
    elim (Bool-cases (ltb (c.hits j) k.lowest_mu && c.conn j == 0)) [
      | inl e ↦ elim (Bool-cases (c.hits j == 0)) [
        | inl g ↦
            simp (e, g)
              (Scanned-found i j n c k (picked i j c) (ground arith) (ground arith) (record {
                least = λ x lo hi near. ground arith;
                lower = omega arith;
                kind = inl refl;
              }))
        | inr g ↦ simp (e, g) (Scanned-found i j n c k _ (ground arith) (ground arith) on_found)
      ]
      | inr e ↦ simp e (Scanned-next i j n c k _ (λ near. ground arith) on)
    ]

-- a local page that may be given up: not of the last victim, with ten pages more in its class
abbrev pub Candidate : ℕ → Pool → ℕ → ℕ → Type 0
Candidate prev p i x =
    (i ≢ prev)
    × ((10 < (p.slabclass i).slabs)
        × ((x ≤ (p.slabclass i).slabs - 10) × ((p.slabclass i).conn x ≡ 0)))

-- The scan of the classes `i` .. `i + n - 1`, from `k` on, gave `r`.
record Searched (prev : ℕ) (p : Pool) (i n : ℕ) (k r : Pick) : Type 0 where
  least :
      (y x : ℕ) → i ≤ y → y < i + n → Candidate prev p y x → r.lowest_mu ≤ (p.slabclass y).hits x
  lower : r.lowest_mu ≤ k.lowest_mu
  kind :
      (r ≡ k)
      ⊎ ((y : ℕ) × ((x : ℕ) × ((i ≤ y)
              × ((y < i + n) × (Candidate prev p y x × (r ≡ picked y x (p.slabclass y)))))))

-- one class alone
class_pick : ℕ → ℕ → SlabClass → Pick → Pick
class_pick prev i c k =
    if not (i == prev) && ltb 10 c.slabs then scan_pages false (c.slabs - 10 + 1) i 0 c k else k

class-Searched :
    (prev i : ℕ) (p : Pool) (k : Pick) → Searched prev p i 1 k (class_pick prev i (p.slabclass i) k)
unfolding class_pick
class-Searched prev i p k = elim (Bool-cases (not (i == prev) && ltb 10 (p.slabclass i).slabs)) [
  | inl e ↦
      let s = scan_pages-Scanned ((p.slabclass i).slabs - 10 + 1) i 0 (p.slabclass i) k in
      let other : i ≢ prev = ground arith in
      let many : 10 < (p.slabclass i).slabs = ground arith in
      simp e (record {
        least = λ y x lo hi (a, (b, (c, near))).
            let same : y ≡ i = omega arith in
            let near' : (p.slabclass i).conn x ≡ 0 = rw same at near in
            let c' : x ≤ (p.slabclass i).slabs - 10 = rw same at c in
            rw same (s.least x (omega arith) (omega arith) near');
        lower = s.lower;
        kind = elim s.kind [
          | inl is ↦ inl is
          | inr (x, (lo, (hi, (near, is)))) ↦
              inr (i, (x, (omega arith, (omega arith, ((other, (many, (omega arith, near))), is)))))
        ];
      })
  | inr e ↦ simp e (record {
    least =
        λ y x lo hi (a, (b, (c, near))). let same : y ≡ i = omega arith in absurd (none e a b same);
    lower = omega arith;
    kind = inl refl;
  })
]
  where
    none :
        {y : ℕ}
        → (not (i == prev) && ltb 10 (p.slabclass i).slabs) ≡ false
        → y ≢ prev
        → 10 < (p.slabclass y).slabs
        → y ≡ i
        → ⊥
    none e a b same =
        let a' : i ≢ prev = rw same at a in
        let b' : 10 < (p.slabclass i).slabs = rw same at b in ground arith

Searched-next :
    (prev i n : ℕ) (p : Pool) (k k1 r : Pick)
    → Searched prev p i 1 k k1
    → Searched prev p (i + 1) n k1 r
    → Searched prev p i (suc n) k r
Searched-next prev i n p k k1 r one rest = record {
  least = λ y x lo hi c. elim (Bool-cases (y == i)) [
    | inl e ↦
        let first : k1.lowest_mu ≤ (p.slabclass y).hits x = one.least y x lo (ground arith) c in
        omega (arith, rest.lower)
    | inr e ↦ rest.least y x (ground arith) (omega arith) c
  ];
  lower = omega (arith, one.lower, rest.lower);
  kind = elim rest.kind [
    | inr (y, (x, (lo, (hi, more)))) ↦ inr (y, (x, (omega arith, (omega arith, more))))
    | inl e ↦ elim one.kind [
      | inl g ↦ inl (e ∙ g)
      | inr (y, (x, (lo, (hi, (c, g))))) ↦ inr (y, (x, (lo, (omega arith, (c, e ∙ g)))))
    ]
  ];
}

Searched-stop : (prev i n : ℕ) (p : Pool) (k : Pick) → k.lowest_mu ≡ 0 → Searched prev p i n k k
Searched-stop prev i n p k nought = record {
  least = λ y x lo hi c. omega arith;
  lower = omega arith;
  kind = inl refl;
}

scan_classes-Searched :
    (n prev i : ℕ) (p : Pool) (k : Pick)
    → k.cls_id2 ≢ negsuc 1
    → Searched prev p i n k (scan_classes false prev n i p k)
unfolding scan_classes class_pick
scan_classes-Searched zero prev i p k real = record {
  least = λ y x lo hi c. absurd (omega arith);
  lower = omega arith;
  kind = inl refl;
}
scan_classes-Searched (suc n) prev i p k real =
    let k1 = class_pick prev i (p.slabclass i) k in
    let one = class-Searched prev i p k in
    let real1 : k1.cls_id2 ≢ negsuc 1 = real_pick one.kind in
    let rest = scan_classes-Searched n prev (i + 1) p k1 real1 in
    elim (Bool-cases (k1.lowest_mu == 0 || k1.cls_id2 ==ℤ negsuc 1)) [
      | inl e ↦
          let nought : k1.lowest_mu ≡ 0 =
            ground (arith, (==ℤ_iff k1.cls_id2 (negsuc 1)).0, real1) in
          rw (e, scan_classes)
            (Searched-next prev i n p k k1 k1 one (Searched-stop prev (i + 1) n p k1 nought))
      | inr e ↦ rw (e, scan_classes) (Searched-next prev i n p k k1 _ one rest)
    ]
  where
    real_pick :
        {k1 : Pick}
        → (k1 ≡ k)
          ⊎ ((y : ℕ) × ((x : ℕ) × ((i ≤ y)
                  × ((y < i + 1) × (Candidate prev p y x × (k1 ≡ picked y x (p.slabclass y)))))))
        → k1.cls_id2 ≢ negsuc 1
    real_pick (inl e) h = real (sym (ap (λ q. q.cls_id2) e) ∙ h)
    real_pick (inr (y, (x, (lo, (hi, (c, e)))))) h =
        let bad : pos y ≡ negsuc 1 = sym (ap (λ q. q.cls_id2) e) ∙ h in ground arith

-- Unless there is plenty of free space, the pick is a candidate page, and none has fewer hits; or
-- there is no pick, and every candidate has at least 1000000000 hits.
pub pick_page_least :
    (mem_avail prev : ℕ) (p : Pool)
    → mem_avail ≤ 2000000
    → ((i x : ℕ)
        → 1 ≤ i
        → i < 1 + p.power_largest
        → Candidate prev p i x
        → (pick_page mem_avail prev p).lowest_mu ≤ (p.slabclass i).hits x)
      × ((pick_page mem_avail prev p ≡ no_pick)
          ⊎ ((i : ℕ) × ((x : ℕ) × ((1 ≤ i)
                  × ((i < 1 + p.power_largest)
                      × (Candidate prev p i x
                          × (pick_page mem_avail prev p ≡ picked i x (p.slabclass i))))))))
unfolding pick_page
pick_page_least mem_avail prev p h =
    let tight : ltb 2000000 mem_avail ≡ false = ground arith in
    let s = scan_classes-Searched p.power_largest prev 1 p no_pick (λ e. ground arith) in
    rw tight (s.least, s.kind)
