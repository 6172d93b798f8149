-- ===== src/Cache/Zones.antt =====
-- The red zones and the pool of src/cache.c.
use mem_exchange.Prelude.{
  ℕ, ◌-◌, ◌≤◌, ◌<◌, ◌≡◌, ◌≢◌, ◌⊎◌, inl, inr, refl, sym, subst, ◌∙◌, Bool-cases, Bool, true, false,
  ◌==◌, ltb, arith, if◌then◌else◌, List, [], ◌∷◌, length,
}
use mem_exchange.Cache.{
  Cache, redzone_pattern, zone_behind, guard, do_cache_alloc, keep, do_cache_free,
}

-- An object that is given has both red zones, and comes from the pool or from the system.
alloc-zones :
    (block : ℕ) (built : Bool) (c : Cache)
    → (do_cache_alloc block built c).0 ≢ 0
    → let (object, c') = do_cache_alloc block built c in
      (8 ≤ object)
      × ((c'.words (zone_behind c' object) ≡ redzone_pattern)
          × ((c'.words (object - 8) ≡ redzone_pattern)
              × ((c'.freetotal ≡ c.freetotal)
                  × ((c'.cache_error ≡ c.cache_error) × (length c'.free ≤ length c.free)))))
unfolding do_cache_alloc guard
alloc-zones block built c given = go c.free refl
  where
    Zoned : ℕ × Cache → Type 0
    Zoned (object, c') =
        (8 ≤ object)
        × ((c'.words (zone_behind c' object) ≡ redzone_pattern)
            × ((c'.words (object - 8) ≡ redzone_pattern)
                × ((c'.freetotal ≡ c.freetotal)
                    × ((c'.cache_error ≡ c.cache_error) × (length c'.free ≤ length c.free)))))

    guarded :
        (ptr : ℕ) (q : Cache)
        → q.freetotal ≡ c.freetotal
        → q.cache_error ≡ c.cache_error
        → length q.free ≤ length c.free
        → Zoned (guard ptr q)
    guarded ptr q t e l = (omega arith, (ground arith, (ground arith, (t, (e, l)))))

    fresh :
        (b f : Bool)
        → (if b then (0, c) else (if f then guard block c else (0, c))).0 ≢ 0
        → Zoned (if b then (0, c) else (if f then guard block c else (0, c)))
    fresh true f h = absurd (h refl)
    fresh false true h = guarded block c refl refl (omega arith)
    fresh false false h = absurd (h refl)

    go : (xs : List ℕ) → c.free ≡ xs → Zoned (do_cache_alloc block built c)
    go [] e =
        let is : do_cache_alloc block built c
            ≡ (if block == 0 then (0, c) else (if built then guard block c else (0, c))) =
          simp (e, do_cache_alloc) refl in
        subst Zoned (sym is) (fresh (block == 0) built (subst (λ r. r.0 ≢ 0) is given))
    go (ptr ∷ rest) e =
        let is : do_cache_alloc block built c ≡ guard ptr (record c { free = rest }) =
          simp (e, do_cache_alloc) refl in
        let fewer : length rest ≤ length c.free =
          subst (λ l. length rest ≤ length l) (sym e) (omega arith) in
        subst Zoned (sym is) (guarded ptr (record c { free = rest }) refl refl fewer)

-- An object whose zones are whole is given again by the allocation that follows its return, if the
-- pool has room or grows; the pool then holds what it held before.
pub do_cache_alloc-free :
    (block object : ℕ) (built realloc_ok : Bool) (c : Cache)
    → 8 ≤ object
    → c.words (zone_behind c object) ≡ redzone_pattern
    → c.words (object - 8) ≡ redzone_pattern
    → (length c.free < c.freetotal) ⊎ (realloc_ok ≡ true)
    → let (again, c') = do_cache_alloc block built (do_cache_free realloc_ok object c) in
      (again ≡ object) × ((c'.free ≡ c.free) × (c'.cache_error ≡ c.cache_error))
unfolding do_cache_alloc do_cache_free keep guard
do_cache_alloc-free block object built realloc_ok c lo behind before room =
    let a : (c.words (zone_behind c object) == redzone_pattern) ≡ true = ground arith in
    let b : (c.words (object - 8) == redzone_pattern) ≡ true = ground arith in
    elim (Bool-cases (ltb (length c.free) c.freetotal)) [
      | inl e ↦ simp (a, b, e) (omega arith, (refl, refl))
      | inr e ↦
          let grows : realloc_ok ≡ true = ground arith in
          simp (a, b, e, grows) (omega arith, (refl, refl))
    ]

-- What an allocation gives can be returned at once, if the pool has room for it: the object is
-- accepted, and the next allocation gives it again.
pub do_cache_alloc_again :
    (block other : ℕ) (built built' realloc_ok : Bool) (c : Cache)
    → length c.free < c.freetotal
    → (do_cache_alloc block built c).0 ≢ 0
    → let (object, c') = do_cache_alloc block built c in
      let (again, c'') = do_cache_alloc other built' (do_cache_free realloc_ok object c') in
      (again ≡ object) × ((c''.free ≡ c'.free) × (c''.cache_error ≡ c.cache_error))
do_cache_alloc_again block other built built' realloc_ok c room given =
    let (object, c') = do_cache_alloc block built c in
    let (lo, (behind, (before, (total, (error, fewer))))) = alloc-zones block built c given in
    let (again, (free, error')) =
      do_cache_alloc-free other object built' realloc_ok c' lo behind before (inl (omega arith)) in
    (again, (free, error' ∙ error))
