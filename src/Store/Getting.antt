-- ===== src/Store/Getting.antt =====
-- do_item_get of src/items.c without DO_UPDATE keeps the store whole: an item that is live is found with
-- one more reference, and one that is out of date is dropped.
use mathlib.Core.Option.{some-injective}
use mem_exchange.Prelude.{
  ℕ, ◌<◌, ◌≡◌, ◌⊎◌, refl, sym, ◌∙◌, ap, subst, Bool, true, false, none, some, List, arith,
  if◌then◌else◌, inl, inr, Bool-cases, Option-cases, add64,
}
use mem_exchange.Assoc.Key.{same_key, same_key_iff}
use mem_exchange.Assoc.Lookup.{view}
use mem_exchange.Store.{Entry, entry_keyed, ItemSettings, Store}
use mem_exchange.Store.Items.{refcount_incr, item_is_flushed, nuke, keep_or_drop, do_item_get}
use mem_exchange.Store.Whole.{refs, Whole}
use mem_exchange.Store.Nuking.{is_expired, is_outdated, live_entry, Missed, nuke-Missed}

outdated-incr :
    (c : ItemSettings) (it : ℕ) (s : Store)
    → is_outdated c it (refcount_incr it s) ≡ is_outdated c it s
unfolding item_is_flushed
outdated-incr c it s = ground arith

keep_live :
    (c : ItemSettings) (hv it : ℕ) (room : Bool) (s : Store)
    → is_outdated c it s ≡ false
    → keep_or_drop c hv false room it s ≡ some (some it, s)
unfolding keep_or_drop
keep_live c hv it room s live =
    let a : item_is_flushed c it s ≡ false = ground arith in
    let b : is_expired c it s ≡ false = ground arith in rw (a, b) refl

drop_outdated :
    (c : ItemSettings) (hv it : ℕ) (room : Bool) (held : ℕ → ℕ) (key : List ℕ) (s0 s s2 : Store)
    → is_outdated c it s ≡ true
    → nuke it hv s ≡ some s2
    → Missed c held key s0 s2
    → (s' : Store) × ((keep_or_drop c hv false room it s ≡ some (none, s'))
        × Missed c held key s0 s')
unfolding keep_or_drop
drop_outdated c hv it room held key s0 s s2 old run m = elim (Bool-cases (item_is_flushed c it s)) [
  | inl a ↦ (
    record s2 { get_flushed = add64 s2.get_flushed 1 },
    (
      rw (a, run) refl,
      record {
        qs = m.qs;
        whole = m.whole;
        lookups = m.lookups;
        same_keys = m.same_keys;
        unlinked_still = m.unlinked_still;
      },
    ),
  )
  | inr a ↦
      let b : is_expired c it s ≡ true = ground arith in
      (
        record s2 { get_expired = add64 s2.get_expired 1 },
        (
          rw (a, b, run) refl,
          record {
            qs = m.qs;
            whole = m.whole;
            lookups = m.lookups;
            same_keys = m.same_keys;
            unlinked_still = m.unlinked_still;
          },
        ),
      )
]

module _ (c : ItemSettings) (key : List ℕ) (room : Bool) (s : Store) where
  get_absent :
      view c.hash s.table key ≡ none
      → (live_entry c key s ≡ none) × (do_item_get c key (c.hash key) false room s ≡ some (none, s))
  unfolding do_item_get live_entry
  get_absent e = (rw (e, live_entry) refl, rw (e, do_item_get) refl)

  get_found :
      (f : Entry)
      → view c.hash s.table key ≡ some f
      → (live_entry c key s ≡ (if is_outdated c f.address s then none else some f))
        × (do_item_get c key (c.hash key) false room s
            ≡ keep_or_drop c (c.hash key) false room f.address (refcount_incr f.address s))
  unfolding do_item_get live_entry
  get_found f e = (rw (e, live_entry) refl, rw (e, do_item_get) refl)

module _ (c : ItemSettings) (key : List ℕ) (room : Bool) (s : Store) {held : ℕ → ℕ}
    {qs : ℕ → List ℕ} (w : Whole c held qs s) (few : (a : ℕ) → refs held s.lru a < 65535) where
  abbrev pub Gets : Type 0
  Gets =
      ((live_entry c key s ≡ none)
        × ((s' : Store) × ((do_item_get c key (c.hash key) false room s ≡ some (none, s'))
              × Missed c held key s s')))
      ⊎ ((it : ℕ) × ((view c.hash s.table key ≡ some (record { address = it; key = key }))
            × ((live_entry c key s ≡ some (record { address = it; key = key }))
                × (do_item_get c key (c.hash key) false room s
                    ≡ some (some it, refcount_incr it s)))))

  lookup_absent :
      (j : List ℕ)
      → view c.hash s.table key ≡ none
      → view c.hash s.table j ≡ (if same_key key j then none else view c.hash s.table j)
  lookup_absent j absent = elim (Bool-cases (same_key key j)) [
    | inl same ↦ rw (same) (ap (view c.hash s.table) (sym ((same_key_iff key j).0 same)) ∙ absent)
    | inr other ↦ rw (other) refl
  ]

  gets_absent : view c.hash s.table key ≡ none → Gets
  gets_absent absent =
      let (dead, run) = get_absent c key room s absent in
      inl (
        dead,
        (
          s,
          (
            run,
            record {
              qs = qs;
              whole = w;
              lookups = λ j. lookup_absent j absent;
              same_keys = refl;
              unlinked_still = λ a off. off;
            },
          ),
        ),
      )

  gets_found : (f : Entry) → view c.hash s.table key ≡ some f → Gets
  gets_found f there =
      let it = f.address in
      let (on, same) = w.found key f there in
      let s1 = refcount_incr it s in
      let (live, run) = get_found c key room s f there in
      elim (Bool-cases (is_outdated c it s)) [
        | inl old ↦
            let (s2, (nuked, missed)) = nuke-Missed c it s w on (few it) in
            let nuked' : nuke it (c.hash key) s1 ≡ some s2 =
              subst (λ k. nuke it (c.hash k) s1 ≡ some s2) same nuked in
            let missed' : Missed c held key s s2 = subst (λ k. Missed c held k s s2) same missed in
            let (s', (dropped, m)) =
              drop_outdated c (c.hash key) it room held key s s1 s2 (outdated-incr c it s ∙ old)
                nuked' missed' in
            inl (live ∙ rw (old) refl, (s', (run ∙ dropped, m)))
        | inr fresh ↦
            let is : f ≡ record { address = it; key = key } = some-injective _ _ (
              sym there
              ∙ subst (λ k. view c.hash s.table k ≡ some (record { address = it; key = k })) same
                  (w.tabled it on)) in
            inr (
              it,
              (
                there ∙ ap some is,
                (
                  live ∙ rw (fresh) (ap some is),
                  run ∙ keep_live c (c.hash key) it room s1 (outdated-incr c it s ∙ fresh),
                ),
              ),
            )
      ]

  -- In a whole store a lookup without DO_UPDATE succeeds. Either the key has no live item: the lookup
  -- gives none, drops what is out of date under the key, and leaves a whole store with the references
  -- that were held, in which every other key finds what it did. Or the key has a live item, and the lookup
  -- gives it and counts one more reference to it.
  pub do_item_get-Whole : Gets
  do_item_get-Whole = elim (Option-cases (view c.hash s.table key)) [
    | inl absent ↦ gets_absent absent
    | inr (f, there) ↦ gets_found f there
  ]
