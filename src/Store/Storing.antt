-- ===== src/Store/Storing.antt =====
-- do_store_item of src/memcached.c keeps its promise for add, set, replace and cas.
use mem_exchange.Prelude.{
  ℕ, ◌+◌, ◌<◌, ◌≡◌, refl, sym, ◌∙◌, ap, ap₂, true, false, Option, none, some, List, ◌==◌, arith,
  if◌then◌else◌, inl, inr, Bool-cases, add64,
}
use mem_exchange.Slabs.State.{at}
use mem_exchange.Items.Update.{item_clsid, do_item_update}
use mem_exchange.Assoc.Key.{same_key, same_key_iff}
use mem_exchange.Assoc.Lookup.{view}
use mem_exchange.Store.{entry_keyed, ItemSettings, Store, item_at, item_get_cas}
use mem_exchange.Store.Items.{refcount_incr, do_item_replace, do_item_remove, do_item_get}
use mem_exchange.Store.Command.{
  Comm, nread_add, nread_set, nread_replace, nread_append, nread_prepend, nread_cas, StoreItemType,
  not_stored, stored, exists, not_found, over, afresh, is_stored, decide_storage,
}
use mem_exchange.Store.Whole.{
  is_linked, refs, Whole, removed, do_item_remove-some, removed-IsWhole, refcount_incr-IsWhole,
  IsWhole-same_held,
}
use mem_exchange.Store.Updating.{do_item_update-IsWhole}
use mem_exchange.Store.Nuking.{live_entry, Missed, is_linked-incr}
use mem_exchange.Store.Getting.{do_item_get-Whole}
use mem_exchange.Store.Replacing.{do_item_replace-Put}
use mem_exchange.Store.Promise.{
  is_single, promised, is_some, has_cas, answered, store_run, finish-some, put_over_run, Ends,
  missed_keeps, missed_stores,
}

abbrev hits_of : ℕ → Store → ℕ → ℕ
hits_of old s = let id = item_clsid (item_at old s) in at s.cas_hits id (add64 (s.cas_hits id) 1)

abbrev badval_of : ℕ → Store → ℕ → ℕ
badval_of old s =
    let id = item_clsid (item_at old s) in at s.cas_badval id (add64 (s.cas_badval id) 1)

cas_hit_run :
    (c : ItemSettings) (hv : ℕ) (answer : Option ℕ) (old it : ℕ) (s s' : Store)
    → (item_get_cas it s == item_get_cas old s) ≡ true
    → do_item_replace c old it hv (record s { cas_hits = hits_of old s }) ≡ some s'
    → over c nread_cas hv answer old it s ≡ some ((stored, it, none), s')
unfolding over
cas_hit_run c hv answer old it s s' same r = rw (same, r) refl

cas_badval_run :
    (c : ItemSettings) (hv : ℕ) (answer : Option ℕ) (old it : ℕ) (s : Store)
    → (item_get_cas it s == item_get_cas old s) ≡ false
    → over c nread_cas hv answer old it s
      ≡ some ((exists, it, none), record s { cas_badval = badval_of old s })
unfolding over
cas_badval_run c hv answer old it s other = rw (other) refl

get_cas-incr : (old a : ℕ) (s : Store) → item_get_cas a (refcount_incr old s) ≡ item_get_cas a s
get_cas-incr old a s = ground arith

same_cas :
    (old it : ℕ) (s : Store)
    → (item_get_cas it (refcount_incr old s) == item_get_cas old (refcount_incr old s))
      ≡ (item_get_cas it s == item_get_cas old s)
same_cas old it s = ap₂ (λ a b. a == b) (get_cas-incr old it s) (get_cas-incr old old s)

module _ (c : ItemSettings) (it : ℕ) (answer : Option ℕ) (s : Store) {held : ℕ → ℕ}
    {qs : ℕ → List ℕ} (w : Whole c held qs s) (off : is_linked s.lru it ≡ false)
    (mine : 0 < held it) (few : (a : ℕ) → refs held s.lru a < 65535) where
  abbrev key : List ℕ
  key = s.keys it

  module _ (old : ℕ) (there : view c.hash s.table key ≡ some (record { address = old; key = key }))
      (live : live_entry c key s ≡ some (record { address = old; key = key }))
      (got : do_item_get c key (c.hash key) false false s
        ≡ some (some old, refcount_incr old s)) where
    abbrev s1 : Store
    s1 = refcount_incr old s

    -- the references while the lookup holds one
    abbrev held1 : ℕ → ℕ
    held1 = at held old (held old + 1)

    on : is_linked s.lru old ≡ true
    on = (w.found key _ there).0

    whole1 : Whole c held1 qs s1
    whole1 = let linked = on in refcount_incr-IsWhole c s w old (ground (arith, linked)) (few old)

    released :
        (s2 : Store) {qs2 : ℕ → List ℕ}
        → Whole c held1 qs2 s2
        → (do_item_remove old s2 ≡ some (removed old s2)) × Whole c held qs2 (removed old s2)
    released s2 w2 =
        let mine1 : 0 < held1 old = ground arith in
        (
          do_item_remove-some c s2 w2 old mine1,
          IsWhole-same_held (λ a. ground arith) (removed-IsWhole c s2 w2 old mine1),
        )

    kept_lookups :
        (result : StoreItemType) (j : List ℕ)
        → is_stored result ≡ false
        → view c.hash s.table j ≡ (
            if same_key j key
            then (if is_stored result
                then some (record { address = it; key = key })
                else live_entry c key s)
            else view c.hash s.table j)
    kept_lookups result j not = elim (Bool-cases (same_key j key)) [
      | inl same ↦
          rw (same, not)
            (ap (view c.hash s.table) ((same_key_iff j key).0 same) ∙ (there ∙ sym live))
      | inr other ↦ rw (other) refl
    ]

    -- nothing is stored
    found_keeps :
        (comm : Comm) (result : StoreItemType) (s2 : Store) {qs2 : ℕ → List ℕ}
        → is_stored result ≡ false
        → over c comm (c.hash key) answer old it s1 ≡ some ((result, it, none), s2)
        → Whole c held1 qs2 s2
        → s2.table ≡ s.table
        → Ends c it answer s w off mine few comm result
    unfolding decide_storage
    found_keeps comm result s2 {qs2} not decided w2 table =
        let (gone, w3) = released s2 w2 in
        (
          answered result it (removed old s2),
          (
            store_run c it comm (c.hash key) answer s s1 (some old) ((result, it, none), s2) _ got
                decided (finish-some result it old s2 (removed old s2) gone),
            record {
              qs = qs2;
              whole = w3;
              lookups = λ j. ap (λ t. view c.hash t j) table ∙ kept_lookups result j not;
            },
          ),
        )

    -- The item goes in the place of the old one; `hits` and `cas` are what else the branch writes.
    found_stores :
        (comm : Comm) (hits : ℕ → ℕ) (cas : Store → ℕ)
        → ((s' : Store)
            → do_item_replace c old it (c.hash key) (record s1 { cas_hits = hits }) ≡ some s'
            → over c comm (c.hash key) answer old it s1
              ≡ some ((stored, it, none), record s' { c_cas = cas s' }))
        → Ends c it answer s w off mine few comm stored
    unfolding decide_storage is_stored
    found_stores comm hits cas branch =
        let s0 = record s1 { cas_hits = hits } in
        let linked = on in
        let mine1 : 0 < held1 it = ground (arith, mine) in
        let few1 : held1 it < 65535 = ground (arith, few it, few old, linked) in
        let (s', (replaced, put)) =
          do_item_replace-Put c it key mine1 few1 old s0 whole1 refl (w.found key _ there).1
            (is_linked-incr old it s ∙ off) (is_linked-incr old old s ∙ linked) in
        let s2 = record s' { c_cas = cas s' } in
        let (gone, w3) = released s2 put.whole in
        (
          answered stored it (removed old s2),
          (
            store_run c it comm (c.hash key) answer s s1 (some old) ((stored, it, none), s2) _ got
                (branch s' replaced) (finish-some stored it old s2 (removed old s2) gone),
            record { qs = put.qs; whole = w3; lookups = put.lookups },
          ),
        )

    found_ends :
        (comm : Comm)
        → is_single comm ≡ true
        → Ends c it answer s w off mine few comm
            (promised comm true (item_get_cas it s == item_get_cas old s))
    unfolding is_single promised over is_stored
    found_ends nread_add h =
        let (qs2, w2) =
          do_item_update-IsWhole old whole1 (is_linked-incr old old s ∙ on) c.lru_segmented
            c.current_time in
        found_keeps nread_add not_stored
          (record s1 { lru = do_item_update c.lru_segmented c.current_time old s1.lru }) refl refl
          w2 refl
    found_ends nread_set h =
        found_stores nread_set s1.cas_hits (item_get_cas it)
          (λ s' r. put_over_run c (c.hash key) old it s1 s' r)
    found_ends nread_replace h =
        found_stores nread_replace s1.cas_hits (item_get_cas it)
          (λ s' r. put_over_run c (c.hash key) old it s1 s' r)
    found_ends nread_append h = cc
    found_ends nread_prepend h = cc
    found_ends nread_cas h = elim (Bool-cases (item_get_cas it s == item_get_cas old s)) [
      | inl same ↦ rw (same) (
          found_stores nread_cas (hits_of old s1) (λ s'. s'.c_cas)
            (λ s' r. cas_hit_run c (c.hash key) answer old it s1 s' (same_cas old it s ∙ same) r))
      | inr other ↦ rw (other) (
          found_keeps nread_cas exists (record s1 { cas_badval = badval_of old s1 }) refl
            (cas_badval_run c (c.hash key) answer old it s1 (same_cas old it s ∙ other)) whole1
            refl)
    ]

  missed_ends :
      (s1 : Store)
      → live_entry c key s ≡ none
      → do_item_get c key (c.hash key) false false s ≡ some (none, s1)
      → Missed c held key s s1
      → (comm : Comm) → is_single comm ≡ true
      → Ends c it answer s w off mine few comm (promised comm false false)
  unfolding is_single promised afresh is_stored
  missed_ends s1 dead got m nread_add h =
      missed_stores c it answer s w off mine few s1 dead got m nread_add refl
  missed_ends s1 dead got m nread_set h =
      missed_stores c it answer s w off mine few s1 dead got m nread_set refl
  missed_ends s1 dead got m nread_replace h =
      missed_keeps c it answer s w off mine few s1 dead got m nread_replace not_stored s1 refl refl
        m.whole refl
  missed_ends s1 dead got m nread_append h = cc
  missed_ends s1 dead got m nread_prepend h = cc
  missed_ends s1 dead got m nread_cas h =
      missed_keeps c it answer s w off mine few s1 dead got m nread_cas not_found _ refl refl
        m.whole refl

  -- An item that is held and not linked is stored by add, set, replace or cas: no assertion fails, the
  -- answer is the promised one, the store is whole with the references that were held, and then the key
  -- finds the item if it was stored, else what was live under it; other keys find what they did.
  pub do_store_item-Stores :
      (comm : Comm)
      → is_single comm ≡ true
      → let e = live_entry c (s.keys it) s in
        Ends c it answer s w off mine few comm (promised comm (is_some e) (has_cas it e s))
  do_store_item-Stores comm h = elim (do_item_get-Whole c key false s w few) [
    | inl (dead, (s1, (got, m))) ↦ rw (dead) (missed_ends s1 dead got m comm h)
    | inr (old, (there, (live, got))) ↦ rw (live) (found_ends old there live got comm h)
  ]
