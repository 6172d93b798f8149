-- ===== src/Store/Delta/Leaks.antt =====
-- How do_add_delta of src/memcached.c ends, and the references that it leaves.
use mathlib.Core.Option.{some-injective}
use mem_exchange.Prelude.{
  ℕ, ◌+◌, ◌<◌, ◌≡◌, refl, sym, ◌∙◌, ap, subst, Bool, true, false, ◌||◌, Option, some, List, [], leb,
  arith, inl, inr,
}
use mem_exchange.Slabs.State.{at}
use mem_exchange.Assoc.Lookup.{view}
use mem_exchange.Util.Numbers.{Parsed}
use mem_exchange.Store.{Entry, entry_keyed, ItemSettings, Store, item_at}
use mem_exchange.Store.Items.{refcount_incr, do_item_get}
use mem_exchange.Store.Delta.{non_numeric, add_delta_to, do_add_delta}
use mem_exchange.Store.Whole.{refs, Whole, refcount_incr-IsWhole}
use mem_exchange.Store.Nuking.{live_entry}
use mem_exchange.Store.Getting.{do_item_get-Whole}

pub delta_run :
    (strtoull : List ℕ → Parsed ℕ) (digits : ℕ → List ℕ) (c : ItemSettings) (key : List ℕ) (hv : ℕ)
    (incr : Bool) (delta : ℕ) (cas answer : Option ℕ) (it : ℕ) (s s1 : Store)
    → do_item_get c key hv false false s ≡ some (some it, s1)
    → do_add_delta strtoull digits c key hv incr delta cas answer s
      ≡ add_delta_to strtoull digits c hv incr delta cas answer it s1
unfolding do_add_delta
delta_run strtoull digits c key hv incr delta cas answer it s s1 got = rw (got) refl

unnumbered_run :
    (strtoull : List ℕ → Parsed ℕ) (digits : ℕ → List ℕ) (c : ItemSettings) (hv : ℕ) (incr : Bool)
    (delta : ℕ) (cas answer : Option ℕ) (it : ℕ) (s : Store)
    → (leb (item_at it s).nbytes 2 || (item_at it s).it_flags.chunked) ≡ true
    → add_delta_to strtoull digits c hv incr delta cas answer it s
      ≡ some ((non_numeric, [], cas), s)
unfolding add_delta_to
unnumbered_run strtoull digits c hv incr delta cas answer it s e = rw (e) refl

pub found_live :
    (c : ItemSettings) (key : List ℕ) (s : Store) (it : ℕ)
    → live_entry c key s ≡ some (record { address = it; key = key })
    → view c.hash s.table key ≡ some (record { address = it; key = key })
unfolding live_entry
found_live c key s it live = ground (arith, live)

module _ (c : ItemSettings) (key : List ℕ) (s : Store) {held : ℕ → ℕ} {qs : ℕ → List ℕ}
    (w : Whole c held qs s) (few : (a : ℕ) → refs held s.lru a < 65535) (it : ℕ)
    (live : live_entry c key s ≡ some (record { address = it; key = key })) where
  pub live_got : do_item_get c key (c.hash key) false false s ≡ some (some it, refcount_incr it s)
  live_got = elim (do_item_get-Whole c key false s w few) [
    | inl (dead, _) ↦ cc (dead, live)
    | inr (old, (there, (live', got))) ↦
        let is : old ≡ it = ap (λ (f : Entry). f.address) (some-injective _ _ (sym live' ∙ live)) in
        subst (λ a. do_item_get c key (c.hash key) false false s ≡ some (some a, refcount_incr a s))
          is got
  ]

  pub live_whole : Whole c (at held it (held it + 1)) qs (refcount_incr it s)
  live_whole =
      let linked = (w.found key _ (found_live c key s it live)).0 in
      refcount_incr-IsWhole c s w it (ground (arith, linked)) (few it)

  -- An increment of a live item that is chunked, or whose data are at most the line end, fails and keeps
  -- the reference of its lookup: the counter stays one higher than the references that anyone holds.
  pub do_add_delta_leaks :
      (strtoull : List ℕ → Parsed ℕ) (digits : ℕ → List ℕ) (incr : Bool) (delta : ℕ)
      (cas answer : Option ℕ)
      → (leb (item_at it s).nbytes 2 || (item_at it s).it_flags.chunked) ≡ true
      → (s' : Store) × ((do_add_delta strtoull digits c key (c.hash key) incr delta cas answer s
            ≡ some ((non_numeric, [], cas), s'))
          × (((item_at it s').refcount ≡ (item_at it s).refcount + 1)
              × Whole c (at held it (held it + 1)) qs s'))
  do_add_delta_leaks strtoull digits incr delta cas answer no_number =
      let s1 = refcount_incr it s in
      let linked = (w.found key _ (found_live c key s it live)).0 in
      let counted = w.counted it (ground (arith, linked)) in
      (
        s1,
        (
          delta_run strtoull digits c key (c.hash key) incr delta cas answer it s s1 live_got
              ∙ unnumbered_run strtoull digits c (c.hash key) incr delta cas answer it s1
                  (ground (arith, no_number)),
          (ground (arith, counted, few it), live_whole),
        ),
      )
