-- ===== src/Store/Nuking.antt =====
-- What a lookup of src/items.c drops, and what it leaves then.
use mem_exchange.Prelude.{
  ℕ, ◌+◌, ◌<◌, ◌≡◌, refl, ◌∙◌, Bool, true, false, not, ◌&&◌, ◌||◌, Option, none, some, List, ◌==◌,
  leb, arith, if◌then◌else◌,
}
use mem_exchange.Slabs.State.{at}
use mem_exchange.Items.Frames.{item-unlink_q}
use mem_exchange.Items.Update.{put}
use mem_exchange.Assoc.Key.{same_key}
use mem_exchange.Assoc.Table.{Assoc}
use mem_exchange.Assoc.Lookup.{view, find-delete}
use mem_exchange.Store.{Entry, entry_keyed, ItemSettings, Store, item_at}
use mem_exchange.Store.Items.{refcount_incr, item_is_flushed, nuke}
use mem_exchange.Store.Queues.{pulled}
use mem_exchange.Store.Whole.{
  is_linked, refs, Whole, removed, do_item_remove-some, removed-IsWhole, refcount_incr-IsWhole,
  IsWhole-same_held,
}
use mem_exchange.Store.Unlinking.{unlinked, do_item_unlink-Whole}

-- whether a lookup drops an item, by a flush or by its time
abbrev pub is_expired : ItemSettings → ℕ → Store → Bool
is_expired c it s = not ((item_at it s).exptime == 0) && leb (item_at it s).exptime c.current_time

abbrev pub is_outdated : ItemSettings → ℕ → Store → Bool
is_outdated c it s = item_is_flushed c it s || is_expired c it s

-- the entry of a key that a lookup does not drop
unfoldable pub live_entry : ItemSettings → List ℕ → Store → Option Entry
live_entry c key s = elim (view c.hash s.table key) [
  | none ↦ none
  | some f ↦ if is_outdated c f.address s then none else some f
]

-- what a lookup that finds nothing leaves
pub record Missed (c : ItemSettings) (held : ℕ → ℕ) (key : List ℕ) (s s' : Store) : Type 0 where
  pub qs : ℕ → List ℕ
  pub whole : Whole c held qs s'
  pub lookups :
      (j : List ℕ)
      → view c.hash s'.table j ≡ (if same_key key j then none else view c.hash s.table j)
  pub same_keys : s'.keys ≡ s.keys
  pub unlinked_still : (a : ℕ) → is_linked s.lru a ≡ false → is_linked s'.lru a ≡ false

pub is_linked-removed : (it a : ℕ) (s : Store) → is_linked (removed it s).lru a ≡ is_linked s.lru a
is_linked-removed it a s = ground arith

pub is_linked-incr :
    (it a : ℕ) (s : Store) → is_linked (refcount_incr it s).lru a ≡ is_linked s.lru a
is_linked-incr it a s = ground arith

pub is_linked-unlinked :
    (it a : ℕ) (t' : Assoc Entry) (s : Store)
    → is_linked s.lru a ≡ false
    → is_linked (unlinked it t' s).lru a ≡ false
is_linked-unlinked it a t' s off =
    let e = item_at it s in
    let e' = record e { it_flags = record e.it_flags { linked = false } } in
    ground (arith, item-unlink_q it a (put it e' s.lru))

unlinked_still_off :
    (it a : ℕ) (t' : Assoc Entry) (s : Store)
    → is_linked s.lru a ≡ false
    → is_linked (removed it (removed it (unlinked it t' (refcount_incr it s)))).lru a ≡ false
unlinked_still_off it a t' s off =
    let s1 = refcount_incr it s in
    is_linked-removed it a (removed it (unlinked it t' s1))
    ∙ (is_linked-removed it a (unlinked it t' s1)
        ∙ is_linked-unlinked it a t' s1 (is_linked-incr it a s ∙ off))

module _ (c : ItemSettings) (it : ℕ) (s : Store) {held : ℕ → ℕ} {qs : ℕ → List ℕ}
    (w : Whole c held qs s) (on : is_linked s.lru it ≡ true)
    (room : refs held s.lru it < 65535) where
  -- an item that is out of date, with the reference of the lookup
  pub nuke-Missed :
      (s2 : Store) × ((nuke it (c.hash (s.keys it)) (refcount_incr it s) ≡ some s2)
        × Missed c held (s.keys it) s s2)
  unfolding nuke
  nuke-Missed =
      let s1 = refcount_incr it s in
      let w1 = refcount_incr-IsWhole c s w it (ground arith) room in
      let (t', (gone, (run, w2))) = do_item_unlink-Whole c it s1 w1 (ground arith) in
      let s2 = removed it (unlinked it t' s1) in
      let mine : 0 < at held it (held it + 1) it = ground arith in
      let w3 =
        IsWhole-same_held {held' = held} (λ a. ground arith) (removed-IsWhole c s2 w2 it mine) in
      (
        removed it s2,
        (
          rw (run) (do_item_remove-some c s2 w2 it mine),
          record {
            qs = pulled it (item_at it s1).slabs_clsid qs;
            whole = w3;
            lookups = λ j. (find-delete c.hash (s.keys it) j s.table t' w.valid gone).0;
            same_keys = refl;
            unlinked_still = λ a off. unlinked_still_off it a t' s off;
          },
        ),
      )
