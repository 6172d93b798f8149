-- ===== src/Store/Unlinking.antt =====
-- do_item_unlink of src/items.c keeps the store whole.
use mathlib.Core.Option.{some-injective}
use mem_exchange.Prelude.{
  ℕ, ◌+◌, ◌<◌, ◌≡◌, ◌≢◌, refl, sym, ◌∙◌, ap, true, false, some, List, ◌==◌, arith, if◌then◌else◌,
  inl, inr, Bool-cases,
}
use mem_exchange.Slabs.State.{Item, at}
use mem_exchange.Items.Lru.{Lru, do_item_unlink_q}
use mem_exchange.Items.Frames.{relinked, item-unlink_q}
use mem_exchange.Items.Update.{put}
use mem_exchange.Assoc.Key.{same_key, same_key_iff}
use mem_exchange.Assoc.Table.{Assoc, assoc_delete}
use mem_exchange.Assoc.Steps.{assoc_delete-IsValid}
use mem_exchange.Assoc.Lookup.{view, find-delete, delete_found}
use mem_exchange.Store.{Entry, entry_keyed, ItemSettings, Store, item_at, item_stats_sizes_remove}
use mem_exchange.Store.Items.{unlinking, do_item_unlink}
use mem_exchange.Store.Queues.{pulled, pull-queues, pulled_members}
use mem_exchange.Store.Whole.{
  is_linked, IsWhole, Whole, removed, do_item_remove-some, removed-IsWhole, IsWhole-same_held,
}

-- the queues after a header was marked and unlinked
abbrev pub taken_out : ℕ → Item → Lru → Lru
taken_out it e q = do_item_unlink_q it (put it e q)

item-taken_out :
    (it a : ℕ) (e : Item) (q : Lru)
    → let q' = taken_out it e q in
      q'.items a ≡ relinked (q'.items a).next (q'.items a).prev (if a == it then e else q.items a)
item-taken_out it a e q = item-unlink_q it a (put it e q)

module _ {hash : List ℕ → ℕ} {held : ℕ → ℕ} {qs : ℕ → List ℕ} {q : Lru} {t : Assoc Entry}
    {keys : ℕ → List ℕ} (it : ℕ) (e : Item) (t' : Assoc Entry) (w : IsWhole hash held qs q t keys)
    (on : is_linked q it ≡ true) (en : e.next ≡ (q.items it).next) (ep : e.prev ≡ (q.items it).prev)
    (ec : e.slabs_clsid ≡ (q.items it).slabs_clsid) (el : e.it_flags.linked ≡ false)
    (es : e.it_flags.slabbed ≡ (q.items it).it_flags.slabbed)
    (er : e.refcount ≡ (q.items it).refcount)
    (gone : assoc_delete (keys it) (hash (keys it)) t ≡ some t') where
  abbrev clsid : ℕ
  clsid = (q.items it).slabs_clsid

  apart : (a : ℕ) → is_linked q a ≡ true → (a ≢ it) → same_key (keys it) (keys a) ≡ false
  apart a on_a other = elim (Bool-cases (same_key (keys it) (keys a))) [
    | inl same ↦
        let is =
          sym (w.tabled it on)
          ∙ (ap (view hash t) ((same_key_iff (keys it) (keys a)).0 same) ∙ w.tabled a on_a) in
        absurd (other (sym (ap (λ (f : Entry). f.address) (some-injective _ _ is))))
    | inr distinct ↦ distinct
  ]

  tabled_out :
      (a : ℕ)
      → is_linked (taken_out it e q) a ≡ true
      → view hash t' (keys a) ≡ some (record { address = a; key = keys a })
  tabled_out a l =
      let (at_a, _) = find-delete hash (keys it) (keys a) t t' w.valid gone in
      let other : a ≢ it = ground (arith, item-taken_out it a e q) in
      let on_a : is_linked q a ≡ true = ground (arith, item-taken_out it a e q) in
      at_a ∙ rw (apart a on_a other) (w.tabled a on_a)

  found_out :
      (j : List ℕ) (f : Entry)
      → view hash t' j ≡ some f
      → (is_linked (taken_out it e q) f.address ≡ true) × (keys f.address ≡ j)
  found_out j f v =
      let v' = sym (find-delete hash (keys it) j t t' w.valid gone).0 ∙ v in
      elim (Bool-cases (same_key (keys it) j)) [
        | inl same ↦ ground (arith, same, v')
        | inr distinct ↦
            let old : view hash t j ≡ some f = rw (distinct) at v' in
            let (on_f, key) = w.found j f old in
            let other : f.address ≢ it = λ is.
              let same = (same_key_iff (keys it) j).1 (ap keys (sym is) ∙ key) in
              cc (same, distinct) in
            (ground (arith, item-taken_out it f.address e q), key)
      ]

  pub taken_out-IsWhole :
      IsWhole hash (at held it (held it + 1)) (pulled it clsid qs) (taken_out it e q) t' keys
  taken_out-IsWhole =
      let q' = taken_out it e q in
      let outside = λ (a k : ℕ). pulled_members it a k q qs w.queues (w.listed it on) in
      record {
        queues = pull-queues it e q qs w.queues (w.listed it on) en ep ec;
        queued = λ a id m. ground (arith, item-taken_out it a e q, outside a id, w.queued a id);
        listed = λ a l.
            ground (arith, item-taken_out it a e q, outside a (q'.items a).slabs_clsid, w.listed a);
        valid = assoc_delete-IsValid hash (keys it) t t' w.valid gone;
        tabled = tabled_out;
        found = found_out;
        live = λ a h. ground (arith, item-taken_out it a e q, w.live a, w.live it);
        counted = λ a h. ground (arith, item-taken_out it a e q, w.counted a, w.counted it);
        few = λ a. ground (arith, item-taken_out it a e q, w.few a);
      }

-- what do_item_unlink leaves before it releases the table's reference
abbrev pub unlinked : ℕ → Assoc Entry → Store → Store
unlinked it t' s =
    let s1 = item_stats_sizes_remove it (unlinking it s) in
    record s1 { table = t'; lru = do_item_unlink_q it s1.lru }

-- An item that is linked can be unlinked: no assertion fails, and the references that are held stay.
pub do_item_unlink-Whole :
    (c : ItemSettings) (it : ℕ) (s : Store) {held : ℕ → ℕ} {qs : ℕ → List ℕ}
    → Whole c held qs s
    → is_linked s.lru it ≡ true
    → (t' : Assoc Entry) × ((assoc_delete (s.keys it) (c.hash (s.keys it)) s.table ≡ some t')
        × ((do_item_unlink it (c.hash (s.keys it)) s ≡ some (removed it (unlinked it t' s)))
            × Whole c held
                (pulled it (item_at it s).slabs_clsid qs)
                (removed it (unlinked it t' s))))
unfolding do_item_unlink
do_item_unlink-Whole c it s {held} {qs} w on =
    let e = item_at it s in
    let (t', gone) = delete_found c.hash (s.keys it) s.table _ (w.tabled it on) in
    let out =
      taken_out-IsWhole it (record e { it_flags = record e.it_flags { linked = false } }) t' w on
        refl refl refl refl refl refl gone in
    let mine : 0 < at held it (held it + 1) it = ground arith in
    let u = unlinked it t' s in
    (
      t',
      (
        gone,
        (
          rw (on, gone) (do_item_remove-some c u out it mine),
          IsWhole-same_held (λ a. ground arith) (removed-IsWhole c u out it mine),
        ),
      ),
    )
