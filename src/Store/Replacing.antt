-- ===== src/Store/Replacing.antt =====
-- do_item_replace of src/items.c, and the end of do_store_item of src/memcached.c.
use mem_exchange.Prelude.{
  ℕ, ◌<◌, ◌≡◌, refl, sym, ◌∙◌, subst, true, false, Option, none, some, List, arith, if◌then◌else◌,
  inl, inr, Bool-cases,
}
use mem_exchange.Assoc.Key.{same_key, same_key_iff}
use mem_exchange.Assoc.Lookup.{view, find-insert, find-delete}
use mem_exchange.Store.{Entry, entry_keyed, ItemSettings, Store, item_at}
use mem_exchange.Store.Items.{do_item_link, do_item_unlink, do_item_replace}
use mem_exchange.Store.Queues.{pushed}
use mem_exchange.Store.Whole.{is_linked, Whole, removed}
use mem_exchange.Store.Linking.{linked_up, do_item_link-some, linked_up-IsWhole}
use mem_exchange.Store.Unlinking.{unlinked, do_item_unlink-Whole}
use mem_exchange.Store.Nuking.{is_linked-removed, is_linked-unlinked}

pub same_key_comm : (a b : List ℕ) → same_key a b ≡ same_key b a
same_key_comm a b = elim (Bool-cases (same_key a b)) [
  | inl e ↦ e ∙ sym ((same_key_iff b a).1 (sym ((same_key_iff a b).0 e)))
  | inr e ↦ elim (Bool-cases (same_key b a)) [
    | inl d ↦ (same_key_iff a b).1 (sym ((same_key_iff b a).0 d)) ∙ sym d
    | inr d ↦ e ∙ sym d
  ]
]

pub overwritten :
    (j key : List ℕ) (e x y : Option Entry)
    → x ≡ (if same_key key j then none else y)
    → (if same_key j key then e else x) ≡ (if same_key j key then e else y)
overwritten j key e x y h = elim (Bool-cases (same_key j key)) [
  | inl same ↦ rw (same) refl
  | inr other ↦ rw (other) (h ∙ rw (same_key_comm key j ∙ other) refl)
]

replace_run :
    (c : ItemSettings) (old it hv : ℕ) (s s2 s3 : Store)
    → (item_at old s).it_flags.slabbed ≡ false
    → do_item_unlink old hv s ≡ some s2
    → do_item_link c it hv s2 ≡ some s3
    → do_item_replace c old it hv s ≡ some s3
unfolding do_item_replace
replace_run c old it hv s s2 s3 slab out up = rw (slab, out) up

-- an item is stored under a key, and the other keys answer as before
pub record Put (c : ItemSettings) (held : ℕ → ℕ) (it : ℕ) (key : List ℕ) (s s' : Store)
    : Type 0 where
  pub qs : ℕ → List ℕ
  pub whole : Whole c held qs s'
  pub lookups :
      (j : List ℕ)
      → view c.hash s'.table j ≡ (
          if same_key j key
          then some (record { address = it; key = key })
          else view c.hash s.table j)

module _ (c : ItemSettings) (it : ℕ) (key : List ℕ) {held : ℕ → ℕ} (mine : 0 < held it)
    (few : held it < 65535) where
  -- A key that is absent.
  pub do_item_link-Put :
      (s : Store) {qs : ℕ → List ℕ}
      → Whole c held qs s
      → s.keys it ≡ key
      → is_linked s.lru it ≡ false
      → view c.hash s.table key ≡ none
      → (s' : Store) × ((do_item_link c it (c.hash key) s ≡ some s') × Put c held it key s s')
  do_item_link-Put s {qs} w is off absent =
      let slab = (w.live it (ground arith)).0 in
      let w' =
        linked_up-IsWhole c it s w off mine few
          (subst (λ k. view c.hash s.table k ≡ none) (sym is) absent) in
      subst
        (λ k. (s' : Store) × ((do_item_link c it (c.hash k) s ≡ some s') × Put c held it k s s')) is
        (
          linked_up c it (c.hash (s.keys it)) s,
          (
            do_item_link-some c it (c.hash (s.keys it)) s off slab,
            record {
              qs = pushed it (item_at it s).slabs_clsid qs;
              whole = w';
              lookups =
                  λ j. find-insert c.hash (record { address = it; key = s.keys it }) s.table j;
            },
          ),
        )

  -- An item that is linked under the key is replaced.
  pub do_item_replace-Put :
      (old : ℕ) (s : Store) {qs : ℕ → List ℕ}
      → Whole c held qs s
      → s.keys it ≡ key
      → s.keys old ≡ key
      → is_linked s.lru it ≡ false
      → is_linked s.lru old ≡ true
      → (s' : Store) × ((do_item_replace c old it (c.hash key) s ≡ some s')
          × Put c held it key s s')
  do_item_replace-Put old s {qs} w is same off on =
      let slab = (w.live old (ground arith)).0 in
      let (t', (gone, (run, w2))) = do_item_unlink-Whole c old s w on in
      let s2 = removed old (unlinked old t' s) in
      let off2 : is_linked s2.lru it ≡ false =
        is_linked-removed old it (unlinked old t' s) ∙ is_linked-unlinked old it t' s off in
      let deleted = λ (j : List ℕ). (find-delete c.hash (s.keys old) j s.table t' w.valid gone).0 in
      let absent : view c.hash t' key ≡ none =
        deleted key ∙ rw ((same_key_iff (s.keys old) key).1 same) refl in
      let (s3, (linked, put)) = do_item_link-Put s2 w2 is off2 absent in
      let run' : do_item_unlink old (c.hash key) s ≡ some s2 =
        subst (λ k. do_item_unlink old (c.hash k) s ≡ some s2) same run in
      (
        s3,
        (
          replace_run c old it (c.hash key) s s2 s3 slab run' linked,
          record {
            qs = put.qs;
            whole = put.whole;
            lookups = λ j.
                put.lookups j
                ∙ overwritten j key _ _ _ (
                    subst
                      (λ k.
                        view c.hash t' j ≡ (if same_key k j then none else view c.hash s.table j))
                      same (deleted j));
          },
        ),
      )
