-- ===== src/Store/Promise.antt =====
-- What do_store_item of src/memcached.c promises for add, set, replace and cas, and how it ends where the
-- key has no live item.
use mem_exchange.Prelude.{
  ℕ, ◌<◌, ◌≡◌, refl, ◌∙◌, ap, Bool, true, false, Option, none, some, List, ◌∷◌, ◌==◌, arith,
  if◌then◌else◌,
}
use mem_exchange.Assoc.Key.{same_key, same_key_iff}
use mem_exchange.Assoc.Lookup.{view}
use mem_exchange.Store.{Entry, entry_keyed, ItemSettings, Store, item_get_cas}
use mem_exchange.Store.Items.{do_item_link, do_item_replace, do_item_remove, do_item_get}
use mem_exchange.Store.Command.{
  Comm, nread_add, nread_replace, nread_append, nread_prepend, nread_cas, StoreItemType, not_stored,
  stored, exists, not_found, Decision, put_in, afresh, release, is_stored, decide_storage, finish,
  do_store_item,
}
use mem_exchange.Store.Whole.{is_linked, refs, Whole}
use mem_exchange.Store.Nuking.{live_entry, Missed}
use mem_exchange.Store.Replacing.{same_key_comm, overwritten, do_item_link-Put}

-- the commands that store one item
unfoldable pub is_single : Comm → Bool
is_single nread_append = false
is_single nread_prepend = false
is_single _ = true

-- The answer that the protocol promises, from whether the key has a live item and, for cas, whether the
-- unique number is its own.
unfoldable pub promised : Comm → Bool → Bool → StoreItemType
promised nread_add live same = if live then not_stored else stored
promised nread_replace live same = if live then stored else not_stored
promised nread_cas live same = if live then (if same then stored else exists) else not_found
promised _ live same = stored

abbrev pub is_some : Option Entry → Bool
is_some none = false
is_some (some f) = true

-- whether the item has the unique number of an entry
abbrev pub has_cas : ℕ → Option Entry → Store → Bool
has_cas it none s = false
has_cas it (some f) s = item_get_cas it s == item_get_cas f.address s

-- The store is whole again, with the references that were held, and the key answers as the result says.
pub record Stores (c : ItemSettings) (held : ℕ → ℕ) (it : ℕ) (result : StoreItemType) (s s' : Store)
    : Type 0 where
  pub qs : ℕ → List ℕ
  pub whole : Whole c held qs s'
  pub lookups :
      (j : List ℕ)
      → view c.hash s'.table j ≡ (
          if same_key j (s.keys it)
          then (if is_stored result
              then some (record { address = it; key = s.keys it })
              else live_entry c (s.keys it) s)
          else view c.hash s.table j)

-- the field `c->cas` at the end
abbrev pub answered : StoreItemType → ℕ → Store → Store
answered result it s = record s { c_cas = if is_stored result then item_get_cas it s else s.c_cas }

pub store_run :
    (c : ItemSettings) (it : ℕ) (comm : Comm) (hv : ℕ) (answer : Option ℕ) (s s1 : Store)
    (old : Option ℕ) (d : Decision × Store) (x : StoreItemType × Store)
    → do_item_get c (s.keys it) hv false false s ≡ some (old, s1)
    → decide_storage c it comm hv answer (old, s1) ≡ some d
    → finish old d ≡ some x
    → do_store_item c it comm hv answer s ≡ some x
unfolding do_store_item
store_run c it comm hv answer s s1 old d x got decided done = rw (got, decided) done

pub finish-none :
    (result : StoreItemType) (it : ℕ) (s : Store)
    → finish none ((result, it, none), s) ≡ some (result, answered result it s)
unfolding finish release
finish-none result it s = refl

pub finish-some :
    (result : StoreItemType) (it old : ℕ) (s s' : Store)
    → do_item_remove old s ≡ some s'
    → finish (some old) ((result, it, none), s) ≡ some (result, answered result it s')
unfolding finish release
finish-some result it old s s' e = rw (e) refl

pub put_in_run :
    (c : ItemSettings) (hv it : ℕ) (s s' : Store)
    → do_item_link c it hv (record s { shadows = s.keys it ∷ s.shadows }) ≡ some s'
    → put_in c hv none it none s
      ≡ some ((stored, it, none), record s' { c_cas = item_get_cas it s' })
unfolding put_in
put_in_run c hv it s s' e = rw (e) refl

pub put_over_run :
    (c : ItemSettings) (hv old it : ℕ) (s s' : Store)
    → do_item_replace c old it hv s ≡ some s'
    → put_in c hv (some old) it none s
      ≡ some ((stored, it, none), record s' { c_cas = item_get_cas it s' })
unfolding put_in
put_over_run c hv old it s s' e = rw (e) refl

module _ (c : ItemSettings) (it : ℕ) (answer : Option ℕ) (s : Store) {held : ℕ → ℕ}
    {qs : ℕ → List ℕ} (w : Whole c held qs s) (off : is_linked s.lru it ≡ false)
    (mine : 0 < held it) (few : (a : ℕ) → refs held s.lru a < 65535) where
  abbrev pub key : List ℕ
  key = s.keys it

  -- how a command ends
  abbrev pub Ends : Comm → StoreItemType → Type 0
  Ends comm result =
      (s' : Store) × ((do_store_item c it comm (c.hash key) answer s ≡ some (result, s'))
        × Stores c held it result s s')

  module _ (s1 : Store) (dead : live_entry c key s ≡ none)
      (got : do_item_get c key (c.hash key) false false s ≡ some (none, s1))
      (m : Missed c held key s s1) where
    -- nothing is stored, in a state with the same tables
    pub missed_keeps :
        (comm : Comm) (result : StoreItemType) (s2 : Store)
        → is_stored result ≡ false
        → afresh c comm (c.hash key) it s1 ≡ some ((result, it, none), s2)
        → Whole c held m.qs s2
        → s2.table ≡ s1.table
        → Ends comm result
    unfolding decide_storage
    missed_keeps comm result s2 not decided w2 table = (
      answered result it s2,
      (
        store_run c it comm (c.hash key) answer s s1 none ((result, it, none), s2) _ got decided
            (finish-none result it s2),
        record {
          qs = m.qs;
          whole = w2;
          lookups = λ j.
              ap (λ t. view c.hash t j) table
              ∙ (m.lookups j ∙ rw (not, dead, same_key_comm key j) refl);
        },
      ),
    )

    pub missed_stores :
        (comm : Comm)
        → afresh c comm (c.hash key) it s1 ≡ put_in c (c.hash key) none it none s1
        → Ends comm stored
    unfolding decide_storage is_stored
    missed_stores comm is =
        let s0 = record s1 { shadows = s1.keys it ∷ s1.shadows } in
        let absent : view c.hash s1.table key ≡ none =
          m.lookups key ∙ rw ((same_key_iff key key).1 refl) refl in
        let few_it : held it < 65535 = ground (arith, few it) in
        let (s2, (linked, put)) =
          do_item_link-Put c it key mine few_it s0 m.whole (ap (λ f. f it) m.same_keys)
            (m.unlinked_still it off) absent in
        let s3 = record s2 { c_cas = item_get_cas it s2 } in
        (
          answered stored it s3,
          (
            store_run c it comm (c.hash key) answer s s1 none ((stored, it, none), s3) _ got
                (is ∙ put_in_run c (c.hash key) it s1 s2 linked) (finish-none stored it s3),
            record {
              qs = put.qs;
              whole = put.whole;
              lookups = λ j. put.lookups j ∙ overwritten j key _ _ _ (m.lookups j);
            },
          ),
        )
