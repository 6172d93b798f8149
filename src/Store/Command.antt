-- ===== src/Store/Command.antt =====
-- do_store_item of src/memcached.c, which stores an item as one of the storage commands asks. It runs
-- under the item lock of the key.
use mem_exchange.Prelude.{
  ℕ, ◌-◌, Bool, true, false, not, ◌&&◌, Option, none, some, List, ◌∷◌, ◌++◌, ◌==◌, if◌then◌else◌,
  add64, take,
}
use mem_exchange.Slabs.State.{at}
use mem_exchange.Items.Update.{item_clsid, do_item_update}
use mem_exchange.Store.{ItemSettings, Store, ◌>>=◌, item_at, item_get_cas}
use mem_exchange.Store.Items.{do_item_link, do_item_replace, do_item_remove, do_item_get}

-- the constants NREAD_ADD to NREAD_CAS
pub data Comm : Type 0 where
  nread_add : Comm
  nread_set : Comm
  nread_replace : Comm
  nread_append : Comm
  nread_prepend : Comm
  nread_cas : Comm

-- `store_item_type`, as far as the function returns it
pub data StoreItemType : Type 0 where
  not_stored : StoreItemType
  stored : StoreItemType
  exists : StoreItemType
  not_found : StoreItemType

-- what the function decides: the result, the item that `it` stands for in the end, and `new_it`
abbrev pub Decision : Type 0
Decision = StoreItemType × ℕ × Option ℕ

-- _store_item_copy_data for items that are not chunked: the two bytes "\r\n" of the first are overwritten
abbrev pub joined : Comm → ℕ → ℕ → Store → List ℕ
joined nread_append old_it add_it s =
    take ((item_at old_it s).nbytes - 2) (s.bodies old_it) ++ s.bodies add_it
joined _ old_it add_it s = take ((item_at add_it s).nbytes - 2) (s.bodies add_it) ++ s.bodies old_it

unfoldable pub store_item_copy_data : Comm → ℕ → ℕ → ℕ → Store → Store
store_item_copy_data comm old_it new_it add_it s = record s {
  bodies = at s.bodies new_it (joined comm old_it add_it s);
}

-- the end of the last branch: the item goes in the place of the old one; or the shadow item of the key is
-- looked up, to be evicted, and the item is linked
unfoldable pub put_in :
    ItemSettings → ℕ → Option ℕ → ℕ → Option ℕ → Store → Option (Decision × Store)
put_in c hv old it new_it s =
    (elim old [
      | some old_it ↦ do_item_replace c old_it it hv s
      | none ↦ do_item_link c it hv (record s { shadows = s.keys it ∷ s.shadows })
    ])
    >>= λ s'. some ((stored, it, new_it), record s' { c_cas = item_get_cas it s' })

-- NREAD_APPEND and NREAD_PREPEND of an item that is there. `answer` is the item that do_item_alloc gives
-- for both, or `none`.
unfoldable pub combine :
    ItemSettings → Comm → ℕ → Option ℕ → ℕ → ℕ → Store → Option (Decision × Store)
combine c comm hv answer old_it it s =
    let cas = item_get_cas it s in
    if not (cas == 0) && not (cas == item_get_cas old_it s)
    then some ((exists, it, none), s)
    else elim answer [
      | none ↦ some ((not_stored, it, none), s)
      | some new_it ↦
          put_in c hv (some old_it) new_it (some new_it)
            (store_item_copy_data comm old_it new_it it s)
    ]

-- the tests on the command, when there is an old item
unfoldable pub over : ItemSettings → Comm → ℕ → Option ℕ → ℕ → ℕ → Store → Option (Decision × Store)
over c nread_add hv answer old_it it s = some (
  (not_stored, it, none),
  record s { lru = do_item_update c.lru_segmented c.current_time old_it s.lru },
)
over c nread_cas hv answer old_it it s =
    let id = item_clsid (item_at old_it s) in
    let hit = record s { cas_hits = at s.cas_hits id (add64 (s.cas_hits id) 1) } in
    let bad = record s { cas_badval = at s.cas_badval id (add64 (s.cas_badval id) 1) } in
    if item_get_cas it s == item_get_cas old_it s
    then (do_item_replace c old_it it hv hit >>= λ s'. some ((stored, it, none), s'))
    else some ((exists, it, none), bad)
over c nread_append hv answer old_it it s = combine c nread_append hv answer old_it it s
over c nread_prepend hv answer old_it it s = combine c nread_prepend hv answer old_it it s
over c _ hv answer old_it it s = put_in c hv (some old_it) it none s

-- and when there is none
unfoldable pub afresh : ItemSettings → Comm → ℕ → ℕ → Store → Option (Decision × Store)
afresh c nread_add hv it s = put_in c hv none it none s
afresh c nread_set hv it s = put_in c hv none it none s
afresh c nread_cas hv it s =
    some ((not_found, it, none), record s { cas_misses = add64 s.cas_misses 1 })
afresh c _ hv it s = some ((not_stored, it, none), s)

-- do_item_remove of a pointer that may be NULL
unfoldable pub release : Option ℕ → Store → Option Store
release none s = some s
release (some it) s = do_item_remove it s

unfoldable pub is_stored : StoreItemType → Bool
is_stored stored = true
is_stored _ = false

unfoldable pub decide_storage :
    ItemSettings → ℕ → Comm → ℕ → Option ℕ → Option ℕ × Store → Option (Decision × Store)
decide_storage c it comm hv answer (some old_it, s) = over c comm hv answer old_it it s
decide_storage c it comm hv answer (none, s) = afresh c comm hv it s

-- from the release of the references on
unfoldable pub finish : Option ℕ → Decision × Store → Option (StoreItemType × Store)
finish old ((result, it, new_it), s) = release old s >>= λ s3. release new_it s3 >>= λ s4.
    some (result, record s4 { c_cas = if is_stored result then item_get_cas it s4 else s4.c_cas })

unfoldable pub do_store_item :
    ItemSettings → ℕ → Comm → ℕ → Option ℕ → Store → Option (StoreItemType × Store)
do_store_item c it comm hv answer s = do_item_get c (s.keys it) hv false false s >>= λ r.
    decide_storage c it comm hv answer r >>= λ d. finish r.0 d
