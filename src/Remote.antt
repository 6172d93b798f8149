-- ===== src/Remote.antt =====
-- The hash table of remote items: src/rdma_assoc.c is src/assoc.c over again for `remote_item`, but
-- for the deletion, which looks for an item's address, and the maintenance thread, which is off.
pub mod Fixed
use mem_exchange.Prelude.{
  ℕ, zero, ◌+◌, ◌*◌, ◌/◌, Bool, true, false, not, ◌&&◌, Option, none, some, List, [], ◌∷◌, ◌==◌,
  sub32, if◌then◌else◌,
}
use mem_exchange.Assoc.Table.{
  Keyed, Assoc, assoc_init, assoc_find, assoc_insert, assoc_expand, assoc_start_expand, bucket,
  set_bucket, maintenance_round,
}

-- `remote_item`: the address in the memory of the other server, and the key
pub record RemoteItem : Type 0 where
  pub address : ℕ
  pub remote_key : List ℕ

instance abbrev pub remote_keyed : Keyed RemoteItem
remote_keyed = record { key = λ it. it.remote_key }

abbrev pub remote_assoc_init : ℕ → Assoc RemoteItem
remote_assoc_init = assoc_init

abbrev pub remote_assoc_find : List ℕ → ℕ → Assoc RemoteItem → Option RemoteItem
remote_assoc_find = assoc_find

abbrev pub remote_assoc_expand : Bool → Assoc RemoteItem → Assoc RemoteItem
remote_assoc_expand = assoc_expand

abbrev pub remote_assoc_start_expand : Assoc RemoteItem → Assoc RemoteItem
remote_assoc_start_expand = assoc_start_expand

abbrev pub remote_assoc_insert : RemoteItem → ℕ → Assoc RemoteItem → Assoc RemoteItem
remote_assoc_insert = assoc_insert

-- the walk of `_hashitem_before`, which compares addresses, and the unlinking
unfoldable pub unlink_address : ℕ → List RemoteItem → Option (List RemoteItem)
unlink_address key [] = none
unlink_address key (it ∷ c) =
    let rest = unlink_address key c in
    if it.address == key then some c else elim rest [ none ↦ none | some c' ↦ some (it ∷ c') ]

unfoldable pub remote_assoc_delete : ℕ → ℕ → Assoc RemoteItem → Option (Assoc RemoteItem)
remote_assoc_delete key hv t = elim (unlink_address key (bucket t hv)) [
  | none ↦ none
  | some c ↦ some (record (set_bucket t hv c) { hash_items = sub32 t.hash_items 1 })
]

-- `do_run_maintenance_thread`
abbrev pub do_run_maintenance_thread : Bool
do_run_maintenance_thread = false

-- a round of the thread, as long as it runs
unfoldable pub remote_maintenance_round :
    (List ℕ → ℕ) → List Bool → Bool → Assoc RemoteItem → Assoc RemoteItem
remote_maintenance_round hash locks allocated t =
    if do_run_maintenance_thread then maintenance_round hash locks allocated t else t
