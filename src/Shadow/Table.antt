-- ===== src/Shadow/Table.antt =====
-- The hash table of shadow items: src/shadow_assoc.c is src/assoc.c over again, for `shadow_item`.
use mem_exchange.Prelude.{ℕ, Bool, Option, List}
use mem_exchange.Assoc.Table.{
  Keyed, Assoc, assoc_init, assoc_find, assoc_insert, assoc_delete, assoc_expand,
  assoc_start_expand, maintenance_round,
}

-- an item as the table sees it: where it is, and its key, which never changes
pub record Entry : Type 0 where
  pub address : ℕ
  pub entry_key : List ℕ

instance abbrev pub entry_keyed : Keyed Entry
entry_keyed = record { key = λ e. e.entry_key }

abbrev pub shadow_assoc_init : ℕ → Assoc Entry
shadow_assoc_init = assoc_init

abbrev pub shadow_assoc_find : List ℕ → ℕ → Assoc Entry → Option Entry
shadow_assoc_find = assoc_find

abbrev pub shadow_assoc_start_expand : Assoc Entry → Assoc Entry
shadow_assoc_start_expand = assoc_start_expand

abbrev pub shadow_assoc_expand : Bool → Assoc Entry → Assoc Entry
shadow_assoc_expand = assoc_expand

abbrev pub shadow_assoc_insert : Entry → ℕ → Assoc Entry → Assoc Entry
shadow_assoc_insert = assoc_insert

abbrev pub shadow_assoc_delete : List ℕ → ℕ → Assoc Entry → Option (Assoc Entry)
shadow_assoc_delete = assoc_delete

abbrev pub shadow_assoc_maintenance_round :
    (List ℕ → ℕ) → List Bool → Bool → Assoc Entry → Assoc Entry
shadow_assoc_maintenance_round = maintenance_round
