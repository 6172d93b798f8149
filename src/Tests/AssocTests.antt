-- ===== src/Tests/AssocTests.antt =====
-- The hash tables of src/assoc.c at concrete items: a run of insertions, an expansion and a deletion.
use mem_exchange.Prelude.{ℕ, ◌≡◌, refl, true, false, none, some, List, [], ◌∷◌}
use mem_exchange.Assoc.Key.{same_key, memcmp_eq}
use mem_exchange.Assoc.Table.{
  Keyed, Assoc, assoc_init, assoc_insert, assoc_start_expand, assoc_expand, assoc_find,
  assoc_delete, maintenance_round, find_in, bucket, set_bucket, bulk_move, move_bucket, move_chain,
  unlink,
}
use mem_exchange.Assoc.History.{
  Event, Run, Run-IsValid, replay, find-replay, start, insert, delete, maintain, inserted,
  maintained,
}
use mem_exchange.Assoc.Lookup.{find-insert, view}
use mem_exchange.Assoc.Expansion.{find-move_bucket, find-maintenance_round}
use mem_exchange.Assoc.ItemLock.{chain-item_lock, item_lock, item_lock_power}

record Item : Type 0 where
  key : List ℕ
  flags : ℕ

instance abbrev item_keyed : Keyed Item
item_keyed = record { key = λ it. it.key }

abbrev first_byte : List ℕ → ℕ
first_byte [] = 0
first_byte (x ∷ xs) = x

abbrev item_a : Item
item_a = record { key = 4 ∷ 1 ∷ []; flags = 1 }

abbrev item_b : Item
item_b = record { key = 6 ∷ 2 ∷ []; flags = 2 }

abbrev one_item : Assoc Item
one_item = assoc_insert item_a 4 (assoc_init 1)

abbrev two_items : Assoc Item
two_items = assoc_insert item_b 6 one_item

-- the expansion to four chains has begun
abbrev grown : Assoc Item
grown = maintenance_round first_byte [] true two_items

abbrev growth : List (Event Item)
growth = maintained [] true ∷ inserted item_b ∷ inserted item_a ∷ []

grown_run : Run first_byte 1 growth grown
unfolding assoc_init assoc_insert assoc_start_expand assoc_find bucket set_bucket find_in same_key
    memcmp_eq
grown_run = maintain [] true (insert item_b refl (insert item_a refl start))

-- the first of two old chains is moved
abbrev halfway : Assoc Item
halfway = maintenance_round first_byte (true ∷ []) true grown

abbrev without_a : Assoc Item
without_a = record (set_bucket halfway 4 []) { hash_items = 1 }

deletes_a : assoc_delete item_a.key 4 halfway ≡ some without_a
unfolding assoc_init assoc_insert assoc_start_expand assoc_delete bucket set_bucket same_key
    memcmp_eq maintenance_round bulk_move move_bucket move_chain assoc_expand unlink
deletes_a = refl

halfway_run : Run first_byte 1 (maintained (true ∷ []) true ∷ growth) halfway
halfway_run = maintain (true ∷ []) true grown_run

halfway_runs : (halfway.expanding ≡ true) × (halfway.expand_bucket ≡ 1) × (halfway.hashpower ≡ 2)
unfolding assoc_init assoc_insert assoc_start_expand bucket set_bucket maintenance_round bulk_move
    move_bucket move_chain assoc_expand
halfway_runs = (refl, refl, refl)

find-replay_example : assoc_find item_a.key 4 without_a ≡ none
unfolding replay same_key memcmp_eq
find-replay_example =
    find-replay {hash = first_byte} (delete item_a.key deletes_a halfway_run) item_a.key

find-insert_example : view first_byte (assoc_insert item_b 6 one_item) item_b.key ≡ some item_b
unfolding same_key memcmp_eq
find-insert_example = find-insert first_byte item_b one_item item_b.key

halfway_finds : view first_byte halfway item_a.key ≡ some item_a
unfolding replay same_key memcmp_eq
halfway_finds = find-replay {hash = first_byte} halfway_run item_a.key

grown_expanding : grown.expanding ≡ true
unfolding assoc_init assoc_insert assoc_start_expand bucket set_bucket maintenance_round bulk_move
    assoc_expand
grown_expanding = refl

find-move_bucket_example :
    view first_byte (move_bucket first_byte grown) item_a.key ≡ view first_byte grown item_a.key
find-move_bucket_example =
    find-move_bucket first_byte grown item_a.key grown_expanding (Run-IsValid grown_run)

find-maintenance_round_example :
    view first_byte (maintenance_round first_byte (true ∷ []) false halfway) item_a.key
    ≡ view first_byte halfway item_a.key
find-maintenance_round_example =
    find-maintenance_round first_byte (true ∷ []) false halfway item_a.key (Run-IsValid halfway_run)

-- a table of the default width with one item
abbrev wide : Assoc Item
wide = assoc_insert item_a 4 (assoc_init 0)

wide_run : Run first_byte 0 (inserted item_a ∷ []) wide
unfolding assoc_init assoc_find bucket find_in
wide_run = insert item_a refl start

chain-item_lock_example : item_lock 12 4 ≡ item_lock 12 65540
unfolding item_lock_power assoc_init assoc_insert bucket set_bucket assoc_start_expand find_in
    same_key memcmp_eq
chain-item_lock_example = chain-item_lock first_byte 4 12 65540 item_a.key item_a wide_run refl refl
