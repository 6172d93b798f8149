-- ===== src/Tests/RemoteTests.antt =====
-- The table of remote items of src/rdma_assoc.c at two items in one chain.
use mem_exchange.Prelude.{ℕ, ◌+◌, ◌≡◌, refl, some, List, [], ◌∷◌}
use mem_exchange.Assoc.Table.{
  Assoc, assoc_init, assoc_insert, assoc_start_expand, bucket, set_bucket,
}
use mem_exchange.Remote.{
  RemoteItem, remote_keyed, remote_assoc_init, remote_assoc_insert, remote_assoc_delete,
  unlink_address,
}
use mem_exchange.Remote.Fixed.{RemoteRun, start, insert, delete}

abbrev remote_item : ℕ → RemoteItem
remote_item n = record { address = 4096 + n; remote_key = n ∷ [] }

abbrev first_byte : List ℕ → ℕ
first_byte [] = 0
first_byte (x ∷ xs) = x

abbrev two : Assoc RemoteItem
two =
    remote_assoc_insert (remote_item 3) 3
      (remote_assoc_insert (remote_item 1) 1 (remote_assoc_init 1))

abbrev one : Assoc RemoteItem
one = record (set_bucket two 1 (remote_item 3 ∷ [])) { hash_items = 1 }

deletes : remote_assoc_delete 4097 1 two ≡ some one
unfolding assoc_init assoc_insert assoc_start_expand remote_assoc_delete bucket set_bucket
    unlink_address
deletes = refl

one-RemoteRun : RemoteRun first_byte 1 one
one-RemoteRun = delete 4097 1 deletes (insert (remote_item 3) 3 (insert (remote_item 1) 1 start))
