-- ===== src/Remote/Fixed.antt =====
-- The table of src/rdma_assoc.c keeps its first width.
use mem_exchange.Prelude.{ℕ, ◌≡◌, refl, Bool, false, some, List, arith}
use mem_exchange.Assoc.Table.{
  Assoc, assoc_init, assoc_insert, assoc_start_expand, bucket, set_bucket, find_in, masked,
  assoc_find,
}
use mem_exchange.Remote.{
  RemoteItem, remote_keyed, remote_assoc_init, remote_assoc_find, remote_assoc_insert,
  remote_assoc_delete, remote_maintenance_round,
}

pub data RemoteRun (hash : List ℕ → ℕ) (power : ℕ) : Assoc RemoteItem → Type 0 where
  start : RemoteRun hash power (remote_assoc_init power)
  insert :
      {t : Assoc RemoteItem} (it : RemoteItem) (hv : ℕ)
      → RemoteRun hash power t
      → RemoteRun hash power (remote_assoc_insert it hv t)
  delete :
      {t t' : Assoc RemoteItem} (key hv : ℕ)
      → remote_assoc_delete key hv t ≡ some t'
      → RemoteRun hash power t
      → RemoteRun hash power t'
  maintain :
      {t : Assoc RemoteItem} (locks : List Bool) (allocated : Bool)
      → RemoteRun hash power t
      → RemoteRun hash power (remote_maintenance_round hash locks allocated t)

record IsFixed (power : ℕ) (t : Assoc RemoteItem) : Type 0 where
  width : t.hashpower ≡ power
  still : t.expanding ≡ false

insert-IsFixed :
    (power : ℕ) (it : RemoteItem) (hv : ℕ) (t : Assoc RemoteItem)
    → IsFixed power t
    → IsFixed power (remote_assoc_insert it hv t)
unfolding assoc_insert assoc_start_expand set_bucket
insert-IsFixed power it hv t f = record {
  width = ground (arith, f.width);
  still = ground (arith, f.still);
}

delete-IsFixed :
    (power : ℕ) (key hv : ℕ) (t t' : Assoc RemoteItem)
    → remote_assoc_delete key hv t ≡ some t'
    → IsFixed power t
    → IsFixed power t'
unfolding remote_assoc_delete set_bucket
delete-IsFixed power key hv t t' e f = record {
  width = ground (arith, f.width);
  still = ground (arith, f.still);
}

module _ {hash : List ℕ → ℕ} {power : ℕ} where
  RemoteRun-IsFixed :
      {t : Assoc RemoteItem}
      → RemoteRun hash power t
      → IsFixed (remote_assoc_init power).hashpower t
  unfolding assoc_init remote_maintenance_round
  RemoteRun-IsFixed start = record { width = refl; still = refl }
  RemoteRun-IsFixed (insert {t = t} it hv r) = insert-IsFixed _ it hv t (RemoteRun-IsFixed r)
  RemoteRun-IsFixed (delete {t = t} {t' = t'} key hv e r) =
      delete-IsFixed _ key hv t t' e (RemoteRun-IsFixed r)
  RemoteRun-IsFixed (maintain locks allocated r) = RemoteRun-IsFixed r

  -- However many remote items are inserted and deleted, and however often the maintenance thread is
  -- due, the table is never expanded: each lookup walks the chain under the first width.
  pub remote_assoc_find-fixed :
      {t : Assoc RemoteItem} (key : List ℕ) (hv : ℕ)
      → RemoteRun hash power t
      → (t.expanding ≡ false)
        × (remote_assoc_find key hv t
            ≡ find_in key (t.primary_hashtable (masked hv (remote_assoc_init power).hashpower)))
  unfolding assoc_find bucket
  remote_assoc_find-fixed {t = t} key hv r =
      let f = RemoteRun-IsFixed r in (f.still, rw (f.still, bucket) (rw (f.width) refl))
