-- ===== src/Assoc/Table.antt =====
-- The state and the functions of src/assoc.c. A bucket array is a function from indices to chains, and
-- a chain is the list of its items; `Valid.bucket_in_bounds` is why no index is out of range.
-- The table is used under the item locks and the maintenance lock, so its functions are sequential.
use mem_exchange.Prelude.{
  ℕ, ◌+◌, ◌-◌, ◌*◌, ◌/◌, ◌%◌, ◌^◌, Bool, true, false, not, ◌&&◌, Option, none, some, List, [], ◌∷◌,
  ltb, leb, ◌==◌, add32, sub32, add64, sub64, if◌then◌else◌,
}
use mem_exchange.Assoc.Key.{same_key}

-- what the table asks of an item: its key
pub record Keyed (I : Type 0) : Type 0 where
  pub key : I → List ℕ

abbrev pub Buckets : Type 0 → Type 0
Buckets I = ℕ → List I

-- the statics of the file, and the fields of `stats_state` that it keeps
pub record Assoc (I : Type 0) : Type 0 where
  pub hashpower : ℕ
  pub primary_hashtable : Buckets I
  pub old_hashtable : Buckets I
  pub hash_items : ℕ
  pub expanding : Bool
  pub started_expanding : Bool
  pub expand_bucket : ℕ
  pub hash_power_level : ℕ
  pub hash_bytes : ℕ
  pub hash_is_expanding : Bool

abbrev pub hashsize : ℕ → ℕ
hashsize n = 2 ^ n

-- `hv & hashmask(n)`
abbrev pub masked : ℕ → ℕ → ℕ
masked hv n = hv % hashsize n

module _ {I : Type 0} where
  abbrev pub update : Buckets I → ℕ → List I → Buckets I
  update bs i c j = if i == j then c else bs j

  unfoldable pub assoc_init : ℕ → Assoc I
  assoc_init hashtable_init =
      let power = if hashtable_init == 0 then 16 else hashtable_init in
      record {
        hashpower = power;
        primary_hashtable = λ i. [];
        old_hashtable = λ i. [];
        hash_items = 0;
        expanding = false;
        started_expanding = false;
        expand_bucket = 0;
        hash_power_level = power;
        hash_bytes = hashsize power * 8;
        hash_is_expanding = false;
      }

  -- `expanding && (oldbucket = (hv & hashmask(hashpower - 1))) >= expand_bucket`
  abbrev pub in_old : Assoc I → ℕ → Bool
  in_old t hv = t.expanding && leb t.expand_bucket (masked hv (t.hashpower - 1))

  -- the chain that `hv` belongs to, and the table with that chain replaced
  unfoldable pub bucket : Assoc I → ℕ → List I
  bucket t hv =
      if in_old t hv
      then t.old_hashtable (masked hv (t.hashpower - 1))
      else t.primary_hashtable (masked hv t.hashpower)

  unfoldable pub set_bucket : Assoc I → ℕ → List I → Assoc I
  set_bucket t hv c =
      if in_old t hv
      then record t { old_hashtable = update t.old_hashtable (masked hv (t.hashpower - 1)) c }
      else record t { primary_hashtable = update t.primary_hashtable (masked hv t.hashpower) c }

  unfoldable pub assoc_start_expand : Assoc I → Assoc I
  assoc_start_expand t = if t.started_expanding then t else record t { started_expanding = true }

  unfoldable pub assoc_insert : I → ℕ → Assoc I → Assoc I
  assoc_insert it hv t =
      let t' = set_bucket t hv (it ∷ bucket t hv) in
      let n = add32 t.hash_items 1 in
      let u = record t' { hash_items = n } in
      if not u.expanding && ltb (hashsize u.hashpower * 3 / 2) n then assoc_start_expand u else u

  -- the old table stays on when the new one cannot be allocated
  unfoldable pub assoc_expand : Bool → Assoc I → Assoc I
  assoc_expand allocated t =
      if allocated
      then record t {
        old_hashtable = t.primary_hashtable;
        primary_hashtable = λ i. [];
        hashpower = t.hashpower + 1;
        expanding = true;
        expand_bucket = 0;
        hash_power_level = t.hashpower + 1;
        hash_bytes = add64 t.hash_bytes (hashsize (t.hashpower + 1) * 8);
        hash_is_expanding = true;
      }
      else record t { old_hashtable = t.primary_hashtable }

module _ {I : Type 0} ⦃k : Keyed I⦄ where
  -- the walk along one chain
  unfoldable pub find_in : List ℕ → List I → Option I
  find_in key [] = none
  find_in key (it ∷ c) = if same_key key (k.key it) then some it else find_in key c

  unfoldable pub assoc_find : List ℕ → ℕ → Assoc I → Option I
  assoc_find key hv t = find_in key (bucket t hv)

  -- the first item with the key is unlinked; `none` where `*before` is null
  unfoldable pub unlink : List ℕ → List I → Option (List I)
  unlink key [] = none
  unlink key (it ∷ c) =
      let rest = unlink key c in
      if same_key key (k.key it)
      then some c
      else elim rest [ none ↦ none | some c' ↦ some (it ∷ c') ]

  -- `none` is the failed assertion
  unfoldable pub assoc_delete : List ℕ → ℕ → Assoc I → Option (Assoc I)
  assoc_delete key hv t = elim (unlink key (bucket t hv)) [
    | none ↦ none
    | some c ↦ some (record (set_bucket t hv c) { hash_items = sub32 t.hash_items 1 })
  ]

module _ {I : Type 0} ⦃k : Keyed I⦄ (hash : List ℕ → ℕ) where
  -- the items of one old chain go, one after another, to the heads of their new chains
  unfoldable pub move_chain : ℕ → List I → Buckets I → Buckets I
  move_chain power [] bs = bs
  move_chain power (it ∷ c) bs =
      let b = masked (hash (k.key it)) power in move_chain power c (update bs b (it ∷ bs b))

  -- one pass of the maintenance thread's inner loop with the item lock: a bucket is moved, and the
  -- last one ends the expansion
  unfoldable pub move_bucket : Assoc I → Assoc I
  unfolding move_chain
  move_bucket t =
      let b = t.expand_bucket in
      let u = record t {
        primary_hashtable = move_chain t.hashpower (t.old_hashtable b) t.primary_hashtable;
        old_hashtable = update t.old_hashtable b [];
        expand_bucket = b + 1;
      } in
      if b + 1 == hashsize (t.hashpower - 1)
      then record u {
        expanding = false;
        hash_bytes = sub64 t.hash_bytes (hashsize (t.hashpower - 1) * 8);
        hash_is_expanding = false;
      }
      else u

  -- `for (ii = 0; ii < hash_bulk_move && expanding; ++ii)`, with what each `item_trylock` answers
  unfoldable pub bulk_move : List Bool → Assoc I → Assoc I
  bulk_move [] t = t
  bulk_move (locked ∷ ls) t =
      if t.expanding then bulk_move ls (if locked then move_bucket t else t) else t

  -- one round of `assoc_maintenance_thread`, from the wait for the signal or, during an expansion, from
  -- the head of its loop: the wide table is made, and the loop runs until the next wait or turn
  unfoldable pub maintenance_round : List Bool → Bool → Assoc I → Assoc I
  maintenance_round locks allocated t =
      let w = if t.expanding then t else assoc_expand allocated t in
      let u = bulk_move locks w in if u.expanding then u else record u { started_expanding = false }
