-- ===== src/Assoc/Steps.antt =====
-- The functions of src/assoc.c keep the invariant of the table.
use mem_exchange.Prelude.{
  ℕ, ◌+◌, ◌-◌, ◌*◌, ◌≤◌, ◌≡◌, refl, ap, subst, Bool, true, false, none, some, List, [], ◌∷◌, ◌==◌,
  arith, if◌then◌else◌, inl, inr, Bool-cases, Option-cases, add32, sub32, sub64,
}
use mathlib.Core.Option.{some-injective}
use mem_exchange.Assoc.Key.{same_key_iff}
use mem_exchange.Assoc.Table.{
  Keyed, Buckets, Assoc, hashsize, masked, update, in_old, bucket, set_bucket, assoc_start_expand,
  assoc_insert, assoc_expand, assoc_find, assoc_delete, unlink, move_chain, move_bucket, bulk_move,
  maintenance_round,
}
use mem_exchange.Assoc.Chains.{count, count-eq-zero, count-unlink, count-move}
use mem_exchange.Assoc.Valid.{
  IsPlaced, IsValid, set_bucket-IsValid, update-IsPlaced, assoc_expand-IsValid,
}

module _ {I : Type 0} ⦃k : Keyed I⦄ (hash : List ℕ → ℕ) where
  -- No chain in use holds a key twice.
  pub bucket_once : (t : Assoc I) (j : List ℕ) (hv : ℕ) → IsValid hash t → count j (bucket t hv) ≤ 1
  unfolding bucket
  bucket_once t j hv v = elim (Bool-cases (in_old t hv)) [
    | inl e ↦ rw (e, bucket) ((v.old (ground arith)).once j _)
    | inr e ↦ rw (e, bucket) (v.primary.once j _)
  ]

  -- the counters and the signal are no part of the invariant
  recounted :
      (u : Assoc I) (n : ℕ) (b : Bool)
      → IsValid hash u
      → IsValid hash (record u { hash_items = n; started_expanding = b })
  recounted u n b v = record {
    primary = v.primary;
    old = v.old;
    unmoved = v.unmoved;
    progress = v.progress;
    positive = v.positive;
  }

  assoc_start_expand-IsValid : (u : Assoc I) → IsValid hash u → IsValid hash (assoc_start_expand u)
  unfolding assoc_start_expand
  assoc_start_expand-IsValid u v = go u.started_expanding
    where
      go : (b : Bool) → IsValid hash (if b then u else record u { started_expanding = true })
      go true = v
      go false = recounted u u.hash_items true v

  signalled :
      (full : Bool) (u : Assoc I)
      → IsValid hash u
      → IsValid hash (if full then assoc_start_expand u else u)
  signalled true u v = assoc_start_expand-IsValid u v
  signalled false u v = v

  -- Inserting an item under its hash keeps the invariant, if its key is absent.
  pub assoc_insert-IsValid :
      (it : I) (t : Assoc I)
      → IsValid hash t
      → assoc_find (k.key it) (hash (k.key it)) t ≡ none
      → IsValid hash (assoc_insert it (hash (k.key it)) t)
  unfolding assoc_insert assoc_find count
  assoc_insert-IsValid it t v absent =
      let key = k.key it in
      let hv = hash key in
      let c = bucket t hv in
      let u = set_bucket t hv (it ∷ c) in
      let w = set_bucket-IsValid hash t key (it ∷ c) v (λ j. ground (
        arith,
        same_key_iff j key,
        bucket_once t j hv v,
        count-eq-zero key c absent,
        ap hash {x = j} {y = key},
      )) in
      signalled _ _ (recounted u (add32 t.hash_items 1) u.started_expanding w)

  -- Deleting a key keeps the invariant.
  pub assoc_delete-IsValid :
      (key : List ℕ) (t t' : Assoc I)
      → IsValid hash t
      → assoc_delete key (hash key) t ≡ some t'
      → IsValid hash t'
  unfolding assoc_delete
  assoc_delete-IsValid key t t' v e =
      let c = bucket t (hash key) in
      elim (Option-cases (unlink key c)) [
        | inl none_left ↦ cc (none_left, e)
        | inr (c', run) ↦
            let w =
              set_bucket-IsValid hash t key c' v
                (λ j. ground (arith, count-unlink key j c c' run, bucket_once t j (hash key) v)) in
            let u = set_bucket t (hash key) c' in
            subst (IsValid hash) (some-injective _ _ (rw (run, assoc_delete) at e))
              (recounted u (sub32 t.hash_items 1) u.started_expanding w)
      ]

  -- Moving a bucket during an expansion keeps the invariant.
  pub move_bucket-IsValid :
      (t : Assoc I) → t.expanding ≡ true → IsValid hash t → IsValid hash (move_bucket hash t)
  unfolding move_bucket count
  move_bucket-IsValid t on v = go (b + 1 == hashsize (t.hashpower - 1)) refl
    where
      b : ℕ
      b = t.expand_bucket

      moved : Buckets I
      moved = move_chain hash t.hashpower (t.old_hashtable b) t.primary_hashtable

      moved-IsPlaced : IsPlaced hash t.hashpower moved
      moved-IsPlaced = record {
        once = λ j i. ground (
          arith,
          count-move hash t.hashpower j (t.old_hashtable b) t.primary_hashtable i,
          v.primary.once j i,
          (v.old on).once j b,
          (v.old on).home j b,
          v.unmoved on j,
        );
        home = λ j i far. ground (
          arith,
          count-move hash t.hashpower j (t.old_hashtable b) t.primary_hashtable i,
          v.primary.home j i far,
        );
      }

      emptied-IsPlaced : IsPlaced hash (t.hashpower - 1) (update t.old_hashtable b [])
      emptied-IsPlaced = update-IsPlaced hash (v.old on) b [] (λ j. (ground arith, λ h. refl))

      go :
          (last : Bool)
          → (b + 1 == hashsize (t.hashpower - 1)) ≡ last
          → IsValid hash (
              if last
              then record t {
                primary_hashtable = moved;
                old_hashtable = update t.old_hashtable b [];
                expand_bucket = b + 1;
                expanding = false;
                hash_bytes = sub64 t.hash_bytes (hashsize (t.hashpower - 1) * 8);
                hash_is_expanding = false;
              }
              else record t {
                primary_hashtable = moved;
                old_hashtable = update t.old_hashtable b [];
                expand_bucket = b + 1;
              })
      go true e = record {
        primary = moved-IsPlaced;
        old = λ h. cc;
        unmoved = λ h. cc;
        progress = λ h. cc;
        positive = λ h. cc;
      }
      go false e = record {
        primary = moved-IsPlaced;
        old = λ h. emptied-IsPlaced;
        unmoved = λ h j late. ground (
          arith,
          count-move hash t.hashpower j (t.old_hashtable b) t.primary_hashtable
              (masked (hash j) t.hashpower),
          v.unmoved on j,
          (v.old on).home j b,
        );
        progress = λ h. ground (arith, v.progress on);
        positive = v.positive;
      }

  pub bulk_move-IsValid :
      (locks : List Bool) (t : Assoc I) → IsValid hash t → IsValid hash (bulk_move hash locks t)
  unfolding bulk_move
  bulk_move-IsValid [] t v = v
  bulk_move-IsValid (locked ∷ ls) t v =
      go t.expanding refl (bulk_move-IsValid ls (if locked then move_bucket hash t else t))
    where
      pass : (b : Bool) → t.expanding ≡ true → IsValid hash (if b then move_bucket hash t else t)
      pass true on = move_bucket-IsValid t on v
      pass false on = v

      u : Assoc I
      u = if locked then move_bucket hash t else t

      go :
          (b : Bool)
          → t.expanding ≡ b
          → (IsValid hash u → IsValid hash (bulk_move hash ls u))
          → IsValid hash (if b then bulk_move hash ls u else t)
      go true on later = later (pass locked on)
      go false off later = v

  -- A round of the maintenance thread keeps the invariant.
  pub maintenance_round-IsValid :
      (locks : List Bool) (allocated : Bool) (t : Assoc I)
      → IsValid hash t
      → IsValid hash (maintenance_round hash locks allocated t)
  unfolding maintenance_round
  maintenance_round-IsValid locks allocated t v = go u.expanding
    where
      woken :
          (b : Bool) → t.expanding ≡ b → IsValid hash (if b then t else assoc_expand allocated t)
      woken true on = v
      woken false off = assoc_expand-IsValid hash allocated t off v

      u : Assoc I
      u = bulk_move hash locks (if t.expanding then t else assoc_expand allocated t)

      w : IsValid hash u
      w = bulk_move-IsValid locks _ (woken t.expanding refl)

      go : (b : Bool) → IsValid hash (if b then u else record u { started_expanding = false })
      go true = w
      go false = recounted u u.hash_items false w
