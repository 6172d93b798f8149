-- ===== src/Assoc/Expansion.antt =====
-- The expansion of the table of src/assoc.c: lookups do not notice it, and it ends.
use native.Mathlib.Nat.{mod-lt}
use mem_exchange.Prelude.{
  ℕ, ◌+◌, ◌-◌, ◌≤◌, ◌<◌, ◌≡◌, refl, ap, sym, ◌∙◌, Bool, true, false, Option, none, some, List, [],
  ◌∷◌, ◌==◌, leb, ltb, arith, if◌then◌else◌, inl, inr, Bool-cases,
}
use mem_exchange.Assoc.Table.{
  Keyed, Assoc, hashsize, masked, in_old, bucket, assoc_expand, assoc_find, move_chain, move_bucket,
  bulk_move, maintenance_round, find_in,
}
use mem_exchange.Assoc.Chains.{find-move, find-eq-none}
use mem_exchange.Assoc.Valid.{assoc_expand-IsValid, IsValid, hashsize-pos}
use mem_exchange.Assoc.Steps.{move_bucket-IsValid}
use mem_exchange.Assoc.Lookup.{view, bucket_recounted}

-- how many passes of the maintenance loop got the item lock
abbrev pub passes : List Bool → ℕ
passes [] = 0
passes (true ∷ ls) = 1 + passes ls
passes (false ∷ ls) = passes ls

module _ {I : Type 0} where
  bucket-expand :
      (allocated : Bool) (t : Assoc I) (hv : ℕ)
      → t.expanding ≡ false
      → bucket (assoc_expand allocated t) hv ≡ bucket t hv
  unfolding bucket assoc_expand
  bucket-expand true t hv idle = ground arith
  bucket-expand false t hv idle = ground arith

  pub bucket_old :
      (t : Assoc I) (hv : ℕ)
      → in_old t hv ≡ true
      → bucket t hv ≡ t.old_hashtable (masked hv (t.hashpower - 1))
  unfolding bucket
  bucket_old t hv e = rw (e, bucket) refl

  pub bucket_new :
      (t : Assoc I) (hv : ℕ)
      → in_old t hv ≡ false
      → bucket t hv ≡ t.primary_hashtable (masked hv t.hashpower)
  unfolding bucket
  bucket_new t hv e = rw (e, bucket) refl

  otherwise_none : (o p : Option I) → p ≡ none → (elim o [ some it ↦ some it | none ↦ p ]) ≡ o
  otherwise_none none p e = e
  otherwise_none (some it) p e = refl

module _ {I : Type 0} ⦃k : Keyed I⦄ (hash : List ℕ → ℕ) where
  -- which chain a hash belongs to after a bucket has been moved
  bucket-move_bucket :
      (t : Assoc I) (hv : ℕ)
      → t.expanding ≡ true
      → t.expand_bucket < hashsize (t.hashpower - 1)
      → bucket (move_bucket hash t) hv ≡ (
          if ltb t.expand_bucket (masked hv (t.hashpower - 1))
          then bucket t hv
          else move_chain hash t.hashpower
              (t.old_hashtable t.expand_bucket)
              t.primary_hashtable
              (masked hv t.hashpower))
  unfolding bucket move_bucket
  bucket-move_bucket t hv on progress =
      let low = mod-lt hv (hashsize-pos (t.hashpower - 1)) in
      elim (Bool-cases (t.expand_bucket + 1 == hashsize (t.hashpower - 1))) [
        | inl e ↦ ground arith
        | inr e ↦ ground arith
      ]

  -- Moving a bucket during an expansion changes no lookup.
  pub find-move_bucket :
      (t : Assoc I) (j : List ℕ)
      → t.expanding ≡ true
      → IsValid hash t
      → view hash (move_bucket hash t) j ≡ view hash t j
  unfolding assoc_find
  find-move_bucket t j on v =
      let b = t.expand_bucket in
      let m = masked (hash j) (t.hashpower - 1) in
      let old = t.old_hashtable b in
      let new = t.primary_hashtable (masked (hash j) t.hashpower) in
      let moved = find-move hash t.hashpower j old t.primary_hashtable ((v.old on).once j b) in
      ap (find_in j) (bucket-move_bucket t (hash j) on (v.progress on))
      ∙ elim (Bool-cases (ltb b m)) [
        | inl later ↦ rw (later) refl
        | inr reached ↦ elim (Bool-cases (leb b m)) [
          | inl here ↦
              let at : m ≡ b = ground arith in
              let stay : bucket t (hash j) ≡ old =
                bucket_old t (hash j) (ground arith) ∙ ap t.old_hashtable at in
              let absent = find-eq-none j new (v.unmoved on j (ground arith)) in
              rw (reached) (
                moved
                ∙ otherwise_none (find_in j old) (find_in j new) absent
                ∙ ap (find_in j) (sym stay))
          | inr before ↦
              let stay : bucket t (hash j) ≡ new = bucket_new t (hash j) (ground arith) in
              let gone = find-eq-none j old ((v.old on).home j b (ground arith)) in
              rw (reached) (moved ∙ rw (gone) refl ∙ ap (find_in j) (sym stay))
        ]
      ]

  -- An expansion begins, or fails for lack of memory, without a change for any lookup.
  pub find-expand :
      (allocated : Bool) (t : Assoc I) (j : List ℕ)
      → t.expanding ≡ false
      → view hash (assoc_expand allocated t) j ≡ view hash t j
  unfolding assoc_find
  find-expand allocated t j idle = ap (find_in j) (bucket-expand allocated t (hash j) idle)

  find-bulk_move :
      (locks : List Bool) (t : Assoc I) (j : List ℕ)
      → IsValid hash t
      → view hash (bulk_move hash locks t) j ≡ view hash t j
  unfolding bulk_move
  find-bulk_move [] t j v = refl
  find-bulk_move (true ∷ ls) t j v = elim (Bool-cases t.expanding) [
    | inl on ↦
        simp (on, bulk_move)
          (find-bulk_move ls (move_bucket hash t) j (move_bucket-IsValid hash t on v)
            ∙ find-move_bucket t j on v)
    | inr off ↦ simp (off, bulk_move) refl
  ]
  find-bulk_move (false ∷ ls) t j v = elim (Bool-cases t.expanding) [
    | inl on ↦ simp (on, bulk_move) (find-bulk_move ls t j v)
    | inr off ↦ simp (off, bulk_move) refl
  ]

  -- In a valid table a round of the maintenance thread changes no lookup, whichever item locks it
  -- gets and whether or not memory for a wider table is left.
  pub find-maintenance_round :
      (locks : List Bool) (allocated : Bool) (t : Assoc I) (j : List ℕ)
      → IsValid hash t
      → view hash (maintenance_round hash locks allocated t) j ≡ view hash t j
  unfolding maintenance_round assoc_find
  find-maintenance_round locks allocated t j v =
      go u.expanding
      ∙ find-bulk_move locks (start t.expanding) j (woken t.expanding refl)
      ∙ begun t.expanding refl
    where
      start : Bool → Assoc I
      start b = if b then t else assoc_expand allocated t

      woken : (b : Bool) → t.expanding ≡ b → IsValid hash (start b)
      woken true on = v
      woken false off = assoc_expand-IsValid hash allocated t off v

      begun : (b : Bool) → t.expanding ≡ b → view hash (start b) j ≡ view hash t j
      begun true on = refl
      begun false off = find-expand allocated t j off

      u : Assoc I
      u = bulk_move hash locks (start t.expanding)

      go :
          (b : Bool)
          → view hash (if b then u else record u { started_expanding = false }) j ≡ view hash u j
      go true = refl
      go false = ap (find_in j) (bucket_recounted u u.hash_items false (hash j))

  move_bucket-progress :
      (t : Assoc I)
      → ((move_bucket hash t).hashpower ≡ t.hashpower)
        × ((move_bucket hash t).expand_bucket ≡ t.expand_bucket + 1)
  unfolding move_bucket
  move_bucket-progress t = (ground arith, ground arith)

  -- A valid table is not expanding after a run of passes among which as many got their lock as the
  -- old table has buckets left.
  pub bulk_move-ends :
      (locks : List Bool) (t : Assoc I)
      → IsValid hash t
      → hashsize (t.hashpower - 1) ≤ passes locks + t.expand_bucket
      → (bulk_move hash locks t).expanding ≡ false
  unfolding bulk_move
  bulk_move-ends [] t v enough = elim (Bool-cases t.expanding) [
    | inl on ↦ ground (arith, v.progress on)
    | inr off ↦ off
  ]
  bulk_move-ends (true ∷ ls) t v enough = elim (Bool-cases t.expanding) [
    | inl on ↦
        simp (on, bulk_move)
          (bulk_move-ends ls (move_bucket hash t) (move_bucket-IsValid hash t on v)
            (ground (arith, move_bucket-progress t)))
    | inr off ↦ simp (off, bulk_move) refl
  ]
  bulk_move-ends (false ∷ ls) t v enough = elim (Bool-cases t.expanding) [
    | inl on ↦ simp (on, bulk_move) (bulk_move-ends ls t v enough)
    | inr off ↦ simp (off, bulk_move) refl
  ]
