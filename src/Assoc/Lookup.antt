-- ===== src/Assoc/Lookup.antt =====
-- What a lookup of src/assoc.c finds after each of the other functions.
use mathlib.Core.Option.{some-injective}
use mem_exchange.Prelude.{
  ℕ, ◌-◌, ◌≡◌, ◌≢◌, refl, ap, sym, ◌∙◌, Bool, true, false, Option, none, some, List, ◌∷◌, ◌==◌,
  arith, if◌then◌else◌, ◌⊎◌, inl, inr, Bool-cases, Option-cases, add32, sub32,
}
use mem_exchange.Assoc.Key.{same_key, same_key_iff}
use mem_exchange.Assoc.Table.{
  Keyed, Assoc, masked, in_old, bucket, set_bucket, assoc_start_expand, assoc_insert, assoc_find,
  assoc_delete, unlink, find_in,
}
use mem_exchange.Assoc.Chains.{find-unlink, unlink-some}
use mem_exchange.Assoc.Valid.{IsValid}
use mem_exchange.Assoc.Steps.{bucket_once}

module _ {I : Type 0} where
  bucket-set_bucket :
      (t : Assoc I) (hv hw : ℕ) (c : List I)
      → ((bucket t hv ≡ bucket t hw) × (bucket (set_bucket t hv c) hw ≡ c))
        ⊎ ((hv ≢ hw) × (bucket (set_bucket t hv c) hw ≡ bucket t hw))
  unfolding bucket set_bucket
  bucket-set_bucket t hv hw c = elim (Bool-cases (in_old t hv)) [
    | inl e ↦ elim (Bool-cases (in_old t hw)) [
      | inl f ↦ elim (Bool-cases (masked hv (t.hashpower - 1) == masked hw (t.hashpower - 1))) [
        | inl same ↦ inl (ground arith, ground arith)
        | inr other ↦ inr (λ g. ground arith, ground arith)
      ]
      | inr f ↦ inr (λ g. ground arith, ground arith)
    ]
    | inr e ↦ elim (Bool-cases (in_old t hw)) [
      | inl f ↦ inr (λ g. ground arith, ground arith)
      | inr f ↦ elim (Bool-cases (masked hv t.hashpower == masked hw t.hashpower)) [
        | inl same ↦ inl (ground arith, ground arith)
        | inr other ↦ inr (λ g. ground arith, ground arith)
      ]
    ]
  ]

  pub bucket_recounted :
      (u : Assoc I) (n : ℕ) (b : Bool) (hv : ℕ)
      → bucket (record u { hash_items = n; started_expanding = b }) hv ≡ bucket u hv
  unfolding bucket
  bucket_recounted u n b hv = refl

  bucket_signalled :
      (full : Bool) (u : Assoc I) (hv : ℕ)
      → bucket (if full then assoc_start_expand u else u) hv ≡ bucket u hv
  unfolding assoc_start_expand
  bucket_signalled true u hv = go u.started_expanding
    where
      go :
          (b : Bool)
          → bucket (if b then u else record u { started_expanding = true }) hv ≡ bucket u hv
      go true = refl
      go false = bucket_recounted u u.hash_items true hv
  bucket_signalled false u hv = refl

  bucket-insert :
      (it : I) (t : Assoc I) (hv hw : ℕ)
      → bucket (assoc_insert it hv t) hw ≡ bucket (set_bucket t hv (it ∷ bucket t hv)) hw
  unfolding assoc_insert
  bucket-insert it t hv hw =
      let u = set_bucket t hv (it ∷ bucket t hv) in
      bucket_signalled _ _ hw ∙ bucket_recounted u (add32 t.hash_items 1) u.started_expanding hw

module _ {I : Type 0} ⦃k : Keyed I⦄ where
  bucket-delete :
      (key : List ℕ) (t t' : Assoc I) (hv : ℕ)
      → assoc_delete key hv t ≡ some t'
      → (c : List I) × (unlink key (bucket t hv) ≡ some c)
        × ((hw : ℕ) → bucket t' hw ≡ bucket (set_bucket t hv c) hw)
        × (t'.hash_items ≡ sub32 t.hash_items 1)
  unfolding assoc_delete
  bucket-delete key t t' hv e = elim (Option-cases (unlink key (bucket t hv))) [
    | inl none_left ↦ cc (none_left, e)
    | inr (c, run) ↦
        let u = set_bucket t hv c in
        let same = some-injective _ _ (rw (run, assoc_delete) at e) in
        (
          c,
          run,
          λ hw.
              ap (λ v. bucket v hw) (sym same)
              ∙ bucket_recounted u (sub32 t.hash_items 1) u.started_expanding hw,
          ap (λ v. v.hash_items) (sym same),
        )
  ]

module _ {I : Type 0} ⦃k : Keyed I⦄ (hash : List ℕ → ℕ) where
  -- what the table answers for a key
  abbrev pub view : Assoc I → List ℕ → Option I
  view t key = assoc_find key (hash key) t

  -- After an insertion the item is found under its key, and every other key as before.
  pub find-insert :
      (it : I) (t : Assoc I) (j : List ℕ)
      → view (assoc_insert it (hash (k.key it)) t) j
        ≡ (if same_key j (k.key it) then some it else view t j)
  unfolding assoc_find find_in
  find-insert it t j =
      let key = k.key it in
      elim (bucket-set_bucket t (hash key) (hash j) (it ∷ bucket t (hash key))) [
        | inl (same, at) ↦ rw (bucket-insert it t (hash key) (hash j), at) (rw (same) refl)
        | inr (other, at) ↦
            let distinct : same_key j key ≡ false =
              ground (arith, same_key_iff j key, ap hash {x = j} {y = key}) in
            rw (bucket-insert it t (hash key) (hash j), at, distinct) refl
      ]

  -- After a deletion that succeeds in a valid table its key is not found, every other key is found as
  -- before, and the count of items is one less, modulo 2 ^ 32.
  pub find-delete :
      (key j : List ℕ) (t t' : Assoc I)
      → IsValid hash t
      → assoc_delete key (hash key) t ≡ some t'
      → (view t' j ≡ (if same_key key j then none else view t j))
        × (t'.hash_items ≡ sub32 t.hash_items 1)
  unfolding assoc_find
  find-delete key j t t' v e =
      let (c, run, left, items) = bucket-delete key t t' (hash key) e in
      (
        elim (bucket-set_bucket t (hash key) (hash j) c) [
          | inl (same, at) ↦
              rw (left (hash j), at, ← same)
                (find-unlink key j (bucket t (hash key)) c
                  (rw (same) (bucket_once hash t j (hash j) v)) run)
          | inr (other, at) ↦
              let distinct : same_key key j ≡ false =
                ground (arith, same_key_iff key j, ap hash {x = key} {y = j}) in
              rw (left (hash j), at, distinct) refl
        ],
        items,
      )

  -- A key that is found can be deleted: the assertion of `assoc_delete` holds.
  pub delete_found :
      (key : List ℕ) (t : Assoc I) (it : I)
      → view t key ≡ some it
      → (t' : Assoc I) × (assoc_delete key (hash key) t ≡ some t')
  unfolding assoc_find assoc_delete
  delete_found key t it found =
      let (c, run) = unlink-some key (bucket t (hash key)) it found in
      (
        record (set_bucket t (hash key) c) { hash_items = sub32 t.hash_items 1 },
        rw (run, assoc_delete) refl,
      )
