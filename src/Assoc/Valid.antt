-- ===== src/Assoc/Valid.antt =====
-- The invariant of the tables of src/assoc.c: every key stands at most once, in the bucket of its hash,
-- and during an expansion in the old table exactly until its bucket has been moved.
use native.Mathlib.Nat.{pow-suc, mod-lt}
use mem_exchange.Prelude.{
  ℕ, zero, suc, ◌+◌, ◌-◌, ◌≤◌, ◌<◌, ◌≡◌, ◌≢◌, refl, subst, Bool, true, false, List, [], arith, ◌⊎◌,
  inl, inr, Bool-cases,
}
use mem_exchange.Assoc.Table.{
  Keyed, Buckets, Assoc, hashsize, masked, update, in_old, bucket, set_bucket, assoc_init,
  assoc_expand,
}
use mem_exchange.Assoc.Chains.{count}

pub hashsize-pos : (n : ℕ) → 0 < hashsize n
hashsize-pos zero = omega arith
hashsize-pos (suc n) = rw (pow-suc 2 n) (omega (arith, hashsize-pos n))

-- Every access of `bucket` and `set_bucket` is inside its array.
pub bucket_in_bounds :
    (hv power : ℕ)
    → (masked hv power < hashsize power) × (masked hv (power - 1) < hashsize (power - 1))
bucket_in_bounds hv power = (mod-lt hv (hashsize-pos power), mod-lt hv (hashsize-pos (power - 1)))

module _ {I : Type 0} ⦃k : Keyed I⦄ (hash : List ℕ → ℕ) where
  -- each key at most once, and only in the bucket of its hash under `power`
  pub record IsPlaced (power : ℕ) (bs : Buckets I) : Type 0 where
    pub once : (j : List ℕ) (i : ℕ) → count j (bs i) ≤ 1
    pub home : (j : List ℕ) (i : ℕ) → i ≢ masked (hash j) power → count j (bs i) ≡ 0

  pub record IsValid (t : Assoc I) : Type 0 where
    pub primary : IsPlaced t.hashpower t.primary_hashtable
    pub old : t.expanding ≡ true → IsPlaced (t.hashpower - 1) t.old_hashtable
    -- what is still in the old table is not in the new one
    pub unmoved :
        t.expanding ≡ true
        → (j : List ℕ) → t.expand_bucket ≤ masked (hash j) (t.hashpower - 1)
        → count j (t.primary_hashtable (masked (hash j) t.hashpower)) ≡ 0
    pub progress : t.expanding ≡ true → t.expand_bucket < hashsize (t.hashpower - 1)
    pub positive : t.expanding ≡ true → 0 < t.hashpower

  empty-IsPlaced : (power : ℕ) → IsPlaced power (λ i. [])
  unfolding count
  empty-IsPlaced power = record { once = λ j i. omega arith; home = λ j i h. refl }

  pub assoc_init-IsValid : (power : ℕ) → IsValid (assoc_init power)
  unfolding assoc_init
  assoc_init-IsValid power = record {
    primary = empty-IsPlaced _;
    old = λ e. cc;
    unmoved = λ e. cc;
    progress = λ e. cc;
    positive = λ e. cc;
  }

  pub assoc_expand-IsValid :
      (allocated : Bool) (t : Assoc I)
      → t.expanding ≡ false
      → IsValid t
      → IsValid (assoc_expand allocated t)
  unfolding assoc_expand count
  assoc_expand-IsValid true t idle v = record {
    primary = empty-IsPlaced (t.hashpower + 1);
    old = λ e. subst (λ p. IsPlaced p t.primary_hashtable) (omega arith) v.primary;
    unmoved = λ e j h. refl;
    progress = λ e. hashsize-pos (t.hashpower + 1 - 1);
    positive = λ e. omega arith;
  }
  assoc_expand-IsValid false t idle v = record {
    primary = v.primary;
    old = λ e. cc (idle, e);
    unmoved = λ e. cc (idle, e);
    progress = λ e. cc (idle, e);
    positive = λ e. cc (idle, e);
  }

  module _ {power : ℕ} {bs : Buckets I} (placed : IsPlaced power bs) (b : ℕ) (c : List I) where
    pub update-IsPlaced :
        ((j : List ℕ) → (count j c ≤ 1) × (b ≢ masked (hash j) power → count j c ≡ 0))
        → IsPlaced power (update bs b c)
    update-IsPlaced h = record {
      once = λ j i. ground (arith, placed.once j i, h j);
      home = λ j i. ground (arith, placed.home j i, h j);
    }

  -- A chain may be replaced by one that holds the same keys at most as often, but for keys of that
  -- chain's hash, which stand at most once.
  pub set_bucket-IsValid :
      (t : Assoc I) (key : List ℕ) (c : List I)
      → IsValid t
      → ((j : List ℕ)
          → (count j c ≤ 1) × ((count j c ≤ count j (bucket t (hash key))) ⊎ (hash j ≡ hash key)))
      → IsValid (set_bucket t (hash key) c)
  unfolding set_bucket bucket
  set_bucket-IsValid t key c v h = elim (Bool-cases (in_old t (hash key))) [
    | inl e ↦
        let on : t.expanding ≡ true = ground arith in
        let b = masked (hash key) (t.hashpower - 1) in
        let placed = v.old on in
        rw (e, set_bucket)
          (record {
            primary = v.primary;
            old = λ _. update-IsPlaced placed b c (λ j. ground (arith, h j, placed.home j b));
            unmoved = v.unmoved;
            progress = v.progress;
            positive = v.positive;
          })
    | inr e ↦
        let b = masked (hash key) t.hashpower in
        rw (e, set_bucket)
          (record {
            primary = update-IsPlaced v.primary b c (λ j. ground (arith, h j, v.primary.home j b));
            old = v.old;
            unmoved = λ on j late. ground (arith, h j, v.unmoved on j late);
            progress = v.progress;
            positive = v.positive;
          })
  ]
