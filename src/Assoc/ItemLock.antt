-- ===== src/Assoc/ItemLock.antt =====
-- The item locks of src/thread.c, and why one of them is enough for a chain of src/assoc.c.
use native.Mathlib.Nat.{pow-suc, mod-mod_of_dvd, dvd-mul_left}
use mem_exchange.Prelude.{
  ℕ, zero, suc, ◌+◌, ◌-◌, ◌*◌, ◌^◌, ◌≤◌, ◌<◌, ◌≡◌, ap, subst, sym, ◌∙◌, Bool, true, false, Option,
  none, some, List, [], ◌∷◌, leb, ltb, arith, if◌then◌else◌, inl, inr, Bool-cases,
}
use mem_exchange.Assoc.Table.{
  Keyed, Assoc, assoc_init, assoc_insert, assoc_start_expand, assoc_expand, assoc_delete,
  maintenance_round, find_in, bucket, hashsize, masked, set_bucket, in_old, bulk_move, move_bucket,
}
use mem_exchange.Assoc.Chains.{find-eq-none}
use mem_exchange.Assoc.History.{Event, Run, Run-IsValid, start, insert, delete, maintain}
use mem_exchange.Assoc.Expansion.{bucket_old, bucket_new}

-- the width of the lock table that `memcached_thread_init` chooses, and its test against the table's:
-- `none` is the exit
unfoldable pub item_lock_power : ℕ → ℕ → Option ℕ
item_lock_power nthreads hashpower =
    let power =
      if ltb nthreads 3
      then 10
      else if ltb nthreads 4
      then 11
      else if ltb nthreads 5
      then 12
      else if leb nthreads 10
      then 13
      else if leb nthreads 20
      then 14
      else 15 in
    if leb hashpower power then none else some power

-- the lock of `item_lock`, `item_trylock` and `item_unlock`
abbrev pub item_lock : ℕ → ℕ → ℕ
item_lock item_lock_hashpower hv = masked hv item_lock_hashpower

hashsize-+ : (d p : ℕ) → hashsize (d + p) ≡ hashsize d * hashsize p
hashsize-+ zero p = let none_more : 0 + p ≡ p = omega arith in rw (none_more) (omega arith)
hashsize-+ (suc d) p =
    let suc_out : suc d + p ≡ suc (d + p) = omega arith in
    rw (suc_out, pow-suc 2 (d + p), pow-suc 2 d, hashsize-+ d p) (grind arith)

masked-coarser : (d p hv : ℕ) → masked (masked hv (d + p)) p ≡ masked hv p
masked-coarser d p hv =
    mod-mod_of_dvd (2 ^ p) hv (rw (hashsize-+ d p) (dvd-mul_left (2 ^ p) (2 ^ d)))

-- Hashes of one chain have one lock.
masked-same : (p q hv hw : ℕ) → p ≤ q → masked hv q ≡ masked hw q → item_lock p hv ≡ item_lock p hw
masked-same p q hv hw h e =
    let split : (q - p) + p ≡ q = omega arith in
    let coarser : (x : ℕ) → masked (masked x q) p ≡ masked x p =
      subst (λ (w : ℕ). (x : ℕ) → masked (masked x w) p ≡ masked x p) split
        (masked-coarser (q - p) p) in
    sym (coarser hv) ∙ ap (λ x. masked x p) e ∙ coarser hw

module _ {I : Type 0} where
  -- the table never gets narrower than it began
  record IsWide (base : ℕ) (t : Assoc I) : Type 0 where
    now : base ≤ t.hashpower
    before : t.expanding ≡ true → base < t.hashpower

module _ {I : Type 0} ⦃k : Keyed I⦄ (hash : List ℕ → ℕ) where
  insert-IsWide :
      (base : ℕ) (it : I) (hv : ℕ) (t : Assoc I)
      → IsWide base t
      → IsWide base (assoc_insert it hv t)
  unfolding assoc_insert assoc_start_expand set_bucket
  insert-IsWide base it hv t w = record {
    now = ground (arith, w.now);
    before = λ e. ground (arith, w.before);
  }

  delete-IsWide :
      (base : ℕ) (key : List ℕ) (hv : ℕ) (t t' : Assoc I)
      → assoc_delete key hv t ≡ some t'
      → IsWide base t
      → IsWide base t'
  unfolding assoc_delete set_bucket
  delete-IsWide base key hv t t' e w = record {
    now = ground (arith, w.now);
    before = λ on. ground (arith, w.before);
  }

  bulk_move-IsWide :
      (base : ℕ) (locks : List Bool) (t : Assoc I)
      → IsWide base t
      → IsWide base (bulk_move hash locks t)
  unfolding bulk_move move_bucket
  bulk_move-IsWide base [] t w = w
  bulk_move-IsWide base (locked ∷ ls) t w =
      let moved : IsWide base (move_bucket hash t) = record {
        now = ground (arith, w.now);
        before = λ e. ground (arith, w.before);
      } in
      go t.expanding locked moved (bulk_move-IsWide base ls (move_bucket hash t))
        (bulk_move-IsWide base ls t)
    where
      go :
          (on locked : Bool)
          → IsWide base (move_bucket hash t)
          → (IsWide base (move_bucket hash t)
              → IsWide base (bulk_move hash ls (move_bucket hash t)))
          → (IsWide base t → IsWide base (bulk_move hash ls t))
          → IsWide base
              (if on then bulk_move hash ls (if locked then move_bucket hash t else t) else t)
      go true true moved f g = f moved
      go true false moved f g = g w
      go false locked moved f g = w

  round-IsWide :
      (base : ℕ) (locks : List Bool) (allocated : Bool) (t : Assoc I)
      → IsWide base t
      → IsWide base (maintenance_round hash locks allocated t)
  unfolding maintenance_round assoc_expand
  round-IsWide base locks allocated t w =
      let woken : IsWide base (if t.expanding then t else assoc_expand allocated t) = record {
        now = ground (arith, w.now);
        before = λ e. ground (arith, w.now, w.before);
      } in
      let u = bulk_move-IsWide base locks _ woken in
      record { now = ground (arith, u.now); before = λ e. ground (arith, u.now, u.before) }

  Run-IsWide :
      {power : ℕ} {es : List (Event I)} {t : Assoc I}
      → Run hash power es t
      → IsWide (assoc_init {I = I} power).hashpower t
  unfolding assoc_init
  Run-IsWide start = record { now = omega arith; before = λ e. cc }
  Run-IsWide (insert {t = t} it absent r) = insert-IsWide _ it (hash (k.key it)) t (Run-IsWide r)
  Run-IsWide (delete {t = t} {t' = t'} key e r) =
      delete-IsWide _ key (hash key) t t' e (Run-IsWide r)
  Run-IsWide (maintain {t = t} locks allocated r) = round-IsWide _ locks allocated t (Run-IsWide r)

  -- In a table that a run reaches, with the lock table that `memcached_thread_init` accepts for the
  -- initial table, every item found in the chain of `hv` has the item lock of `hv`, during an
  -- expansion too.
  pub chain-item_lock :
      {power : ℕ} {es : List (Event I)} {t : Assoc I} (nthreads p hv : ℕ) (j : List ℕ) (it : I)
      → Run hash power es t
      → item_lock_power nthreads (assoc_init {I = I} power).hashpower ≡ some p
      → find_in j (bucket t hv) ≡ some it
      → item_lock p (hash j) ≡ item_lock p hv
  unfolding item_lock_power
  chain-item_lock {power = power} {t = t} nthreads p hv j it r chosen found =
      let w = Run-IsWide r in
      let v = Run-IsValid r in
      let low : p < (assoc_init {I = I} power).hashpower = ground arith in
      elim (Bool-cases (in_old t hv)) [
        | inl e ↦
            let on : t.expanding ≡ true = ground arith in
            masked-same p (t.hashpower - 1) (hash j) hv (ground (arith, w.before on)) (
              ground (
                arith,
                (v.old on).home j (masked hv (t.hashpower - 1)),
                find-eq-none j (bucket t hv),
                bucket_old t hv e,
              ))
        | inr e ↦ masked-same p t.hashpower (hash j) hv (ground (arith, w.now)) (
            ground (
              arith,
              v.primary.home j (masked hv t.hashpower),
              find-eq-none j (bucket t hv),
              bucket_new t hv e,
            ))
      ]
