-- ===== src/Slabs/FreeList/Lists.antt =====
-- The free lists of all classes at once: no chunk is in two of them.
use mem_exchange.Prelude.{
  ℕ, refl, ◌≡◌, ◌≢◌, ◌⊎◌, inl, inr, true, false, List, [], ◌∷◌, ◌==◌, arith, Bool-cases, subst,
}
use mem_exchange.Slabs.State.{Item, Pool, item_slabbed, put_item, at}
use mem_exchange.Slabs.FreeList.{push_free, unrequest, IsFree, push_free-IsFree}
use mem_exchange.Shadow.Order.{mem, first, next_of, prev_from}

pub record FreeLists (p : Pool) (ls : ℕ → List ℕ) : Type 0 where
  pub lists : (id : ℕ) → IsFree p id (ls id)
  pub disjoint : (a i j : ℕ) → mem a (ls i) ≡ true → mem a (ls j) ≡ true → i ≡ j

pub first_in : (xs : List ℕ) → (first xs ≡ 0) ⊎ (mem (first xs) xs ≡ true)
unfolding mem first
first_in [] = inl refl
first_in (x ∷ xs) = inr (ground arith)

-- A push on one list leaves another one alone.
push_free-other :
    (p : Pool) (ls : ℕ → List ℕ) (id j x : ℕ)
    → FreeLists p ls
    → j ≢ id
    → mem x (ls j) ≡ false
    → IsFree (push_free x id p) j (ls j)
unfolding push_free
push_free-other p ls id j x f d new = record {
  slots = ground (arith, l.slots);
  count = ground (arith, l.count);
  distinct = l.distinct;
  real = l.real;
  linked = λ a m. linked_still a m;
}
  where
    l : IsFree p j (ls j)
    l = f.lists j

    apart : (a : ℕ) → mem a (ls j) ≡ true → a ≢ (p.slabclass id).slots
    apart a m = ground (arith, (f.lists id).slots, first_in (ls id), f.disjoint a id j, l.real)

    linked_still :
        (a : ℕ)
        → mem a (ls j) ≡ true
        → (((push_free x id p).items a).next ≡ next_of a (ls j))
          × ((((push_free x id p).items a).prev ≡ prev_from 0 a (ls j))
              × ((((push_free x id p).items a).it_flags ≡ item_slabbed)
                  × (((push_free x id p).items a).slabs_clsid ≡ 0)))
    linked_still a m = (
      ground (arith, l.linked a, apart a),
      (
        ground (arith, l.linked a, apart a),
        (ground (arith, l.linked a, apart a), ground (arith, l.linked a, apart a)),
      ),
    )

-- A chunk that is in no free list goes to the front of the list of one class.
pub push_free-FreeLists :
    (p : Pool) (ls : ℕ → List ℕ) (id x : ℕ)
    → FreeLists p ls
    → x ≢ 0
    → ((j : ℕ) → mem x (ls j) ≡ false)
    → FreeLists (push_free x id p) (at ls id (x ∷ ls id))
unfolding mem
push_free-FreeLists p ls id x f real new = record {
  lists = λ j. elim (Bool-cases (j == id)) [
    | inl e ↦
        let same : id ≡ j = ground arith in
        simp e (
          subst (λ k. IsFree (push_free x id p) k (x ∷ ls id)) same
            (push_free-IsFree p id (ls id) x (f.lists id) real (new id)))
    | inr e ↦ simp e (push_free-other p ls id j x f (ground arith) (new j))
  ];
  disjoint = λ a i j m n. ground (arith, new i, new j, f.disjoint a i j);
}

-- The requested bytes are not part of the lists.
pub unrequest-FreeLists :
    (p : Pool) (ls : ℕ → List ℕ) (id n : ℕ) → FreeLists p ls → FreeLists (unrequest id n p) ls
unfolding unrequest
unrequest-FreeLists p ls id n f = record {
  lists = λ j. record {
    slots = ground (arith, (f.lists j).slots);
    count = ground (arith, (f.lists j).count);
    distinct = (f.lists j).distinct;
    real = (f.lists j).real;
    linked = (f.lists j).linked;
  };
  disjoint = f.disjoint;
}

-- An item that is in no list and is not the chunk stays as it was.
pub push_free-elsewhere :
    (p : Pool) (ls : ℕ → List ℕ) (id x a : ℕ)
    → FreeLists p ls
    → mem a (ls id) ≡ false
    → a ≢ 0
    → a ≢ x
    → (push_free x id p).items a ≡ p.items a
unfolding push_free
push_free-elsewhere p ls id x a f out real d =
    let apart : a ≢ (p.slabclass id).slots = ground (arith, (f.lists id).slots, first_in (ls id)) in
    ground (arith, apart)

pub put_item-FreeLists :
    (p : Pool) (ls : ℕ → List ℕ) (x : ℕ) (e : Item)
    → FreeLists p ls
    → ((j : ℕ) → mem x (ls j) ≡ false)
    → FreeLists (put_item x e p) ls
put_item-FreeLists p ls x e f out = record {
  lists = λ j. record {
    slots = (f.lists j).slots;
    count = (f.lists j).count;
    distinct = (f.lists j).distinct;
    real = (f.lists j).real;
    linked = λ a m.
        let apart : a ≢ x = ground (arith, out j) in
        (
          ground (arith, (f.lists j).linked a, apart),
          (
            ground (arith, (f.lists j).linked a, apart),
            (
              ground (arith, (f.lists j).linked a, apart),
              ground (arith, (f.lists j).linked a, apart),
            ),
          ),
        );
  };
  disjoint = f.disjoint;
}
