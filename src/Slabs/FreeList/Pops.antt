-- ===== src/Slabs/FreeList/Pops.antt =====
-- The free lists of all classes when do_slabs_alloc takes the first chunk of one.
use mem_exchange.Prelude.{
  ℕ, ◌≡◌, ◌≢◌, ap, ◌∙◌, subst, true, false, List, ◌∷◌, ◌==◌, arith, Bool-cases, inl, inr,
}
use mem_exchange.Slabs.State.{Pool, at}
use mem_exchange.Slabs.FreeList.{pop_free, IsFree}
use mem_exchange.Slabs.FreeList.Takes.{pop_free-IsFree}
use mem_exchange.Slabs.FreeList.Lists.{FreeLists, first_in}
use mem_exchange.Shadow.Order.{mem, first, next_of}

-- The first chunk of a list and the one after it are in no other list.
pop_apart :
    (p : Pool) (ls : ℕ → List ℕ) (id j x a : ℕ) (xs : List ℕ)
    → FreeLists p ls
    → ls id ≡ x ∷ xs
    → j ≢ id
    → mem a (ls j) ≡ true
    → (a ≢ (p.slabclass id).slots) × ((a ≢ (p.items x).next) × ((p.slabclass id).slots ≡ x))
unfolding mem first next_of
pop_apart p ls id j x a xs f is d m =
    let in_list : IsFree p id (x ∷ xs) = subst (λ l. IsFree p id l) is (f.lists id) in
    let there : (b : ℕ) → mem b (x ∷ xs) ≡ true → mem b (ls j) ≡ true → j ≡ id =
      λ b k l. f.disjoint b j id l (ap (mem b) is ∙ k) in
    (
      ground (arith, in_list.slots, there a),
      (ground (arith, in_list.linked x, first_in xs, there a, (f.lists j).real), in_list.slots),
    )

pop_free-other :
    (p : Pool) (ls : ℕ → List ℕ) (id j x : ℕ) (xs : List ℕ)
    → FreeLists p ls
    → ls id ≡ x ∷ xs
    → j ≢ id
    → IsFree (pop_free id p) j (ls j)
unfolding pop_free
pop_free-other p ls id j x xs f is d = record {
  slots = ground (arith, (f.lists j).slots);
  count = ground (arith, (f.lists j).count);
  distinct = (f.lists j).distinct;
  real = (f.lists j).real;
  linked = λ a m.
      let (b, (c, e)) = pop_apart p ls id j x a xs f is d m in
      let l = (f.lists j).linked a m in
      let same : (pop_free id p).items a ≡ p.items a = ground arith in rw same l;
}

-- The list of the class loses its first chunk, and no other list changes.
pub pop_free-FreeLists :
    (p : Pool) (ls : ℕ → List ℕ) (id x : ℕ) (xs : List ℕ)
    → FreeLists p ls
    → ls id ≡ x ∷ xs
    → FreeLists (pop_free id p) (at ls id xs)
unfolding mem
pop_free-FreeLists p ls id x xs f is = record {
  lists = λ j. elim (Bool-cases (j == id)) [
    | inl e ↦
        let same : id ≡ j = ground arith in
        simp e (
          subst (λ k. IsFree (pop_free id p) k xs) same
            (pop_free-IsFree p id x xs (subst (λ l. IsFree p id l) is (f.lists id))))
    | inr e ↦ simp e (pop_free-other p ls id j x xs f is (ground arith))
  ];
  disjoint = λ a i j m n.
      let inside : mem a xs ≡ true → mem a (ls id) ≡ true = λ k. ap (mem a) is ∙ ground arith in
      ground (arith, inside, f.disjoint a i j, f.disjoint a id j, f.disjoint a i id);
}

-- What the caller gets: the first chunk, with one reference and no longer in a slab.
pub pop_free-chunk :
    (p : Pool) (ls : ℕ → List ℕ) (id x : ℕ) (xs : List ℕ)
    → FreeLists p ls
    → ls id ≡ x ∷ xs
    → ((p.slabclass id).slots ≡ x)
      × ((((pop_free id p).items x).refcount ≡ 1)
          × (((pop_free id p).items x).it_flags.slabbed ≡ false))
unfolding pop_free first
pop_free-chunk p ls id x xs f is =
    let l : IsFree p id (x ∷ xs) = subst (λ k. IsFree p id k) is (f.lists id) in
    let slot : (p.slabclass id).slots ≡ x = l.slots in
    (slot, (ground (arith, slot), ground (arith, slot)))
