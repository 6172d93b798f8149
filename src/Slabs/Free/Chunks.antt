-- ===== src/Slabs/Free/Chunks.antt =====
-- The loop of do_slabs_free_chunked over the chunks of an item.
use mem_exchange.Prelude.{
  ℕ, zero, suc, ◌+◌, ◌≤◌, ◌≡◌, ◌≢◌, refl, sym, ap, subst, true, false, List, [], ◌∷◌, arith, length,
}
use mem_exchange.Slabs.State.{Pool, at}
use mem_exchange.Slabs.FreeList.{push_free, unrequest}
use mem_exchange.Slabs.FreeList.Lists.{
  FreeLists, push_free-FreeLists, unrequest-FreeLists, push_free-elsewhere,
}
use mem_exchange.Slabs.Free.{free_chunks, IsChain, freed, sizeof_item_chunk}
use mem_exchange.Shadow.Order.{mem, unique, first, next_of}

pub freed_cong :
    (f g : ℕ → ℕ) (xs : List ℕ) (ls : ℕ → List ℕ)
    → ((a : ℕ) → mem a xs ≡ true → f a ≡ g a)
    → freed f xs ls ≡ freed g xs ls
unfolding mem
freed_cong f g [] ls h = refl
freed_cong f g (x ∷ xs) ls h =
    rw (h x (ground arith)) (freed_cong f g xs _ (λ a m. h a (ground arith)))

-- none of the chunks `xs` is free yet
abbrev pub Used : List ℕ → (ℕ → List ℕ) → Type 0
Used xs ls = (a j : ℕ) → mem a xs ≡ true → mem a (ls j) ≡ false

-- One round of the loop.
round-FreeLists :
    (p : Pool) (ls : ℕ → List ℕ) (id x n : ℕ)
    → FreeLists p ls
    → x ≢ 0
    → ((j : ℕ) → mem x (ls j) ≡ false)
    → FreeLists (unrequest id n (push_free x id p)) (at ls id (x ∷ ls id))
round-FreeLists p ls id x n f real new =
    unrequest-FreeLists _ _ id n (push_free-FreeLists p ls id x f real new)

round-elsewhere :
    (p : Pool) (ls : ℕ → List ℕ) (id x n a : ℕ)
    → FreeLists p ls
    → mem a (ls id) ≡ false
    → a ≢ 0
    → a ≢ x
    → (unrequest id n (push_free x id p)).items a ≡ p.items a
unfolding unrequest
round-elsewhere p ls id x n a f out real d = push_free-elsewhere p ls id x a f out real d

free_chunks-end : (n : ℕ) (p : Pool) → free_chunks n 0 p ≡ p
unfolding free_chunks
free_chunks-end zero p = refl
free_chunks-end (suc n) p = ground arith

free_chunks-step :
    (n chunk : ℕ) (p : Pool)
    → chunk ≢ 0
    → free_chunks (suc n) chunk p
      ≡ free_chunks n (p.items chunk).next (
          unrequest
            (p.items chunk).slabs_clsid
            ((p.items chunk).time + sizeof_item_chunk)
            (push_free chunk (p.items chunk).slabs_clsid p))
unfolding free_chunks
free_chunks-step n chunk p real = ground arith

IsChain-rest :
    (p q : Pool) (x : ℕ) (xs : List ℕ)
    → IsChain p x (x ∷ xs)
    → ((a : ℕ) → mem a xs ≡ true → q.items a ≡ p.items a)
    → IsChain q (p.items x).next xs
unfolding mem unique next_of first
IsChain-rest p q x xs c same = record {
  start = ground (arith, c.linked x);
  distinct = ground (arith, c.distinct);
  real = ground (arith, c.real);
  linked = λ a m. ground (arith, c.linked a, same a m, c.distinct);
}

-- Rounds for every chunk are enough: each chunk of the chain goes to the free list of its own class.
pub free_chunks-FreeLists :
    (n chunk : ℕ) (xs : List ℕ) (p : Pool) (ls : ℕ → List ℕ)
    → FreeLists p ls
    → IsChain p chunk xs
    → Used xs ls
    → length xs ≤ n
    → FreeLists (free_chunks n chunk p) (freed (λ a. (p.items a).slabs_clsid) xs ls)
unfolding mem first unique
free_chunks-FreeLists n chunk [] p ls f c used h =
    subst (λ k. FreeLists (free_chunks n k p) ls) (sym (start_zero c))
      (subst (λ q. FreeLists q ls) (sym (free_chunks-end n p)) f)
  where
    start_zero : IsChain p chunk [] → chunk ≡ 0
    start_zero c = c.start
free_chunks-FreeLists zero chunk (x ∷ xs) p ls f c used h = absurd (omega arith)
free_chunks-FreeLists (suc n) chunk (x ∷ xs) p ls f c used h =
    subst (λ k. FreeLists (free_chunks (suc n) k p) (freed cls (x ∷ xs) ls)) (sym start)
      (subst (λ q. FreeLists q (freed cls (x ∷ xs) ls)) (sym (free_chunks-step n x p real))
        (subst (λ l. FreeLists (free_chunks n (p.items x).next q) l) same_lists
          (free_chunks-FreeLists n _ xs q _ f' (IsChain-rest p q x xs c' same) used'
            (omega arith))))
  where
    cls : ℕ → ℕ
    cls a = (p.items a).slabs_clsid

    id : ℕ
    id = (p.items x).slabs_clsid

    q : Pool
    q = unrequest id ((p.items x).time + sizeof_item_chunk) (push_free x id p)

    start : chunk ≡ x
    start = c.start

    c' : IsChain p x (x ∷ xs)
    c' = subst (λ k. IsChain p k (x ∷ xs)) start c

    real : x ≢ 0
    real = ground (arith, c.real)

    inside : (a : ℕ) → mem a xs ≡ true → a ≢ x
    inside a m = ground (arith, c.distinct)

    same : (a : ℕ) → mem a xs ≡ true → q.items a ≡ p.items a
    same a m =
        round-elsewhere p ls id x _ a f (used a id (ground arith)) (ground (arith, c.real))
          (inside a m)

    f' : FreeLists q (at ls id (x ∷ ls id))
    f' = round-FreeLists p ls id x _ f real (λ j. used x j (ground arith))

    used' : Used xs (at ls id (x ∷ ls id))
    used' a j m = ground (arith, used a j, used a id, inside a m)

    same_lists :
        freed (λ a. (q.items a).slabs_clsid) xs (at ls id (x ∷ ls id))
        ≡ freed cls xs (at ls id (x ∷ ls id))
    same_lists = freed_cong _ _ xs _ (λ a m. ap (λ e. e.slabs_clsid) (same a m))
