-- ===== src/Slabs/Pages/Arrays.antt =====
-- The arrays of pages in src/slabs.c, which the work on the free lists does not touch.
use mem_exchange.Prelude.{
  ℕ, zero, suc, ◌≡◌, refl, ◌∙◌, Bool, true, false, ◌==◌, arith, if◌then◌else◌,
}
use mem_exchange.Slabs.State.{Item, Pool, put_item, is_class}
use mem_exchange.Slabs.FreeList.{push_free, unrequest}
use mem_exchange.Slabs.Free.{do_slabs_free, do_slabs_free_chunked, free_chunks}
use mem_exchange.Slabs.Pages.{Settings, split_slab_page_into_freelist}

pub record SamePages (p q : Pool) : Type 0 where
  pub power : q.power_largest ≡ p.power_largest
  pub size : (j : ℕ) → (q.slabclass j).size ≡ (p.slabclass j).size
  pub perslab : (j : ℕ) → (q.slabclass j).perslab ≡ (p.slabclass j).perslab
  pub slabs : (j : ℕ) → (q.slabclass j).slabs ≡ (p.slabclass j).slabs
  pub slab_list : (j : ℕ) → (q.slabclass j).slab_list ≡ (p.slabclass j).slab_list
  pub list_size : (j : ℕ) → (q.slabclass j).list_size ≡ (p.slabclass j).list_size

same_trans : (p q r : Pool) → SamePages p q → SamePages q r → SamePages p r
same_trans p q r a b = record {
  power = b.power ∙ a.power;
  size = λ j. b.size j ∙ a.size j;
  perslab = λ j. b.perslab j ∙ a.perslab j;
  slabs = λ j. b.slabs j ∙ a.slabs j;
  slab_list = λ j. b.slab_list j ∙ a.slab_list j;
  list_size = λ j. b.list_size j ∙ a.list_size j;
}

push_free-SamePages : (x id : ℕ) (p : Pool) → SamePages p (push_free x id p)
unfolding push_free
push_free-SamePages x id p = record {
  power = ground arith;
  size = λ j. ground arith;
  perslab = λ j. ground arith;
  slabs = λ j. ground arith;
  slab_list = λ j. ground arith;
  list_size = λ j. ground arith;
}

unrequest-SamePages : (id n : ℕ) (p : Pool) → SamePages p (unrequest id n p)
unfolding unrequest
unrequest-SamePages id n p = record {
  power = refl;
  size = λ j. ground arith;
  perslab = λ j. ground arith;
  slabs = λ j. ground arith;
  slab_list = λ j. ground arith;
  list_size = λ j. ground arith;
}

put_item-SamePages : (x : ℕ) (e : Item) (p : Pool) → SamePages p (put_item x e p)
put_item-SamePages x e p = record {
  power = refl;
  size = λ j. refl;
  perslab = λ j. refl;
  slabs = λ j. refl;
  slab_list = λ j. refl;
  list_size = λ j. refl;
}

same_refl : (p : Pool) → SamePages p p
same_refl p = record {
  power = refl;
  size = λ j. refl;
  perslab = λ j. refl;
  slabs = λ j. refl;
  slab_list = λ j. refl;
  list_size = λ j. refl;
}

if-SamePages :
    (b : Bool) (p q r : Pool) → SamePages p q → SamePages p r → SamePages p (if b then q else r)
if-SamePages true p q r x y = x
if-SamePages false p q r x y = y

free_chunks-SamePages : (n chunk : ℕ) (p : Pool) → SamePages p (free_chunks n chunk p)
unfolding free_chunks
free_chunks-SamePages zero chunk p = same_refl p
free_chunks-SamePages (suc n) chunk p = if-SamePages (chunk == 0) p _ _ (same_refl p) (
    same_trans p _ _ (push_free-SamePages chunk _ p)
      (same_trans _ _ _ (unrequest-SamePages _ _ _) (free_chunks-SamePages n _ _)))

do_slabs_free_chunked-SamePages :
    (use_cas : Bool) (n it : ℕ) (p : Pool) → SamePages p (do_slabs_free_chunked use_cas n it p)
unfolding do_slabs_free_chunked
do_slabs_free_chunked-SamePages use_cas n it p =
    same_trans p _ _ (if-SamePages _ p _ _ (same_refl p) (put_item-SamePages _ _ p)) (
      same_trans _ _ _ (push_free-SamePages it _ _) (
        same_trans _ _ _ (unrequest-SamePages _ _ _) (
          same_trans _ _ _ (if-SamePages use_cas _ _ _ (unrequest-SamePages _ 8 _) (same_refl _))
            (free_chunks-SamePages n _ _))))

-- Freeing an item, chunked or not, leaves the pages alone.
pub do_slabs_free-SamePages :
    (use_cas : Bool) (n it size id : ℕ) (p : Pool)
    → SamePages p (do_slabs_free use_cas n it size id p)
unfolding do_slabs_free
do_slabs_free-SamePages use_cas n it size id p =
    if-SamePages (is_class id p) p _ _
      (if-SamePages (p.items it).it_flags.chunked p _ _
        (do_slabs_free_chunked-SamePages use_cas n it p)
        (same_trans p _ _ (push_free-SamePages it id p) (unrequest-SamePages id size _)))
      (same_refl p)

pub split-SamePages :
    (o : Settings) (n ptr id : ℕ) (p : Pool)
    → SamePages p (split_slab_page_into_freelist o n ptr id p)
unfolding split_slab_page_into_freelist
split-SamePages o zero ptr id p = same_refl p
split-SamePages o (suc n) ptr id p =
    same_trans p _ _ (do_slabs_free-SamePages o.use_cas 0 ptr 0 id p)
      (same_trans _ _ _ (put_item-SamePages ptr _ _) (split-SamePages o n _ id _))
