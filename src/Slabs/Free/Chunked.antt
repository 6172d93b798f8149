-- ===== src/Slabs/Free/Chunked.antt =====
-- What the free lists hold after do_slabs_free of a plain item and of a chunked one.
use mem_exchange.Prelude.{
  ℕ, ◌+◌, ◌≤◌, ◌≡◌, ◌≢◌, refl, sym, ap, ◌∙◌, subst, Bool, true, false, List, ◌∷◌, ◌==◌, arith,
  if◌then◌else◌, length, Bool-cases, inl, inr,
}
use mem_exchange.Slabs.State.{Pool, put_item, is_class, at}
use mem_exchange.Slabs.FreeList.{push_free, unrequest}
use mem_exchange.Slabs.FreeList.Lists.{
  FreeLists, push_free-FreeLists, unrequest-FreeLists, push_free-elsewhere, put_item-FreeLists,
  first_in,
}
use mem_exchange.Slabs.Free.{
  item_data, free_chunks, do_slabs_free_chunked, do_slabs_free, IsChain, freed, sizeof_item,
  sizeof_item_chunk,
}
use mem_exchange.Shadow.Order.{mem, first}
use mem_exchange.Slabs.Free.Chunks.{freed_cong, Used, free_chunks-FreeLists}

-- the requested bytes that the header of a chunked item gives back
unrequest_header : Bool → ℕ → ℕ → Pool → Pool
unrequest_header use_cas id n p =
    if use_cas then unrequest id 8 (unrequest id n p) else unrequest id n p

unrequest_header-items :
    (use_cas : Bool) (id n : ℕ) (p : Pool) → (unrequest_header use_cas id n p).items ≡ p.items
unfolding unrequest_header unrequest
unrequest_header-items true id n p = refl
unrequest_header-items false id n p = refl

unrequest_header-FreeLists :
    (use_cas : Bool) (id n : ℕ) (p : Pool) (ls : ℕ → List ℕ)
    → FreeLists p ls
    → FreeLists (unrequest_header use_cas id n p) ls
unfolding unrequest_header
unrequest_header-FreeLists true id n p ls f =
    unrequest-FreeLists _ ls id 8 (unrequest-FreeLists p ls id n f)
unrequest_header-FreeLists false id n p ls f = unrequest-FreeLists p ls id n f

-- A plain item goes to the list of its class.
pub do_slabs_free-plain :
    (use_cas : Bool) (n it size id : ℕ) (p : Pool) (ls : ℕ → List ℕ)
    → is_class id p ≡ true
    → (p.items it).it_flags.chunked ≡ false
    → it ≢ 0
    → ((j : ℕ) → mem it (ls j) ≡ false)
    → FreeLists p ls
    → FreeLists (do_slabs_free use_cas n it size id p) (at ls id (it ∷ ls id))
unfolding do_slabs_free
do_slabs_free-plain use_cas n it size id p ls ok plain real new f =
    rw (ok, plain) (unrequest-FreeLists _ _ id size (push_free-FreeLists p ls id it f real new))

-- the state after the second chunk lost its pointer to the header's own chunk
detach : ℕ → Pool → Pool
detach next p = if next == 0 then p else put_item next (record (p.items next) { prev = 0 }) p

detach-FreeLists :
    (next : ℕ) (p : Pool) (ls : ℕ → List ℕ)
    → (next ≢ 0 → (j : ℕ) → mem next (ls j) ≡ false)
    → FreeLists p ls
    → FreeLists (detach next p) ls
unfolding detach
detach-FreeLists next p ls out f = elim (Bool-cases (next == 0)) [
  | inl e ↦ simp e f
  | inr e ↦ simp e (put_item-FreeLists p ls next _ f (out (ground arith)))
]

detach-items :
    (next a : ℕ) (p : Pool)
    → (((detach next p).items a).next ≡ (p.items a).next)
      × (((detach next p).items a).slabs_clsid ≡ (p.items a).slabs_clsid)
unfolding detach
detach-items next a p = (ground arith, ground arith)

chunked_steps :
    (use_cas : Bool) (n it size id : ℕ) (p : Pool)
    → is_class id p ≡ true
    → (p.items it).it_flags.chunked ≡ true
    → do_slabs_free use_cas n it size id p
      ≡ free_chunks n (p.items (item_data it (p.items it))).next (
          unrequest_header use_cas
            (p.items (item_data it (p.items it))).nsuffix
            ((p.items it).nkey + 1 + (p.items it).nsuffix + sizeof_item + sizeof_item_chunk)
            (push_free it
              (p.items (item_data it (p.items it))).nsuffix
              (detach (p.items (item_data it (p.items it))).next p)))
unfolding do_slabs_free do_slabs_free_chunked unrequest_header detach
chunked_steps use_cas n it size id p ok chunked = rw (ok, chunked) refl

-- The header goes to the list of the class that its own chunk names, and the further chunks `xs` each
-- to the list of its class.
pub do_slabs_free-chunked :
    (use_cas : Bool) (n it size id : ℕ) (p : Pool) (ls : ℕ → List ℕ) (xs : List ℕ)
    → is_class id p ≡ true
    → (p.items it).it_flags.chunked ≡ true
    → FreeLists p ls
    → IsChain p (p.items (item_data it (p.items it))).next xs
    → Used (it ∷ xs) ls
    → it ≢ 0
    → mem it xs ≡ false
    → length xs ≤ n
    → FreeLists (do_slabs_free use_cas n it size id p) (
        freed
          (λ a. (p.items a).slabs_clsid)
          xs
          (at ls
            (p.items (item_data it (p.items it))).nsuffix
            (it ∷ ls (p.items (item_data it (p.items it))).nsuffix)))
unfolding mem first
do_slabs_free-chunked use_cas n it size id p ls xs ok chunked f c used real apart h =
    subst (λ q. FreeLists q (freed cls xs ls'))
      (sym (chunked_steps use_cas n it size id p ok chunked))
      (subst (λ l. FreeLists (free_chunks n next r) l) same_lists
        (free_chunks-FreeLists n next xs r ls' f'' chain used' h))
  where
    next : ℕ
    next = (p.items (item_data it (p.items it))).next

    orig : ℕ
    orig = (p.items (item_data it (p.items it))).nsuffix

    cls : ℕ → ℕ
    cls a = (p.items a).slabs_clsid

    ls' : ℕ → List ℕ
    ls' = at ls orig (it ∷ ls orig)

    d : Pool
    d = detach next p

    pushed : Pool
    pushed = push_free it orig d

    gone : ℕ
    gone = (p.items it).nkey + 1 + (p.items it).nsuffix + sizeof_item + sizeof_item_chunk

    r : Pool
    r = unrequest_header use_cas orig gone pushed

    next_in : next ≢ 0 → mem next xs ≡ true
    next_in z = elim (first_in xs) [ inl e ↦ absurd (z (c.start ∙ e)) | inr e ↦ rw c.start e ]

    fd : FreeLists d ls
    fd = detach-FreeLists next p ls (λ z j. used next j (ground (arith, next_in z))) f

    f'' : FreeLists r ls'
    f'' =
        unrequest_header-FreeLists use_cas orig gone pushed ls'
          (push_free-FreeLists d ls orig it fd real (λ j. used it j (ground arith)))

    same : (a : ℕ) → mem a xs ≡ true → r.items a ≡ d.items a
    same a m =
        ap (λ h. h a) (unrequest_header-items use_cas orig gone pushed)
        ∙ push_free-elsewhere d ls orig it a fd (used a orig (ground arith))
            (ground (arith, c.real)) (ground arith)

    chain : IsChain r next xs
    chain = record {
      start = c.start;
      distinct = c.distinct;
      real = c.real;
      linked = λ a m. ap (λ e. e.next) (same a m) ∙ (detach-items next a p).0 ∙ c.linked a m;
    }

    used' : Used xs ls'
    used' a j m = ground (arith, used a j, used a orig)

    same_lists : freed (λ a. (r.items a).slabs_clsid) xs ls' ≡ freed cls xs ls'
    same_lists =
        freed_cong _ _ xs _ (λ a m. ap (λ e. e.slabs_clsid) (same a m) ∙ (detach-items next a p).1)
