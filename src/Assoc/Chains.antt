-- ===== src/Assoc/Chains.antt =====
-- Chains of src/assoc.c as multisets of keys: what a walk finds, before and after a chain is changed.
use mem_exchange.Prelude.{
  ℕ, ◌+◌, ◌≤◌, ◌≡◌, refl, Bool, true, false, none, some, List, [], ◌∷◌, ◌==◌, arith, if◌then◌else◌,
  inl, inr, Option-cases, Bool-cases,
}
use mem_exchange.Assoc.Key.{same_key, same_key_iff}
use mem_exchange.Assoc.Table.{Keyed, Buckets, masked, update, find_in, unlink, move_chain}

abbrev pub to_ℕ : Bool → ℕ
to_ℕ true = 1
to_ℕ false = 0

module _ {I : Type 0} ⦃k : Keyed I⦄ where
  -- how many items of a chain have the key
  unfoldable pub count : List ℕ → List I → ℕ
  count key [] = 0
  count key (it ∷ c) = to_ℕ (same_key key (k.key it)) + count key c

  pub find-eq-none : (key : List ℕ) (c : List I) → count key c ≡ 0 → find_in key c ≡ none
  unfolding find_in count
  find-eq-none key [] h = refl
  find-eq-none key (it ∷ c) h = ground (arith, find-eq-none key c)

  pub count-eq-zero : (key : List ℕ) (c : List I) → find_in key c ≡ none → count key c ≡ 0
  unfolding find_in count
  count-eq-zero key [] h = refl
  count-eq-zero key (it ∷ c) h = ground (arith, count-eq-zero key c)

  -- A found item has the key.
  pub key-find : (key : List ℕ) (c : List I) (it : I) → find_in key c ≡ some it → k.key it ≡ key
  unfolding find_in
  key-find key [] it h = cc
  key-find key (i ∷ c) it h = ground (arith, key-find key c it, same_key_iff key (k.key i))

  -- What `unlink` leaves: the first item with the key is gone, all other keys are as they were.
  pub find-unlink :
      (key j : List ℕ) (c c' : List I)
      → count j c ≤ 1
      → unlink key c ≡ some c'
      → find_in j c' ≡ (if same_key key j then none else find_in j c)
  unfolding find_in count unlink
  find-unlink key j [] c' h e = cc
  find-unlink key j (it ∷ c) c' h e = elim (Option-cases (unlink key c)) [
    | inl e' ↦ ground (
      arith,
      same_key_iff key j,
      same_key_iff key (k.key it),
      same_key_iff j (k.key it),
      find-eq-none j c,
    )
    | inr (c₁, e') ↦ ground (
      arith,
      same_key_iff key j,
      same_key_iff key (k.key it),
      same_key_iff j (k.key it),
      find-eq-none j c,
      find-unlink key j c c₁,
    )
  ]

  pub count-unlink :
      (key j : List ℕ) (c c' : List I) → unlink key c ≡ some c' → count j c' ≤ count j c
  unfolding count unlink
  count-unlink key j [] c' e = cc
  count-unlink key j (it ∷ c) c' e = elim (Option-cases (unlink key c)) [
    | inl e' ↦ ground arith
    | inr (c₁, e') ↦ ground (arith, count-unlink key j c c₁)
  ]

  pub unlink-some :
      (key : List ℕ) (c : List I) (it : I)
      → find_in key c ≡ some it
      → (c' : List I) × (unlink key c ≡ some c')
  unfolding find_in unlink
  unlink-some key [] it h = cc
  unlink-some key (i ∷ c) it h = elim (Bool-cases (same_key key (k.key i))) [
    | inl e ↦ (c, ground arith)
    | inr e ↦ let (c', run) = unlink-some key c it (ground arith) in (i ∷ c', ground arith)
  ]

  module _ (hash : List ℕ → ℕ) (power : ℕ) where
    -- A bucket gets the items of the moved chain that belong to it.
    pub count-move :
        (j : List ℕ) (c : List I) (bs : Buckets I) (i : ℕ)
        → count j (move_chain hash power c bs i)
          ≡ count j (bs i) + (if i == masked (hash j) power then count j c else 0)
    unfolding count move_chain
    count-move j [] bs i = ground arith
    count-move j (it ∷ c) bs i =
        let b = masked (hash (k.key it)) power in
        ground (arith, count-move j c (update bs b (it ∷ bs b)) i, same_key_iff j (k.key it))

    pub find-move :
        (j : List ℕ) (c : List I) (bs : Buckets I)
        → count j c ≤ 1
        → find_in j (move_chain hash power c bs (masked (hash j) power)) ≡ (elim (find_in j c) [
          | some it ↦ some it
          | none ↦ find_in j (bs (masked (hash j) power))
        ])
    unfolding find_in count move_chain
    find-move j [] bs h = refl
    find-move j (it ∷ c) bs h =
        let b = masked (hash (k.key it)) power in
        ground (
          arith,
          find-move j c (update bs b (it ∷ bs b)),
          find-eq-none j c,
          same_key_iff j (k.key it),
        )
