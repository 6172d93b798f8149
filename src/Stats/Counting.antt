-- ===== src/Stats/Counting.antt =====
-- What the counters of src/stats.c count.
use mem_exchange.Prelude.{
  ℕ, suc, ◌%◌, ◌≡◌, refl, sym, ap, subst, ◌∙◌, Bool-cases, Option-cases, inl, inr, Bool, true,
  false, ◌+◌, word, ◌==◌, if◌then◌else◌, Option, none, some, List, [], ◌∷◌, arith,
}
use mathlib.Core.Option.{some-injective, none-ne-some}
use mem_exchange.Stats.{
  PrefixStats, Stats, prefix_hash_size, key_prefix, matches, locate, new_prefix, set_chain,
  find_prefix, insert_prefix, modify_at, count_at, stats_prefix_record, count_get,
  stats_prefix_record_get,
}

-- the first structure of a chain that matches, or a new one
unfoldable pub structure : List ℕ → List PrefixStats → PrefixStats
structure part [] = new_prefix part
structure part (pfs ∷ chain) = if matches pfs.prefix part then pfs else structure part chain

matches_self : (part : List ℕ) → matches part part ≡ true
unfolding matches
matches_self [] = refl
matches_self (b ∷ part) = ground (arith, matches_self part)

structure-modify_at :
    (part : List ℕ) (f : PrefixStats → PrefixStats) (chain : List PrefixStats) (i : ℕ)
    → ((pfs : PrefixStats) → (f pfs).prefix ≡ pfs.prefix)
    → locate part chain ≡ some i
    → structure part (modify_at i f chain) ≡ f (structure part chain)
unfolding structure modify_at locate
structure-modify_at part f [] i keeps h = absurd (none-ne-some i h)
structure-modify_at part f (pfs ∷ chain) i keeps h = elim (Bool-cases (matches pfs.prefix part)) [
  | inl e ↦
      let kept : matches (f pfs).prefix part ≡ true = rw (keeps pfs) e in
      subst (λ k. structure part (modify_at k f (pfs ∷ chain)) ≡ f (structure part (pfs ∷ chain)))
        (some-injective 0 i (simp (e) at h)) (simp (kept, e) refl)
  | inr e ↦ elim (Option-cases (locate part chain)) [
    | inl stops ↦ absurd (none-ne-some i (simp (e, stops) at h))
    | inr (j, is) ↦
        subst (λ k. structure part (modify_at k f (pfs ∷ chain)) ≡ f (structure part (pfs ∷ chain)))
          (some-injective (suc j) i (simp (e, is) at h))
          (simp (e) (structure-modify_at part f chain j keeps is))
  ]
]

structure_absent :
    (part : List ℕ) (chain : List PrefixStats)
    → locate part chain ≡ none
    → structure part chain ≡ new_prefix part
unfolding structure locate
structure_absent part [] h = refl
structure_absent part (pfs ∷ chain) h = elim (Bool-cases (matches pfs.prefix part)) [
  | inl e ↦ absurd (none-ne-some 0 (sym (simp (e) at h)))
  | inr e ↦ elim (Option-cases (locate part chain)) [
    | inl stops ↦ simp (e) (structure_absent part chain stops)
    | inr (j, is) ↦ absurd (none-ne-some (suc j) (sym (simp (e, is) at h)))
  ]
]

set_chain_same :
    (b : ℕ) (chain : List PrefixStats) (s : Stats) → (set_chain b chain s).prefix_stats b ≡ chain
unfolding set_chain
set_chain_same b chain s = let here : (b == b) ≡ true = ground arith in rw (here) refl

insert_prefix_chain :
    (b : ℕ) (part : List ℕ) (s : Stats)
    → (insert_prefix b part s).prefix_stats b ≡ new_prefix part ∷ s.prefix_stats b
unfolding insert_prefix
insert_prefix_chain b part s = set_chain_same b (new_prefix part ∷ s.prefix_stats b) s

structure_first :
    (part : List ℕ) (pfs : PrefixStats) (chain : List PrefixStats)
    → matches pfs.prefix part ≡ true
    → structure part (pfs ∷ chain) ≡ pfs
unfolding structure
structure_first part pfs chain e = rw (e) refl

-- what one call does to the first structure of its chain that matches
structure-count_at :
    (b : ℕ) (part : List ℕ) (f : PrefixStats → PrefixStats) (s : Stats)
    → ((pfs : PrefixStats) → (f pfs).prefix ≡ pfs.prefix)
    → structure part ((count_at b f (find_prefix true b part s)).prefix_stats b)
      ≡ f (structure part (s.prefix_stats b))
unfolding count_at modify_at find_prefix
structure-count_at b part f s keeps =
    let chain = s.prefix_stats b in
    let Counts : Option ℕ × Stats → Type 0 =
      λ r. structure part ((count_at b f r).prefix_stats b) ≡ f (structure part chain) in
    elim (Option-cases (locate part chain)) [
      | inr (i, is) ↦
          let found : find_prefix true b part s ≡ (some i, s) = rw (is, find_prefix) refl in
          subst Counts (sym found) (
            ap (structure part) (set_chain_same b (modify_at i f chain) s)
            ∙ structure-modify_at part f chain i keeps is)
      | inl new ↦
          let s' = insert_prefix b part s in
          let found : find_prefix true b part s ≡ (some 0, s') = rw (new, find_prefix) refl in
          let kept : matches (f (new_prefix part)).prefix part ≡ true =
            rw (keeps (new_prefix part)) (matches_self part) in
          subst Counts (sym found) (
            ap (structure part) (set_chain_same b (modify_at 0 f (s'.prefix_stats b)) s')
            ∙ (ap (λ c. structure part (modify_at 0 f c)) (insert_prefix_chain b part s)
                ∙ (structure_first part (f (new_prefix part)) chain kept
                    ∙ sym (ap f (structure_absent part chain new)))))
    ]

-- With memory left, stats_prefix_record_get for a key with a delimiter adds one to the gets of a
-- structure, and one to its hits exactly if it was a hit, and leaves the structure's prefix and other
-- counts. The structure is the first in the prefix's chain whose own prefix begins with that of the key,
-- which may be longer; a new one, with all counts 0, if there is none.
pub structure-stats_prefix_record_get :
    (hash : List ℕ → ℕ) (delimiter : ℕ) (key part : List ℕ) (is_hit : Bool) (s : Stats)
    → key_prefix delimiter key ≡ some part
    → let b = hash part % prefix_hash_size in
      let old = structure part (s.prefix_stats b) in
      let new =
        structure part
          ((stats_prefix_record_get hash delimiter true key is_hit s).prefix_stats b) in
      (new.num_gets ≡ (old.num_gets + 1) % word)
      × (is_hit ≡ true → new.num_hits ≡ (old.num_hits + 1) % word)
      × (is_hit ≡ false → new.num_hits ≡ old.num_hits)
      × (new.num_sets ≡ old.num_sets)
      × (new.num_deletes ≡ old.num_deletes)
      × (new.prefix ≡ old.prefix)
unfolding stats_prefix_record_get stats_prefix_record
structure-stats_prefix_record_get hash delimiter key part is_hit s has =
    let b = hash part % prefix_hash_size in
    let same : structure part
          ((stats_prefix_record_get hash delimiter true key is_hit s).prefix_stats b)
        ≡ count_get is_hit (structure part (s.prefix_stats b)) =
      rw (has, stats_prefix_record_get, stats_prefix_record)
        (structure-count_at b part (count_get is_hit) s (λ pfs. refl)) in
    let old = structure part (s.prefix_stats b) in
    (
      ap (λ (p : PrefixStats). p.num_gets) same,
      (λ hit.
          ap (λ (p : PrefixStats). p.num_hits) same
          ∙ ap (λ (h : Bool). if h then (old.num_hits + 1) % word else old.num_hits) hit),
      (λ miss.
          ap (λ (p : PrefixStats). p.num_hits) same
          ∙ ap (λ (h : Bool). if h then (old.num_hits + 1) % word else old.num_hits) miss),
      ap (λ (p : PrefixStats). p.num_sets) same,
      ap (λ (p : PrefixStats). p.num_deletes) same,
      ap (λ (p : PrefixStats). p.prefix) same,
    )
