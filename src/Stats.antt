-- ===== src/Stats.antt =====
-- The statistics by key prefix of src/stats.c. A string is the list of its bytes, without the byte 0 at
-- its end; the lines run under the statistics' lock.
pub mod Counting
use mem_exchange.Prelude.{
  ℕ, zero, suc, ◌+◌, ◌%◌, Bool, true, false, ◌&&◌, ◌==◌, if◌then◌else◌, Option, none, some, List,
  [], ◌∷◌, length, ℤ, pos, int_suc, ◌+ℤ◌, add64,
}

-- `PREFIX_STATS`, without `prefix_len`, the length of `prefix`; `next` is the order of the chain
pub record PrefixStats : Type 0 where
  pub prefix : List ℕ
  pub num_gets : ℕ
  pub num_sets : ℕ
  pub num_deletes : ℕ
  pub num_hits : ℕ

pub record Stats : Type 0 where
  pub prefix_stats : ℕ → List PrefixStats
  pub num_prefixes : ℤ
  pub total_prefix_size : ℤ

abbrev pub prefix_hash_size : ℕ
prefix_hash_size = 256

-- The part of a key before the first delimiter; `none` where the code bails out.
unfoldable pub key_prefix : ℕ → List ℕ → Option (List ℕ)
key_prefix delimiter [] = none
key_prefix delimiter (c ∷ key) =
    let rest = key_prefix delimiter key in
    if c == 0
    then none
    else (if c == delimiter then some [] else elim rest [ none ↦ none | some p ↦ some (c ∷ p) ])

-- `strncmp(prefix, part, length) == 0`, where `length` is that of `part`
unfoldable pub matches : List ℕ → List ℕ → Bool
matches prefix [] = true
matches [] (b ∷ part) = b == 0
matches (a ∷ prefix) (b ∷ part) = (a == b) && matches prefix part

-- the place of the first structure of a chain that matches
unfoldable pub locate : List ℕ → List PrefixStats → Option ℕ
locate part [] = none
locate part (pfs ∷ chain) =
    let rest = locate part chain in
    if matches pfs.prefix part then some 0 else elim rest [ none ↦ none | some i ↦ some (suc i) ]

abbrev pub new_prefix : List ℕ → PrefixStats
new_prefix part = record {
  prefix = part;
  num_gets = 0;
  num_sets = 0;
  num_deletes = 0;
  num_hits = 0;
}

unfoldable pub set_chain : ℕ → List PrefixStats → Stats → Stats
set_chain b chain s = record s { prefix_stats = λ i. if i == b then chain else s.prefix_stats i }

-- a new structure at the head of its chain
unfoldable pub insert_prefix : ℕ → List ℕ → Stats → Stats
insert_prefix b part s = record (set_chain b (new_prefix part ∷ s.prefix_stats b) s) {
  num_prefixes = int_suc s.num_prefixes;
  total_prefix_size = s.total_prefix_size +ℤ pos (length part);
}

-- `stats_prefix_find` from the hash on: where the structure is, by the place in its chain, and the new
-- state. `ok` is whether both allocations succeed.
unfoldable pub find_prefix : Bool → ℕ → List ℕ → Stats → Option ℕ × Stats
find_prefix ok b part s = elim (locate part (s.prefix_stats b)) [
  | some i ↦ (some i, s)
  | none ↦ if ok then (some 0, insert_prefix b part s) else (none, s)
]

unfoldable pub modify_at : ℕ → (PrefixStats → PrefixStats) → List PrefixStats → List PrefixStats
modify_at i f [] = []
modify_at zero f (pfs ∷ chain) = f pfs ∷ chain
modify_at (suc i) f (pfs ∷ chain) = pfs ∷ modify_at i f chain

-- what the three functions do with the structure that was found
unfoldable pub count_at : ℕ → (PrefixStats → PrefixStats) → Option ℕ × Stats → Stats
count_at b f (none, s) = s
count_at b f (some i, s) = set_chain b (modify_at i f (s.prefix_stats b)) s

-- `hash` is that of the item table.
unfoldable pub stats_prefix_record :
    (List ℕ → ℕ) → ℕ → Bool → (PrefixStats → PrefixStats) → List ℕ → Stats → Stats
stats_prefix_record hash delimiter ok f key s = elim (key_prefix delimiter key) [
  | none ↦ s
  | some part ↦ let b = hash part % prefix_hash_size in count_at b f (find_prefix ok b part s)
]

abbrev pub count_get : Bool → PrefixStats → PrefixStats
count_get is_hit pfs = record pfs {
  num_gets = add64 pfs.num_gets 1;
  num_hits = if is_hit then add64 pfs.num_hits 1 else pfs.num_hits;
}

unfoldable pub stats_prefix_record_get : (List ℕ → ℕ) → ℕ → Bool → List ℕ → Bool → Stats → Stats
stats_prefix_record_get hash delimiter ok key is_hit =
    stats_prefix_record hash delimiter ok (count_get is_hit) key

unfoldable pub stats_prefix_record_delete : (List ℕ → ℕ) → ℕ → Bool → List ℕ → Stats → Stats
stats_prefix_record_delete hash delimiter ok =
    stats_prefix_record hash delimiter ok
      (λ pfs. record pfs { num_deletes = add64 pfs.num_deletes 1 })

unfoldable pub stats_prefix_record_set : (List ℕ → ℕ) → ℕ → Bool → List ℕ → Stats → Stats
stats_prefix_record_set hash delimiter ok =
    stats_prefix_record hash delimiter ok (λ pfs. record pfs { num_sets = add64 pfs.num_sets 1 })

unfoldable pub stats_prefix_clear : Stats → Stats
stats_prefix_clear s = record {
  prefix_stats = λ i. [];
  num_prefixes = pos 0;
  total_prefix_size = pos 0;
}
