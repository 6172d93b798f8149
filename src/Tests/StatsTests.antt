-- ===== src/Tests/StatsTests.antt =====
-- The statistics by key prefix of src/stats.c at the key "a:1".
use mem_exchange.Prelude.{ℕ, ◌+◌, ◌%◌, word, ◌≡◌, refl, true, false, List, [], ◌∷◌, pos}
use mem_exchange.Stats.{
  Stats, key_prefix, matches, locate, set_chain, insert_prefix, find_prefix, modify_at, count_at,
  stats_prefix_record, stats_prefix_record_get,
}
use mem_exchange.Stats.Counting.{structure, structure-stats_prefix_record_get}

abbrev empty : Stats
empty = record { prefix_stats = λ b. []; num_prefixes = pos 0; total_prefix_size = pos 0 }

-- "a:1" and "ab:1"
abbrev short : List ℕ
short = 97 ∷ 58 ∷ 49 ∷ []

abbrev long : List ℕ
long = 97 ∷ 98 ∷ 58 ∷ 49 ∷ []

-- the table after a get of "ab:1", where every prefix has the hash 7
abbrev counted : Stats
counted = stats_prefix_record_get (λ k. 7) 58 true long false empty

abbrev counted_twice : Stats
counted_twice = stats_prefix_record_get (λ k. 7) 58 true short true counted

structure-stats_prefix_record_get_example :
    let old = structure (97 ∷ []) (counted.prefix_stats 7) in
    let new = structure (97 ∷ []) (counted_twice.prefix_stats 7) in
    (new.num_gets ≡ (old.num_gets + 1) % word)
    × (true ≡ true → new.num_hits ≡ (old.num_hits + 1) % word)
    × (true ≡ false → new.num_hits ≡ old.num_hits)
    × (new.num_sets ≡ old.num_sets)
    × (new.num_deletes ≡ old.num_deletes)
    × (new.prefix ≡ old.prefix)
unfolding key_prefix
structure-stats_prefix_record_get_example =
    structure-stats_prefix_record_get (λ k. 7) 58 short (97 ∷ []) true counted refl

-- A get of "a:1" is then counted for the prefix "ab".
confused :
    (stats_prefix_record_get (λ k. 7) 58 true short true counted).prefix_stats 7
    ≡ record { prefix = 97 ∷ 98 ∷ []; num_gets = 2; num_sets = 0; num_deletes = 0; num_hits = 1 }
      ∷ []
unfolding key_prefix matches locate set_chain insert_prefix find_prefix modify_at count_at
    stats_prefix_record stats_prefix_record_get
confused = refl
