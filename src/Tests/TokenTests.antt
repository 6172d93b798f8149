-- ===== src/Tests/TokenTests.antt =====
-- A command line with two spaces in a row, in tokens.
use mem_exchange.Prelude.{ℕ, ◌-◌, ◌≡◌, refl, some, List, [], ◌∷◌, map, take, drop, arith}
use mem_exchange.Tokens.{tokenize_command, scan, scan_byte, end_tokens}
use mem_exchange.Tokens.Splitting.{words_from, content, left, Points}
use mem_exchange.Tokens.Marks.{zeroed}
use mem_exchange.Tokens.Words.{tokenize_command-words}

-- "get  a b c"
abbrev get_line : List ℕ
get_line = 103 ∷ 101 ∷ 116 ∷ 32 ∷ 32 ∷ 97 ∷ 32 ∷ 98 ∷ 32 ∷ 99 ∷ []

two_and_a_rest : tokenize_command get_line 3 ≡ (
  (record { value = 0; size = 3 } ∷ record { value = 5; size = 1 } ∷ [], some 7),
  103 ∷ 101 ∷ 116 ∷ 0 ∷ 32 ∷ 97 ∷ 0 ∷ 98 ∷ 32 ∷ 99 ∷ [],
)
unfolding tokenize_command scan scan_byte end_tokens
two_and_a_rest = refl

the_words : words_from [] get_line ≡ (103 ∷ 101 ∷ 116 ∷ []) ∷ (97 ∷ []) ∷ (98 ∷ []) ∷ (99 ∷ []) ∷ []
unfolding words_from
the_words = refl

tokenize_command-words_example :
    let (r, text) = tokenize_command get_line 3 in
    (map (content get_line) r.0 ≡ take (3 - 1) (words_from [] get_line))
    × (words_from [] (left get_line r.1) ≡ drop (3 - 1) (words_from [] get_line))
    × Points get_line r.1
    × (text ≡ zeroed r.0 get_line)
tokenize_command-words_example = tokenize_command-words get_line 3 (omega arith) (
  omega arith,
  (
    omega arith,
    (
      omega arith,
      (
        omega arith,
        (
          omega arith,
          (omega arith, (omega arith, (omega arith, (omega arith, (omega arith, tt))))),
        ),
      ),
    ),
  ),
)
