-- ===== src/Tests/UtilTests.antt =====
-- The percent encoding of src/util.c on the string "a b", and its conversions on numbers.
use mem_exchange.Prelude.{
  ℕ, ◌*◌, ◌+◌, ◌≤◌, ◌≡◌, ◌⊎◌, refl, false, pos, negsuc, none, some, List, [], ◌∷◌, length, arith,
}
use mem_exchange.Util.{
  uriencode, uriencode_from, uriencode_step, uriencode_map, is_kept, hex_digit, prepend,
}
use mem_exchange.Util.Decoding.{Decodes, uriencode-Decodes}
use mem_exchange.Util.Numbers.{
  Parsed, byte_at, xisspace, has_minus, is_whole, is_negative, safe_strtoull, safe_strtoul,
  safe_strtol, low32, signed32,
}

abbrev text : List ℕ
text = 97 ∷ 32 ∷ 98 ∷ []

encoded : uriencode text 9 ≡ some (97 ∷ 37 ∷ 50 ∷ 48 ∷ 98 ∷ 0 ∷ [])
unfolding uriencode uriencode_from uriencode_step uriencode_map is_kept hex_digit prepend
encoded = refl

refused : uriencode text 8 ≡ none
unfolding uriencode uriencode_from uriencode_step uriencode_map is_kept hex_digit prepend
refused = refl

uriencode-Decodes_example :
    ((uriencode text 9 ≡ none) × (9 ≤ 3 * length text + 1))
    ⊎ ((out : List ℕ) × ((uriencode text 9 ≡ some out) × (Decodes out text × (length out ≤ 9))))
uriencode-Decodes_example =
    uriencode-Decodes text 9 (omega arith, (omega arith, (omega arith, _))) (omega arith)

-- Four bytes '%' do not fit into 13, though their code and the byte 0 would.
tight : uriencode (37 ∷ 37 ∷ 37 ∷ 37 ∷ []) 13 ≡ none
unfolding uriencode uriencode_from uriencode_step uriencode_map is_kept hex_digit prepend
tight = refl

-- the text "4294967296", as the conversions of the C library read it
abbrev large : List ℕ
large = 52 ∷ 50 ∷ 57 ∷ 52 ∷ 57 ∷ 54 ∷ 55 ∷ 50 ∷ 57 ∷ 54 ∷ []

abbrev parsed : Parsed ℕ
parsed = record { value = 4294967296; erange = false; end = 10 }

-- It is accepted as a number of 32 bits, as zero.
wrapped : safe_strtoul large parsed ≡ some 0
unfolding safe_strtoul is_whole is_negative byte_at xisspace has_minus
wrapped = refl

kept_whole : safe_strtoull large parsed ≡ some 4294967296
unfolding safe_strtoull is_whole is_negative byte_at xisspace has_minus
kept_whole = refl

-- "3000000000" is accepted as a negative number.
turned :
    safe_strtol
      (51 ∷ 48 ∷ 48 ∷ 48 ∷ 48 ∷ 48 ∷ 48 ∷ 48 ∷ 48 ∷ 48 ∷ [])
      (record { value = pos 3000000000; erange = false; end = 10 })
    ≡ some (negsuc 1294967295)
unfolding safe_strtol low32 signed32 is_whole byte_at xisspace
turned = refl
