-- ===== src/Tokens.antt =====
-- The tokens of a command, src/memcached.c. A string is the list of its bytes, without the zero at its
-- end, and a pointer into it is an index.
pub mod Pieces
pub mod Splitting
pub mod Marks
pub mod Words
use mem_exchange.Prelude.{
  ℕ, zero, suc, ◌+◌, ◌-◌, Bool, true, false, Option, none, some, List, [], ◌∷◌, ◌++◌, ◌==◌,
  if◌then◌else◌, length, get_or, set,
}

-- a token_t, but for its null pointer
pub record Token : Type 0 where
  pub value : ℕ
  pub size : ℕ

-- `text` is the command as the loop leaves it: a zero stands behind each token.
pub record Scan : Type 0 where
  pub start : ℕ
  pub cursor : ℕ
  pub tokens : List Token
  pub text : List ℕ

-- `tokens[ntokens]` gets the bytes from `s` to `e`
abbrev pub add_token : Scan → List Token
add_token z = z.tokens ++ (record { value = z.start; size = z.cursor - z.start } ∷ [])

-- An iteration, and whether it breaks off.
unfoldable pub scan_byte : ℕ → Scan → Bool × Scan
scan_byte max_tokens z =
    let e = suc z.cursor in
    if get_or z.text z.cursor 0 == 32
    then (if z.start == z.cursor then (false, record z { start = e; cursor = e }) else (
      length z.tokens + 1 == max_tokens - 1,
      record { start = e; cursor = e; tokens = add_token z; text = set z.text z.cursor 0 },
    ))
    else (false, record z { cursor = e })

-- the loop, with `n` bytes to go
unfoldable pub scan : ℕ → ℕ → Scan → Scan
unfolding scan_byte
scan max_tokens zero z = z
scan max_tokens (suc n) z = elim (scan_byte max_tokens z).0 [
  | true ↦ (scan_byte max_tokens z).1
  | false ↦ scan max_tokens n (scan_byte max_tokens z).1
]

-- the last token, where one is open, and the pointer of the terminal token
unfoldable pub end_tokens : Scan → List Token × Option ℕ
end_tokens z = (
  if z.start == z.cursor then z.tokens else add_token z,
  if get_or z.text z.cursor 0 == 0 then none else some z.cursor,
)

-- the tokens, the pointer of the terminal token, and the command as it is left
unfoldable pub tokenize_command : List ℕ → ℕ → (List Token × Option ℕ) × List ℕ
unfolding scan end_tokens
tokenize_command command max_tokens =
    let z =
      scan max_tokens (length command)
        (record { start = 0; cursor = 0; tokens = []; text = command }) in
    (end_tokens z, z.text)
