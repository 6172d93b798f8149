-- ===== src/Tokens/Splitting.antt =====
-- tokenize_command of src/memcached.c against the words of the command.
use mem_exchange.Prelude.{
  subst, ℕ, zero, suc, ◌+◌, ◌-◌, ◌≡◌, ◌≢◌, refl, sym, ap, ◌∙◌, true, false, Option, none, some,
  List, [], ◌∷◌, ◌++◌, ◌==◌, map, length, get_or, take, drop, arith, All, length-append,
}
use mathlib.Core.List.{append_assoc, append-nil, map-append, nil≢cons}
use mem_exchange.Tokens.{Token, Scan, end_tokens, add_token}
use mem_exchange.Tokens.Pieces.{drop-next, get_or-drop, get_or-past, drop-length, take-length}

-- a word, if there is one, and those behind it
abbrev pub word_then : List ℕ → List (List ℕ) → List (List ℕ)
word_then [] ws = ws
word_then (x ∷ xs) ws = (x ∷ xs) ∷ ws

-- The words of a text, by the spaces between them; `cur` is the part of the first word that is read.
unfoldable pub words_from : List ℕ → List ℕ → List (List ℕ)
words_from cur [] = word_then cur []
words_from cur (c ∷ rest) = elim (c == 32) [
  | true ↦ word_then cur (words_from [] rest)
  | false ↦ words_from (cur ++ (c ∷ [])) rest
]

abbrev pub content : List ℕ → Token → List ℕ
content command t = take t.size (drop t.value command)

-- the text at the terminal token
abbrev pub left : List ℕ → Option ℕ → List ℕ
left command none = []
left command (some e) = drop e command

-- Where the loop stands: behind `pre`, and in a word of which `cur` is read.
pub record IsAt (command pre cur rest : List ℕ) (z : Scan) : Type 0 where
  pub split : command ≡ pre ++ (cur ++ rest)
  pub start : z.start ≡ length pre
  pub cursor : z.cursor ≡ length pre + length cur
  pub ahead : drop z.cursor z.text ≡ rest

module _ (command pre cur rest : List ℕ) (c : ℕ) (z : Scan)
    (h : IsAt command pre cur (c ∷ rest) z) where
  pub byte : get_or z.text z.cursor 0 ≡ c
  byte = get_or-drop z.text z.cursor c 0 rest h.ahead

  pub grown : IsAt command pre (cur ++ (c ∷ [])) rest (record z { cursor = suc z.cursor })
  grown =
      let n = length-append cur (c ∷ []) in
      let at = h.cursor in
      record {
        split = h.split ∙ ap (λ (w : List ℕ). pre ++ w) (sym (append_assoc cur (c ∷ []) rest));
        start = h.start;
        cursor = omega arith;
        ahead = drop-next z.text z.cursor c rest h.ahead;
      }

  -- behind the space that ends a word or follows another one
  pub passed :
      (ts : List Token) (t : List ℕ)
      → drop (suc z.cursor) t ≡ rest
      → IsAt command
          (pre ++ (cur ++ (c ∷ [])))
          []
          rest
          (record { start = suc z.cursor; cursor = suc z.cursor; tokens = ts; text = t })
  passed ts t e =
      let n = length-append cur (c ∷ []) in
      let m = length-append pre (cur ++ (c ∷ [])) in
      let at = h.cursor in
      record {
        split =
            h.split
            ∙ ap (λ (w : List ℕ). pre ++ w) (sym (append_assoc cur (c ∷ []) rest))
            ∙ sym (append_assoc pre (cur ++ (c ∷ [])) rest);
        start = omega arith;
        cursor = omega arith;
        ahead = e;
      }

-- the word that is read, as a token
module _ (command pre cur rest : List ℕ) (z : Scan) (h : IsAt command pre cur rest z) where
  content-word : content command (record { value = z.start; size = z.cursor - z.start }) ≡ cur
  content-word =
      let at = h.cursor in
      let from = h.start in
      let size : z.cursor - z.start ≡ length cur = omega arith in
      rw (size, from, h.split, drop-length pre (cur ++ rest), take-length cur rest)

-- A pointer of the terminal token that is not null points at a byte of the command.
abbrev pub Points : List ℕ → Option ℕ → Type 0
Points command o = left command o ≡ [] → o ≡ none

-- The tokens so far and those of the words to come, up to the last of `max_tokens - 1`; the other words
-- are left.
abbrev pub Splits : List ℕ → List (List ℕ) → ℕ → Scan → Scan → Type 0
Splits command ws more z w =
    (map (content command) (end_tokens w).0 ≡ map (content command) z.tokens ++ take more ws)
    × (words_from [] (left command (end_tokens w).1) ≡ drop more ws)
    × Points command (end_tokens w).1

pub map-add :
    (command pre cur rest : List ℕ) (z : Scan)
    → IsAt command pre cur rest z
    → map (content command) (add_token z) ≡ map (content command) z.tokens ++ (cur ∷ [])
map-add command pre cur rest z h =
    map-append (content command) z.tokens _
    ∙ ap (λ (w : List ℕ). map (content command) z.tokens ++ (w ∷ []))
        (content-word command pre cur rest z h)

drop-none : (n : ℕ) → drop {A = List ℕ} n [] ≡ []
drop-none zero = refl
drop-none (suc n) = refl

take-none : (n : ℕ) → take {A = List ℕ} n [] ≡ []
take-none zero = refl
take-none (suc n) = refl

Splits-by :
    (command : List ℕ) (ws : List (List ℕ)) (more : ℕ) (z w : Scan) (ts : List Token) (o : Option ℕ)
    → end_tokens w ≡ (ts, o)
    → map (content command) ts ≡ map (content command) z.tokens ++ take more ws
    → words_from [] (left command o) ≡ drop more ws
    → Points command o
    → Splits command ws more z w
Splits-by command ws more z w ts o e f g p = (
  ap (λ (p : List Token × Option ℕ). map (content command) p.0) e ∙ f,
  ap (λ (p : List Token × Option ℕ). words_from [] (left command p.1)) e ∙ g,
  subst (λ (q : List Token × Option ℕ). Points command q.1) (sym e) p,
)

-- the end of the text
pub ended :
    (command pre cur : List ℕ) (z : Scan) (m : ℕ)
    → IsAt command pre cur [] z
    → Splits command (words_from cur []) (suc m) z z
unfolding end_tokens words_from
ended command pre [] z m h =
    let past = get_or-past z.text z.cursor 0 h.ahead in
    let at = h.cursor in
    let from = h.start in
    Splits-by command [] (suc m) z z z.tokens none (ground arith) (sym (append-nil _)) refl
      (λ _. refl)
ended command pre (x ∷ xs) z m h =
    let past = get_or-past z.text z.cursor 0 h.ahead in
    let at = h.cursor in
    let from = h.start in
    let one : take (suc m) ((x ∷ xs) ∷ []) ≡ (x ∷ xs) ∷ [] =
      ap (λ (ws : List (List ℕ)). (x ∷ xs) ∷ ws) (take-none m) in
    Splits-by command ((x ∷ xs) ∷ []) (suc m) z z (add_token z) none (ground arith)
      (map-add command pre (x ∷ xs) [] z h
        ∙ ap (λ (ws : List (List ℕ)). map (content command) z.tokens ++ ws) (sym one))
      (sym (drop-none m)) (λ _. refl)

-- the space behind the last token that there is room for
pub full :
    (command pre rest : List ℕ) (z : Scan)
    → IsAt command pre [] rest z
    → All (λ c. c ≢ 0) rest
    → ((end_tokens z).0 ≡ z.tokens)
      × (words_from [] (left command (end_tokens z).1) ≡ words_from [] rest)
      × Points command (end_tokens z).1
unfolding end_tokens
full command pre [] z h nonzero =
    let past = get_or-past z.text z.cursor 0 h.ahead in
    let at = h.cursor in
    let from = h.start in
    let e : end_tokens z ≡ (z.tokens, none) = ground arith in
    (
      ap (λ (p : List Token × Option ℕ). p.0) e,
      ap (λ (p : List Token × Option ℕ). words_from [] (left command p.1)) e,
      subst (λ (q : List Token × Option ℕ). Points command q.1) (sym e) (λ _. refl),
    )
full command pre (c ∷ rest) z h (some_byte, nonzero) =
    let byte = get_or-drop z.text z.cursor c 0 rest h.ahead in
    let at = h.cursor in
    let from = h.start in
    let here : z.cursor ≡ length pre = omega arith in
    let behind : drop z.cursor command ≡ c ∷ rest =
      rw (here, h.split) (drop-length pre (c ∷ rest)) in
    let e : end_tokens z ≡ (z.tokens, some z.cursor) = ground arith in
    (
      ap (λ (p : List Token × Option ℕ). p.0) e,
      ap (λ (p : List Token × Option ℕ). words_from [] (left command p.1)) e
          ∙ ap (words_from []) behind,
      subst (λ (q : List Token × Option ℕ). Points command q.1) (sym e)
          (λ empty. absurd (nil≢cons (sym empty ∙ behind))),
    )
