-- ===== src/Store/Delta.antt =====
-- do_add_delta of src/memcached.c, which adds to a number in an item or subtracts from it. It runs under
-- the item lock of the key. `strtoull` and `digits` are the C library's conversions of a text and of a
-- number, the latter by snprintf with "%llu".
pub mod Leaks
pub mod InPlace
use mem_exchange.Prelude.{
  ℕ, ◌+◌, ◌-◌, Bool, true, false, not, ◌&&◌, ◌||◌, Option, none, some, List, [], ◌∷◌, ◌++◌, ◌==◌,
  ltb, leb, if◌then◌else◌, add64, length, drop, replicate,
}
use mem_exchange.Slabs.State.{at}
use mem_exchange.Items.Update.{item_clsid, do_item_update}
use mem_exchange.Util.Numbers.{Parsed, safe_strtoull}
use mem_exchange.Store.{
  ItemSettings, Store, ◌>>=◌, item_at, item_get_cas, item_set_cas, item_stats_sizes_add,
  item_stats_sizes_remove,
}
use mem_exchange.Store.Items.{new_cas, do_item_replace, do_item_remove, do_item_get}

-- `delta_result_type`, as far as the function returns it
pub data DeltaResultType : Type 0 where
  ok : DeltaResultType
  non_numeric : DeltaResultType
  eom : DeltaResultType
  delta_item_not_found : DeltaResultType
  delta_item_cas_mismatch : DeltaResultType

-- the result, what is in `buf`, and `*cas` where `cas` is not NULL
abbrev pub Answer : Type 0
Answer = DeltaResultType × List ℕ × Option ℕ

-- the number after the command; `delta` is the 64 bits of the argument
unfoldable pub changed : Bool → ℕ → ℕ → ℕ
changed incr delta value =
    if incr then add64 value delta else (if ltb value delta then 0 else value - delta)

abbrev pub count_delta : Bool → ℕ → Store → Store
count_delta incr it s =
    let id = item_clsid (item_at it s) in
    record s {
      incr_hits = if incr then at s.incr_hits id (add64 (s.incr_hits id) 1) else s.incr_hits;
      decr_hits = if incr then s.decr_hits else at s.decr_hits id (add64 (s.decr_hits id) 1);
    }

-- "replace in-place": the rest of the old number is filled with spaces
unfoldable pub in_place : ItemSettings → List ℕ → ℕ → Store → Store
in_place c buf it s =
    let n = (item_at it s).nbytes in
    let s1 = item_stats_sizes_add it (new_cas c it (item_stats_sizes_remove it s)) in
    let s2 = record s1 {
      bodies =
          at s1.bodies it
            (buf ++ (replicate (n - length buf - 2) 32 ++ drop (n - 2) (s1.bodies it)));
    } in
    record s2 { lru = do_item_update c.lru_segmented c.current_time it s2.lru }

-- a new item in the place of the old one; `answer` is what do_item_alloc gives
unfoldable pub anew : ItemSettings → ℕ → List ℕ → Option ℕ → ℕ → Store → Option (Bool × Store)
anew c hv buf answer it s = elim answer [
  | none ↦ do_item_remove it s >>= λ s'. some (false, s')
  | some new_it ↦
      let s1 = record s { bodies = at s.bodies new_it (buf ++ (13 ∷ 10 ∷ [])) } in
      do_item_replace c it new_it hv s1 >>= λ s2.
      do_item_remove new_it (item_set_cas it (if c.use_cas then item_get_cas new_it s2 else 0) s2)
      >>= λ s3. some (true, s3)
]

-- from the new number on
unfoldable pub write_number :
    ItemSettings → ℕ → List ℕ → Option ℕ → Option ℕ → ℕ → Store → Option (Answer × Store)
write_number c hv buf cas answer it s =
    let e = item_at it s in
    let done = λ (u : Store). do_item_remove it u >>= λ u'.
    some ((ok, buf, (elim cas [ none ↦ none | some v ↦ some (item_get_cas it u) ])), u') in
    if leb (length buf + 2) e.nbytes && (e.refcount == 2)
    then done (in_place c buf it s)
    else (if ltb 1 e.refcount
        then (anew c hv buf answer it s >>= λ r.
            if r.0 then done r.1 else some ((eom, buf, cas), r.1))
        else (if e.refcount == 1
            then (do_item_remove it s >>= λ s'. some ((delta_item_not_found, buf, cas), s'))
            else some ((delta_item_not_found, buf, cas), s)))

-- an item that was found
unfoldable pub add_delta_to :
    (List ℕ → Parsed ℕ)
    → (ℕ → List ℕ)
    → ItemSettings
    → ℕ
    → Bool
    → ℕ
    → Option ℕ
    → Option ℕ
    → ℕ
    → Store
    → Option (Answer × Store)
add_delta_to strtoull digits c hv incr delta cas answer it s =
    let e = item_at it s in
    let body = s.bodies it in
    let other_cas : Bool = elim cas [
      | none ↦ false
      | some v ↦ not (v == 0) && not (item_get_cas it s == v)
    ] in
    if leb e.nbytes 2 || e.it_flags.chunked
    then some ((non_numeric, [], cas), s)
    else (if other_cas
        then (do_item_remove it s >>= λ s'. some ((delta_item_cas_mismatch, [], cas), s'))
        else elim (safe_strtoull body (strtoull body)) [
          | none ↦ do_item_remove it s >>= λ s'. some ((non_numeric, [], cas), s')
          | some value ↦
              write_number c hv (digits (changed incr delta value)) cas answer it
                (count_delta incr it s)
        ])

unfoldable pub do_add_delta :
    (List ℕ → Parsed ℕ)
    → (ℕ → List ℕ)
    → ItemSettings
    → List ℕ
    → ℕ
    → Bool
    → ℕ
    → Option ℕ
    → Option ℕ
    → Store
    → Option (Answer × Store)
do_add_delta strtoull digits c key hv incr delta cas answer s =
    do_item_get c key hv false false s >>= λ r. elim r.0 [
      | none ↦ some ((delta_item_not_found, [], cas), r.1)
      | some it ↦ add_delta_to strtoull digits c hv incr delta cas answer it r.1
    ]
