-- ===== src/Store/Delta/InPlace.antt =====
-- A number that do_add_delta of src/memcached.c replaces in its item.
use mem_exchange.Prelude.{
  ℕ, ◌+◌, ◌-◌, ◌<◌, ◌≤◌, ◌≡◌, refl, ◌∙◌, ap, Bool, true, false, ◌&&◌, ◌||◌, Option, none, some,
  List, ◌++◌, ◌==◌, leb, arith, length, drop, replicate,
}
use mem_exchange.Slabs.State.{at}
use mem_exchange.Util.Numbers.{Parsed, safe_strtoull}
use mem_exchange.Store.{entry_keyed, ItemSettings, Store, item_at}
use mem_exchange.Store.Items.{refcount_incr, do_item_remove}
use mem_exchange.Store.Delta.{
  ok, changed, count_delta, in_place, write_number, add_delta_to, do_add_delta,
}
use mem_exchange.Store.Delta.Leaks.{delta_run, found_live, live_got, live_whole}
use mem_exchange.Store.Whole.{
  refs, Whole, removed, do_item_remove-some, removed-IsWhole, IsWhole-same_held,
}
use mem_exchange.Store.Updating.{do_item_update-IsWhole}
use mem_exchange.Store.Nuking.{live_entry}

body :
    (bodies : ℕ → List ℕ) (buf : List ℕ) (it m n : ℕ)
    → m ≡ n
    → at bodies it (buf ++ (replicate (m - length buf - 2) 32 ++ drop (m - 2) (bodies it))) it
      ≡ buf ++ (replicate (n - length buf - 2) 32 ++ drop (n - 2) (bodies it))
body bodies buf it m n e =
    let here : (it == it) ≡ true = ground arith in
    rw (here) (ap (λ k. buf ++ (replicate (k - length buf - 2) 32 ++ drop (k - 2) (bodies it))) e)

number_run :
    (strtoull : List ℕ → Parsed ℕ) (digits : ℕ → List ℕ) (c : ItemSettings) (hv : ℕ) (incr : Bool)
    (delta : ℕ) (answer : Option ℕ) (it value : ℕ) (s : Store)
    → (leb (item_at it s).nbytes 2 || (item_at it s).it_flags.chunked) ≡ false
    → safe_strtoull (s.bodies it) (strtoull (s.bodies it)) ≡ some value
    → add_delta_to strtoull digits c hv incr delta none answer it s
      ≡ write_number c hv (digits (changed incr delta value)) none answer it (count_delta incr it s)
unfolding add_delta_to
number_run strtoull digits c hv incr delta answer it value s long parsed = rw (long, parsed) refl

write_run :
    (c : ItemSettings) (hv : ℕ) (buf : List ℕ) (answer : Option ℕ) (it : ℕ) (s s' : Store)
    → (leb (length buf + 2) (item_at it s).nbytes && ((item_at it s).refcount == 2)) ≡ true
    → do_item_remove it (in_place c buf it s) ≡ some s'
    → write_number c hv buf none answer it s ≡ some ((ok, buf, none), s')
unfolding write_number
write_run c hv buf answer it s s' fits gone = rw (fits, gone) refl

module _ (c : ItemSettings) (key : List ℕ) (s : Store) {held : ℕ → ℕ} {qs : ℕ → List ℕ}
    (w : Whole c held qs s) (few : (a : ℕ) → refs held s.lru a < 65535) (it : ℕ)
    (live : live_entry c key s ≡ some (record { address = it; key = key })) where
  -- A live number that no one else holds, and whose successor fits, is replaced in its item: the call
  -- succeeds, the body is the new number, then spaces, then the line end as it was, the store is whole
  -- with the references that were held, and every key finds what it did.
  pub do_add_delta_in_place :
      (strtoull : List ℕ → Parsed ℕ) (digits : ℕ → List ℕ) (incr : Bool) (delta value : ℕ)
      (answer : Option ℕ)
      → (leb (item_at it s).nbytes 2 || (item_at it s).it_flags.chunked) ≡ false
      → safe_strtoull (s.bodies it) (strtoull (s.bodies it)) ≡ some value
      → held it ≡ 0
      → length (digits (changed incr delta value)) + 2 ≤ (item_at it s).nbytes
      → let buf = digits (changed incr delta value) in
        let n = (item_at it s).nbytes in
        (s' : Store) × ((do_add_delta strtoull digits c key (c.hash key) incr delta none answer s
            ≡ some ((ok, buf, none), s'))
          × ((s'.bodies it
                ≡ buf ++ (replicate (n - length buf - 2) 32 ++ drop (n - 2) (s.bodies it)))
              × ((s'.table ≡ s.table) × ((qs' : ℕ → List ℕ) × Whole c held qs' s'))))
  unfolding in_place
  do_add_delta_in_place strtoull digits incr delta value answer long parsed alone fits =
      let buf = digits (changed incr delta value) in
      let hv = c.hash key in
      let s1 = refcount_incr it s in
      let s2 = count_delta incr it s1 in
      let u = in_place c buf it s2 in
      let linked = (w.found key _ (found_live c key s it live)).0 in
      let counted = w.counted it (ground (arith, linked)) in
      let w1 = live_whole c key s w few it live in
      let (qs', w2) =
        do_item_update-IsWhole it w1 (ground (arith, linked)) c.lru_segmented c.current_time in
      let mine : 0 < at held it (held it + 1) it = ground arith in
      let gone = do_item_remove-some c u w2 it mine in
      (
        removed it u,
        (
          delta_run strtoull digits c key hv incr delta none answer it s s1
                (live_got c key s w few it live)
              ∙ (number_run strtoull digits c hv incr delta answer it value s1
                    (ground (arith, long)) parsed
                  ∙ write_run c hv buf answer it s2 (removed it u)
                      (ground (arith, counted, linked, fits, alone)) gone),
          (
            body s.bodies buf it (item_at it s1).nbytes (item_at it s).nbytes (ground arith),
            (refl, (qs', IsWhole-same_held (λ a. ground arith) (removed-IsWhole c u w2 it mine))),
          ),
        ),
      )
