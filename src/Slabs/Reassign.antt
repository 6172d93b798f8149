-- ===== src/Slabs/Reassign.antt =====
-- Requests to move a page between classes or tenants: do_slabs_reassign, slabs_reassign_pick_any and
-- force_reassign of src/slabs.c, and the state that they share with the slab mover thread.
pub mod Picks
use mem_exchange.Prelude.{
  ℕ, zero, suc, ◌+◌, ◌-◌, ◌%◌, Bool, true, false, not, ◌&&◌, ◌||◌, ◌==◌, ltb, leb, if◌then◌else◌, ℤ,
  pos, negsuc, ◌==ℤ◌, ltb_ℤ, pos_part,
}
use mem_exchange.Slabs.State.{Pool, power_smallest}

-- `enum realloc_dest_type`
pub data Tenant : Type 0 where
  tenant_slab tenant_local tenant_remote : Tenant

-- the test of `realloc_source` or `realloc_destination` as a truth value
abbrev pub external : Tenant → Bool
external tenant_slab = false
external tenant_local = true
external tenant_remote = true

-- `rdma_transfer_state`
pub data Transfer : Type 0 where
  try_to_broadcast broadcasting broadcasting_failed page_transfer_in_progress done : Transfer

pub data Result : Type 0 where
  reassign_ok reassign_running reassign_badclass reassign_nospare reassign_src_dst_same : Result

-- `struct slab_rebalance`
pub record Rebalance : Type 0 where
  pub slab_start : ℕ
  pub slab_end : ℕ
  pub slab_pos : ℕ
  pub s_clsid : ℤ
  pub d_clsid : ℤ
  pub busy_items : ℕ
  pub rescues : ℕ
  pub evictions_nomem : ℕ
  pub inline_reclaim : ℕ
  pub chunk_rescues : ℕ
  pub done : ℕ

-- the static variables of the slab mover; `cur` belongs to slabs_reassign_pick_any
pub record Mover : Type 0 where
  pub rebal : Rebalance
  pub signal : ℕ
  pub realloc_source : Tenant
  pub realloc_destination : Tenant
  pub slab_to_release : ℤ
  pub is_taken_careof : Bool
  pub pages_to_request : ℤ
  pub aborted : Bool
  pub transfer : Transfer
  pub total_released_pages : ℕ
  pub total_received_pages : ℕ
  pub start_t : ℕ
  pub end_t : ℕ
  pub time_elapsed : ℕ
  pub prev_victim : ℕ
  pub cur : ℕ

-- `x < lo || x > power_largest`, negated
abbrev pub in_range : ℕ → ℤ → Pool → Bool
in_range lo x p = not (ltb_ℤ x (pos lo) || ltb_ℤ (pos p.power_largest) x)

unfoldable pub next_class : ℕ → Pool → ℕ
next_class cur p = if ltb p.power_largest (cur + 1) then power_smallest else cur + 1

-- The loop of slabs_reassign_pick_any: the class or -1, and the new `cur`.
unfoldable pub pick_from : ℕ → ℤ → ℕ → Pool → ℤ × ℕ
pick_from zero dst cur p = (negsuc 0, cur)
pick_from (suc tries) dst cur p =
    let c = next_class cur p in
    let rest = pick_from tries dst c p in
    if pos c ==ℤ dst then rest else (if ltb 1 (p.slabclass c).slabs then (pos c, c) else rest)

unfoldable pub slabs_reassign_pick_any : ℤ → ℕ → Pool → ℤ × ℕ
slabs_reassign_pick_any dst cur p = pick_from p.power_largest dst cur p

-- `src != 1 && slabclass[src].slabs < 2`
abbrev pub no_spare : ℤ → Pool → Bool
no_spare src p = not (src ==ℤ pos 1) && ltb (p.slabclass (pos_part src)).slabs 2

-- the tests on the classes, after the choice of `src`
unfoldable pub reassign_check : ℤ → ℤ → Pool → Mover → Result
reassign_check src dst p m =
    if external m.realloc_source
    then (if in_range 0 dst p then reassign_ok else reassign_badclass)
    else (if external m.realloc_destination
        then (if in_range 1 src p
            then (if no_spare src p then reassign_nospare else reassign_ok)
            else reassign_badclass)
        else (if in_range 1 src p && in_range 0 dst p
            then (if no_spare src p then reassign_nospare else reassign_ok)
            else reassign_badclass))

unfoldable pub accept : ℤ → ℤ → Mover → Mover
accept src dst m = record m { rebal = record m.rebal { s_clsid = src; d_clsid = dst }; signal = 1 }

unfoldable pub is_ok : Result → Bool
is_ok reassign_ok = true
is_ok reassign_running = false
is_ok reassign_badclass = false
is_ok reassign_nospare = false
is_ok reassign_src_dst_same = false

-- after the special values of `src` but -1
unfoldable pub reassign_pages : ℤ → ℤ → Pool → Mover → Result × Mover
reassign_pages src dst p m =
    let (picked, cur) = slabs_reassign_pick_any dst m.cur p in
    let any = src ==ℤ negsuc 0 in
    let from = if any then picked else src in
    let m1 = if any then record m { cur = cur } else m in
    let r = reassign_check from dst p m1 in (r, if is_ok r then accept from dst m1 else m1)

-- `pthread_cond_signal` wakes the slab mover, which `signal` tells what to do.
unfoldable pub do_slabs_reassign : ℤ → ℤ → Pool → Mover → Result × Mover
do_slabs_reassign src dst p m =
    if not (m.signal == 0)
    then (reassign_running, m)
    else (if src ==ℤ pos 1000
        then (reassign_ok, record m { signal = 10; rebal = record m.rebal { d_clsid = dst } })
        else (if src ==ℤ dst && not (external m.realloc_source)
            then (reassign_src_dst_same, m)
            else reassign_pages src dst p m))

-- `free` is whether `slabs_rebalance_lock` could be taken
unfoldable pub slabs_reassign : Bool → ℤ → ℤ → Pool → Mover → Result × Mover
slabs_reassign free src dst p m =
    if free then do_slabs_reassign src dst p m else (reassign_running, m)

-- The loop of force_reassign: `n` rounds are left before the counter ends it.
unfoldable pub force_pick : ℕ → ℕ → ℕ → Pool → ℕ
force_pick zero d prev p = prev
force_pick (suc n) d prev p =
    let next = (prev + 1 - power_smallest) % p.power_largest + power_smallest in
    let rest = force_pick n d next p in
    if next == d || leb (p.slabclass next).slabs 1 then rest else next

unfoldable pub force_reassign : ℕ → Pool → Mover → Result × Mover
force_reassign d p m =
    let victim = force_pick (p.power_largest + 1) d m.prev_victim p in
    do_slabs_reassign (pos victim) (pos d) p (record m {
      realloc_source = tenant_slab;
      realloc_destination = tenant_slab;
      prev_victim = victim;
    })
