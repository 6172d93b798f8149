-- ===== src/Slabs/Victor.antt =====
-- victor_waiting_routine and check_timeout of src/slabs.c: a tenant that asked for pages waits for
-- them, with the calls of src/shm_malloc.c in their order. The clock, and the port that RDMA gives the
-- server, are arguments.
pub mod Turns
use mem_exchange.Prelude.{
  ℕ, ◌+◌, ◌-◌, ◌/◌, Bool, true, false, not, ◌&&◌, ◌||◌, ◌==◌, ltb, if◌then◌else◌, Option, none,
  some, ℤ, pos, negsuc, ◌+ℤ◌, ◌==ℤ◌, Double,
}
use mem_exchange.Tracker.State.{Tracker, Shm, M, ◌>>=◌, ◌>>◌, return, get_tracker}
use mem_exchange.Tracker.Scores.{reset_min_score, unlock_max_score, unlock_min_score}
use mem_exchange.Tracker.Flags.{
  get_spare_clsid, req_spare, req_rem_spare, new_mem_available, reset_locks, lock_spare,
  unlock_spare, r_mem_received, set_rdma_access_port, finish_broadcast, r_server_available,
  reset_remote_spare,
}
use mem_exchange.Slabs.Reassign.{
  Tenant, tenant_slab, tenant_local, tenant_remote, Transfer, try_to_broadcast, broadcasting,
  broadcasting_failed, page_transfer_in_progress, done, Rebalance, Mover,
}

-- what one turn reads from outside: two readings of `clock()`, CLOCKS_PER_SEC, this tenant's port, and
-- the port of the RDMA server
pub record Turn : Type 0 where
  pub clock1 : ℕ
  pub clock2 : ℕ
  pub per_sec : ℕ
  pub port : ℤ
  pub server_port : ℤ

abbrev pub in_progress : Transfer → Bool
in_progress page_transfer_in_progress = true
in_progress try_to_broadcast = false
in_progress broadcasting = false
in_progress broadcasting_failed = false
in_progress done = false

unfoldable pub timed : Turn → Mover → Mover
timed w m = record m { start_t = if m.start_t == 0 then w.clock1 else m.start_t; end_t = w.clock2 }

-- `seconds > 5`; `clock_t` is divided as an integer
unfoldable pub late : Turn → Mover → Bool
late w m = ltb 5 ((m.end_t - m.start_t) / w.per_sec)

-- a page came: one less to ask for
unfoldable pub received : Tenant → Mover → Mover
received from m = record m {
  start_t = 0;
  end_t = 0;
  pages_to_request = m.pages_to_request +ℤ negsuc 0;
  total_received_pages = m.total_received_pages + 1;
  realloc_source = from;
  realloc_destination = tenant_slab;
  signal = 1;
}

unfoldable pub finished : Mover → Mover
finished m = record m {
  realloc_source = tenant_slab;
  realloc_destination = tenant_slab;
  aborted = false;
  time_elapsed = 0;
  transfer = done;
  signal = 0;
}

module _ {D : Type 0} ⦃d : Double D⦄ where
  -- the calls after a timeout
  unfoldable pub give_up : M D (Unit {0})
  unfolding reset_locks reset_remote_spare unlock_spare unlock_min_score reset_min_score
  give_up = do
    _ ← reset_locks
    _ ← reset_remote_spare
    _ ← unlock_spare
    _ ← unlock_min_score
    reset_min_score

  unfoldable pub check_timeout : Turn → Mover → M D Mover
  unfolding give_up get_tracker
  check_timeout w m0 =
      let m = timed w m0 in
      let again = record m { start_t = 0; end_t = 0; transfer = try_to_broadcast } in
      if late w m && not (m.pages_to_request ==ℤ pos 0)
      then (do
        t ← get_tracker
        if not t.remote_server_ready || in_progress m.transfer
            then (do _ ← give_up; return again)
            else return m)
      else return m

  -- the part of start_rdma_server that the tracker sees
  unfoldable pub start_rdma_server : Turn → Mover → M D Mover
  unfolding set_rdma_access_port
  start_rdma_server w m = do
    _ ← set_rdma_access_port w.server_port
    return (record m { transfer = page_transfer_in_progress })

  -- `case BROADCASTING_FAILED`
  unfoldable pub take_local : Mover → M D Mover
  unfolding new_mem_available lock_spare get_spare_clsid
  take_local m = do
    available ← new_mem_available
    if available
        then (do
          _ ← lock_spare
          cls ← get_spare_clsid
          let m1 = received tenant_local m
          return (record m1 { rebal = record m1.rebal { s_clsid = cls }; is_taken_careof = false }))
        else return m

  -- the `switch`
  unfoldable pub take_turn : Turn → Mover → M D Mover
  unfolding req_rem_spare req_spare r_server_available start_rdma_server take_local r_mem_received
  take_turn w m = elim m.transfer [
    | try_to_broadcast ↦ (do
      _ ← req_rem_spare
      _ ← req_spare
      return (record m { transfer = broadcasting }))
    | broadcasting ↦ (do
      ready ← r_server_available w.port
      m1 ← (if ready then start_rdma_server w m else return m)
      take_local m1)
    | broadcasting_failed ↦ take_local m
    | page_transfer_in_progress ↦ (do
      here ← r_mem_received
      return (if here then received tenant_remote m else m))
    | done ↦ return m
  ]

  unfoldable pub victor_waiting_routine : Turn → Mover → M D Mover
  unfolding finish_broadcast reset_locks reset_remote_spare unlock_max_score check_timeout take_turn
  victor_waiting_routine w m =
      if m.pages_to_request ==ℤ pos 0 || m.aborted
      then (do
        _ ← finish_broadcast
        _ ← reset_locks
        _ ← reset_remote_spare
        _ ← unlock_max_score
        return (finished m))
      else (do m1 ← check_timeout w m; take_turn w m1)
