-- ===== src/Tracker/Calls.antt =====
-- The functions of src/shm_malloc.c that a process calls, as data, and a sequence of calls by any of
-- the processes of a server. A call's result is dropped here.
pub mod Liveness
pub mod Locks
use mem_exchange.Prelude.{ℕ, Bool, Option, none, some, List, [], ◌∷◌, ℤ, Double}
use mem_exchange.Tracker.State.{Shm, SockaddrIn, M, get_tracker}
use mem_exchange.Tracker.Alloc.{
  Os, shm_malloc, shm_malloc_spare, set_spare_mem, signal_alloc_free, receive_remote_mem,
  set_remote_mem,
}
use mem_exchange.Tracker.Scores.{
  set_scores, reset_min_score, unlock_max_score, compare_min_id, compare_max_id, lock_max_score,
  lock_min_score, unlock_min_score,
}
use mem_exchange.Tracker.Flags.{
  get_spare_clsid, get_spare_owner, req_spare, req_rem_spare, spare_needed, new_mem_available,
  reset_locks, lock_spare, unlock_spare, r_mem_received, set_rdma_access_port, stop_rdma_broadcast,
  stop_rdma_finish_broadcast, finish_broadcast, set_rdma_server_info, r_server_available,
  remote_spare_needed, reset_remote_spare,
}

-- the functions; `Os` is what the operating system answers to an allocation
pub data Call (D : Type 0) : Type 0 where
  malloc : Os → ℕ → Call D
  malloc_spare : Os → ℕ → ℕ → Call D
  spare_mem : ℕ → ℕ → ℤ → ℕ → Call D
  alloc_free : ℕ → ℕ → ℕ → Call D
  remote_received : ℕ → ℕ → ℕ → Call D
  remote_set : ℕ → ℕ → ℕ → Call D
  scores : D → D → ℤ → Call D
  compare_min compare_max : ℤ → D → Call D
  min_reset min_unlock max_unlock min_lock max_lock : Call D
  clsid owner spare_request remote_request needed available locks_reset : Call D
  spare_take spare_release received broadcast_stop finish_stop finish remote_reset tracker : Call D
  access_port : ℤ → Call D
  server_info : SockaddrIn → ℤ → Call D
  server_ready remote_needed : ℤ → Call D

abbrev pub void : {D A : Type 0} → M D A → M D (Unit {0})
void m s = elim (m s) [ none ↦ none | some (_, s') ↦ some (tt, s') ]

module _ {D : Type 0} ⦃d : Double D⦄ where
  unfoldable pub call : Call D → M D (Unit {0})
  unfolding shm_malloc shm_malloc_spare get_tracker set_spare_mem signal_alloc_free
      receive_remote_mem set_remote_mem set_scores reset_min_score unlock_max_score compare_min_id
      compare_max_id lock_max_score lock_min_score unlock_min_score get_spare_clsid get_spare_owner
      req_spare req_rem_spare spare_needed new_mem_available reset_locks lock_spare unlock_spare
      r_mem_received set_rdma_access_port stop_rdma_broadcast stop_rdma_finish_broadcast
      finish_broadcast set_rdma_server_info r_server_available remote_spare_needed
      reset_remote_spare
  call (malloc os n) = void (shm_malloc os n)
  call (malloc_spare os n id) = void (shm_malloc_spare os n id)
  call (spare_mem ptr n cls id) = set_spare_mem ptr n cls id
  call (alloc_free page id size) = signal_alloc_free page id size
  call (remote_received conn n id) = receive_remote_mem conn n id
  call (remote_set addr n id) = set_remote_mem addr n id
  call (scores sc1 sc2 id) = set_scores sc1 sc2 id
  call (compare_min id sc) = void (compare_min_id id sc)
  call (compare_max id sc) = void (compare_max_id id sc)
  call min_reset = reset_min_score
  call min_unlock = unlock_min_score
  call max_unlock = unlock_max_score
  call min_lock = void lock_min_score
  call max_lock = void lock_max_score
  call clsid = void get_spare_clsid
  call owner = void get_spare_owner
  call spare_request = void req_spare
  call remote_request = void req_rem_spare
  call needed = void spare_needed
  call available = void new_mem_available
  call locks_reset = reset_locks
  call spare_take = void lock_spare
  call spare_release = unlock_spare
  call received = void r_mem_received
  call broadcast_stop = stop_rdma_broadcast
  call finish_stop = stop_rdma_finish_broadcast
  call finish = finish_broadcast
  call remote_reset = reset_remote_spare
  call tracker = void get_tracker
  call (access_port port) = set_rdma_access_port port
  call (server_info addr id) = set_rdma_server_info addr id
  call (server_ready id) = void (r_server_available id)
  call (remote_needed id) = void (remote_spare_needed id)

  -- calls one after another, in the order in which they get the semaphore
  unfoldable pub calls : List (Call D) → Shm D → Option (Shm D)
  calls [] s = some s
  calls (c ∷ cs) s = elim (call c s) [ none ↦ none | some (_, s') ↦ calls cs s' ]
