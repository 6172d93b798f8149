-- ===== src/Tracker/Flags.antt =====
-- The flags of src/shm_malloc.c: requests for a local or a remote page, the lock on the spare page,
-- the RDMA handshake and the broadcasts.
use mem_exchange.Prelude.{Bool, true, false, ℤ, pos, ◌==ℤ◌, if◌then◌else◌}
use mem_exchange.Tracker.State.{SockaddrIn, M, locked}

module _ {D : Type 0} where
  unfoldable pub get_spare_clsid : M D ℤ
  unfolding locked
  get_spare_clsid = locked (λ t. (t.spare_mem_clsid, t))

  unfoldable pub get_spare_owner : M D ℤ
  unfolding locked
  get_spare_owner = locked (λ t. (t.spare_mem_owner, t))

  unfoldable pub req_spare : M D Bool
  unfolding locked
  req_spare =
      locked
        (λ t. if t.spare_requested then (false, t) else (true, record t { spare_requested = true }))

  unfoldable pub req_rem_spare : M D Bool
  unfolding locked
  req_rem_spare = locked λ t.
      if t.remote_spare_requested
      then (false, t)
      else (true, record t { remote_spare_requested = true; rdma_broadcast = true })

  unfoldable pub spare_needed : M D Bool
  unfolding locked
  spare_needed = locked (λ t. (t.spare_requested, t))

  unfoldable pub new_mem_available : M D Bool
  unfolding locked
  new_mem_available = locked (λ t. (t.spare_mem_avail, t))

  unfoldable pub reset_locks : M D (Unit {0})
  unfolding locked
  reset_locks = locked λ t. (
    tt,
    record t {
      spare_mem_owner = pos 0;
      spare_mem_avail = false;
      spare_requested = false;
      remote_spare_requested = false;
    },
  )

  unfoldable pub lock_spare : M D Bool
  unfolding locked
  lock_spare =
      locked (λ t. if t.spare_lock then (false, t) else (true, record t { spare_lock = true }))

  unfoldable pub unlock_spare : M D (Unit {0})
  unfolding locked
  unlock_spare = locked (λ t. (tt, record t { spare_lock = false }))

  unfoldable pub r_mem_received : M D Bool
  unfolding locked
  r_mem_received = locked (λ t. (t.remote_spare_received, t))

  unfoldable pub set_rdma_access_port : ℤ → M D (Unit {0})
  unfolding locked
  set_rdma_access_port port = locked (λ t. (tt, record t { local_access_port_n = port }))

  unfoldable pub stop_rdma_broadcast : M D (Unit {0})
  unfolding locked
  stop_rdma_broadcast = locked (λ t. (tt, record t { rdma_broadcast = false }))

  unfoldable pub stop_rdma_finish_broadcast : M D (Unit {0})
  unfolding locked
  stop_rdma_finish_broadcast = locked (λ t. (tt, record t { finish_broadcast = false }))

  unfoldable pub finish_broadcast : M D (Unit {0})
  unfolding locked
  finish_broadcast =
      locked (λ t. (tt, record t { finish_broadcast = true; temp_score = t.max_score }))

  unfoldable pub set_rdma_server_info : SockaddrIn → ℤ → M D (Unit {0})
  unfolding locked
  set_rdma_server_info peer_addr peer_id = locked λ t. (
    tt,
    record t {
      remote_server_ready = true;
      rdma_peer_addr = peer_addr;
      rdma_peer_id = peer_id;
      remote_spare_requested = true;
    },
  )

  unfoldable pub r_server_available : ℤ → M D Bool
  unfolding locked
  r_server_available id =
      locked (λ t. (if t.max_id ==ℤ id then t.remote_server_ready else false, t))

  unfoldable pub remote_spare_needed : ℤ → M D Bool
  unfolding locked
  remote_spare_needed id =
      locked (λ t. (if t.min_id ==ℤ id then t.remote_spare_requested else false, t))

  unfoldable pub reset_remote_spare : M D (Unit {0})
  unfolding locked
  reset_remote_spare = locked λ t. (
    tt,
    record t {
      remote_spare_requested = false;
      remote_spare_received = false;
      remote_server_ready = false;
      rdma_peer_addr = record { sin_addr = 0; sin_port = 0 };
      rdma_peer_id = pos 0;
      local_access_port_n = pos 0;
      min_counter = pos 0;
      max_counter = pos 0;
    },
  )
