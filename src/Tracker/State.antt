-- ===== src/Tracker/State.antt =====
-- `struct tracker` (src/shm_malloc.h) and the access protocol of src/shm_malloc.c: every function
-- waits for the semaphore, works on the mapped tracker and posts the semaphore.
-- The semaphore and the tracker segment exist, as src/start_tracker.c makes them.
use mem_exchange.Prelude.{ℕ, zero, suc, ◌<◌, ◌≡◌, Bool, Option, none, some, List, ℤ, arith}

-- the members of `struct sockaddr_in` that differ between peers
pub record SockaddrIn : Type 0 where
  pub sin_addr : ℕ
  pub sin_port : ℕ

pub record Tracker (D : Type 0) : Type 0 where
  -- sizes and addresses are words of 64 bits
  pub max_size : ℕ
  pub used_size : ℕ
  pub spare_off : ℕ
  pub spare_size : ℕ
  pub start : ℕ
  pub start_address : ℕ
  pub avail_address : ℕ
  pub spare_mem_start : ℕ
  pub spare_mem_clsid : ℤ
  pub max_id : ℤ
  pub min_id : ℤ
  pub spare_mem_owner : ℤ
  pub spare_mem_avail : Bool
  pub spare_requested : Bool
  pub spare_lock : Bool
  pub max_score : D
  pub min_score : D
  pub preset_share : List D
  pub temp_score : D
  pub latest_conn : ℕ
  pub rdma_peer_addr : SockaddrIn
  pub remote_spare_requested : Bool
  pub remote_spare_received : Bool
  pub rdma_broadcast : Bool
  pub finish_broadcast : Bool
  pub remote_server_ready : Bool
  pub max_score_lock : Bool
  pub min_score_lock : Bool
  pub victim_potential : Bool
  pub local_access_port_n : ℤ
  pub rdma_peer_id : ℤ
  pub min_counter : ℤ
  pub max_counter : ℤ

-- What the processes of a server share: the semaphore's value, the tracker, and the first byte of
-- the slab segment.
pub record Shm (D : Type 0) : Type 0 where
  pub sem : ℕ
  pub track : Tracker D
  pub slab_byte : ℕ

-- A call of one process. `none` is a call that blocks on the semaphore.
abbrev pub M : Type 0 → Type 0 → Type 0
M D A = Shm D → Option (A × Shm D)

infixl 5 ◌>>=◌ ◌>>◌
abbrev pub ◌>>=◌ : {D A B : Type 0} → M D A → (A → M D B) → M D B
◌>>=◌ m f s = elim (m s) [ none ↦ none | some (a, s') ↦ f a s' ]

abbrev pub ◌>>◌ : {D B : Type 0} → M D (Unit {0}) → M D B → M D B
◌>>◌ m k s = elim (m s) [ none ↦ none | some (_, s') ↦ k s' ]

abbrev pub return : {D A : Type 0} → A → M D A
return a s = some (a, s)

module _ {D : Type 0} where
  -- `sem_wait`, and the mapped tracker
  unfoldable pub init_trck_access : M D (Tracker D)
  init_trck_access s = elim s.sem [ zero ↦ none | suc n ↦ some (s.track, record s { sem = n }) ]

  -- `sem_post`
  unfoldable pub term_trck_access : M D (Unit {0})
  term_trck_access s = some (tt, record s { sem = suc s.sem })

  -- a store through `track`
  abbrev pub store : Tracker D → M D (Unit {0})
  store t s = some (tt, record s { track = t })

  -- a function that does nothing but read and change the tracker between the two
  unfoldable pub locked : {A : Type 0} → (Tracker D → A × Tracker D) → M D A
  unfolding init_trck_access term_trck_access
  locked f = do t ← init_trck_access; let r = f t; store r.1; term_trck_access; return r.0

  -- the structure copy that `get_tracker` returns
  unfoldable pub get_tracker : M D (Tracker D)
  unfolding locked
  get_tracker = locked (λ t. (t, t))

  -- With the semaphore free, such a function returns, and leaves the semaphore as it was.
  pub locked-free :
      {A : Type 0} (f : Tracker D → A × Tracker D) (s : Shm D)
      → 0 < s.sem
      → locked f s ≡ some ((f s.track).0, record s { track = (f s.track).1 })
  unfolding locked
  locked-free f s h = ground arith

  -- With the semaphore taken, it does not return.
  pub locked-taken :
      {A : Type 0} (f : Tracker D → A × Tracker D) (s : Shm D) → s.sem ≡ 0 → locked f s ≡ none
  unfolding locked
  locked-taken f s h = ground arith

  pub get_tracker-free : (s : Shm D) → 0 < s.sem → get_tracker s ≡ some (s.track, s)
  unfolding get_tracker
  get_tracker-free s free = ground arith
