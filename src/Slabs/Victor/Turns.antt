-- ===== src/Slabs/Victor/Turns.antt =====
-- One turn of victor_waiting_routine of src/slabs.c, whatever the tracker says.
use mem_exchange.Prelude.{
  ap, subst, ℕ, suc, ◌+◌, ◌≡◌, ◌≢◌, ◌⊎◌, inl, inr, refl, true, false, not, ◌&&◌, ◌||◌, arith,
  if◌then◌else◌, Bool, ◌==◌, ltb, ◌-◌, ◌/◌, none, some, pos, negsuc, ◌+ℤ◌, ◌==ℤ◌, Double,
  Bool-cases, ==ℤ_iff, ◌∙◌,
}
use mem_exchange.Tracker.State.{
  Tracker, Shm, M, locked, init_trck_access, term_trck_access, get_tracker,
}
use mem_exchange.Tracker.Scores.{no_id, reset_min_score, unlock_max_score, unlock_min_score}
use mem_exchange.Tracker.Flags.{
  get_spare_clsid, req_spare, req_rem_spare, new_mem_available, reset_locks, lock_spare,
  unlock_spare, r_mem_received, set_rdma_access_port, finish_broadcast, r_server_available,
  reset_remote_spare,
}
use mem_exchange.Slabs.Reassign.{
  Transfer, try_to_broadcast, broadcasting, broadcasting_failed, page_transfer_in_progress, done,
  Mover, tenant_slab,
}
use mem_exchange.Slabs.Victor.{
  Turn, in_progress, timed, late, received, finished, give_up, check_timeout, start_rdma_server,
  take_local, take_turn, victor_waiting_routine,
}

-- `m` returns from `s` with a value and a memory of which `P` holds.
abbrev pub Gives : {D A : Type 0} → M D A → Shm D → (A → Shm D → Type 0) → Type 0
Gives {D} {A} m s P = (a : A) × ((s' : Shm D) × ((m s ≡ some (a, s')) × P a s'))

-- What a turn does to the counts. With a page that came: one less to ask for and one more received, and
-- the mover is to take it over. Without one: nothing.
abbrev pub Counts : Bool → Mover → Mover → Type 0
Counts came m m' =
    (m'.pages_to_request ≡ (if came then m.pages_to_request +ℤ negsuc 0 else m.pages_to_request))
    × ((m'.total_received_pages
          ≡ (if came then m.total_received_pages + 1 else m.total_received_pages))
        × (m'.signal ≡ (if came then 1 else m.signal)))

-- The tracker has a page for a tenant: a local one while it broadcasts, a remote one in a transfer.
abbrev pub page_there : {D : Type 0} → Tracker D → Transfer → Bool
page_there t broadcasting = t.spare_mem_avail
page_there t broadcasting_failed = t.spare_mem_avail
page_there t page_transfer_in_progress = t.remote_spare_received
page_there t try_to_broadcast = false
page_there t done = false

-- More than 5 seconds after the wait began, if there is no remote server or the transfer has started.
abbrev pub timed_out : {D : Type 0} → Turn → Mover → Tracker D → Bool
timed_out w m t =
    ltb 5 ((w.clock2 - (if m.start_t == 0 then w.clock1 else m.start_t)) / w.per_sec)
    && not (m.pages_to_request ==ℤ pos 0)
    && (not t.remote_server_ready || in_progress m.transfer)

-- the mover after an exchange
abbrev pub Idle : Mover → Mover → Type 0
Idle m m' =
    (m'.transfer ≡ done)
    × (m'.signal ≡ 0)
    × (m'.aborted ≡ false)
    × (m'.time_elapsed ≡ 0)
    × (m'.realloc_source ≡ tenant_slab)
    × (m'.realloc_destination ≡ tenant_slab)
    × (m'.total_received_pages ≡ m.total_received_pages)

-- a memory in which the semaphore is free
abbrev pub posted : {D : Type 0} → ℕ → Tracker D → ℕ → Shm D
posted n t b = record { sem = suc n; track = t; slab_byte = b }

-- the counts after a turn, with the semaphore free
abbrev pub Turned : {D : Type 0} → ℕ → Bool → Mover → Mover → Shm D → Type 0
Turned n came m m' s' = (s'.sem ≡ suc n) × Counts came m m'

module _ {D : Type 0} ⦃d : Double D⦄ where
  take_local-Turned :
      (m : Mover) (n : ℕ) (t : Tracker D) (b : ℕ)
      → Gives (take_local m) (posted n t b) (Turned n t.spare_mem_avail m)
  unfolding take_local received new_mem_available lock_spare get_spare_clsid locked init_trck_access
      term_trck_access
  take_local-Turned m n t b = elim (Bool-cases t.spare_mem_avail) [
    | inl e ↦ simp e (_, (_, (refl, (refl, (refl, (refl, refl))))))
    | inr e ↦ simp e (_, (_, (refl, (refl, (refl, (refl, refl))))))
  ]

  take_turn-Turned :
      (w : Turn) (m : Mover) (n : ℕ) (t : Tracker D) (b : ℕ)
      → Gives (take_turn w m) (posted n t b) (Turned n (page_there t m.transfer) m)
  unfolding take_turn start_rdma_server received req_rem_spare req_spare r_server_available
      set_rdma_access_port r_mem_received locked init_trck_access term_trck_access
  take_turn-Turned w m n t b = go m.transfer refl
    where
      go :
          (x : Transfer)
          → m.transfer ≡ x
          → Gives (take_turn w m) (posted n t b) (Turned n (page_there t x) m)
      go try_to_broadcast e = rw (e, take_turn) (_, (_, (refl, (refl, (refl, (refl, refl))))))
      go broadcasting e =
          elim (Bool-cases (if t.max_id ==ℤ w.port then t.remote_server_ready else false)) [
            | inl g ↦
                rw (e, take_turn, g)
                  (take_local-Turned (record m { transfer = page_transfer_in_progress }) n
                    (record t { local_access_port_n = w.server_port }) b)
            | inr g ↦ rw (e, take_turn, g) (take_local-Turned m n t b)
          ]
      go broadcasting_failed e = rw (e, take_turn) (take_local-Turned m n t b)
      go page_transfer_in_progress e = elim (Bool-cases t.remote_spare_received) [
        | inl g ↦ rw (e, take_turn, g) (_, (_, (refl, (refl, (refl, (refl, refl))))))
        | inr g ↦ rw (e, take_turn, g) (_, (_, (refl, (refl, (refl, (refl, refl))))))
      ]
      go done e = rw (e, take_turn) (_, (_, (refl, (refl, (refl, (refl, refl))))))

  -- a timeout does not change the counts, and no page is taken after it
  check_timeout-Turned :
      (w : Turn) (m : Mover) (n : ℕ) (t : Tracker D) (b : ℕ)
      → (m1 : Mover) × ((t1 : Tracker D) × ((check_timeout w m (posted n t b)
              ≡ some (m1, posted n t1 b))
            × ((m1.pages_to_request ≡ m.pages_to_request)
                × ((m1.total_received_pages ≡ m.total_received_pages)
                    × ((m1.signal ≡ m.signal)
                        × (page_there t1 m1.transfer
                            ≡ (if timed_out w m t then false else page_there t m.transfer)))))))
  unfolding check_timeout give_up timed late get_tracker reset_locks reset_remote_spare unlock_spare
      unlock_min_score reset_min_score locked init_trck_access term_trck_access
  check_timeout-Turned w m n t b = elim (Bool-cases (late w (timed w m))) [
    | inl l ↦ elim (Bool-cases (not (m.pages_to_request ==ℤ pos 0))) [
      | inl p ↦ elim (Bool-cases (not t.remote_server_ready || in_progress m.transfer)) [
        | inl g ↦ simp (l, p, g) (_, (_, (refl, (refl, (refl, (refl, refl))))))
        | inr g ↦ simp (l, p, g) (_, (_, (refl, (refl, (refl, (refl, refl))))))
      ]
      | inr p ↦ simp (l, p) (_, (_, (refl, (refl, (refl, (refl, refl))))))
    ]
    | inr l ↦ simp (l) (_, (_, (refl, (refl, (refl, (refl, refl))))))
  ]

  -- A turn after the last page, or after an abort: the mover is idle again, and the tracker holds no
  -- request, no candidate for a page, and the wish to end the broadcast.
  abbrev pub Finished : Mover → Mover → Shm D → Type 0
  Finished m m' s' =
      Idle m m'
      × ((s'.track.spare_requested ≡ false)
          × ((s'.track.remote_spare_requested ≡ false)
              × ((s'.track.remote_spare_received ≡ false)
                  × ((s'.track.max_score_lock ≡ false)
                      × ((s'.track.max_id ≡ no_id) × (s'.track.finish_broadcast ≡ true))))))

  -- With the semaphore free, and no other process between its calls, a turn returns and leaves it free. When no page is left to ask for, or
  -- the request was aborted, it ends the exchange. Otherwise it receives a page exactly if the tracker has
  -- one for it and the wait has not timed out, and counts it once in both counters.
  pub victor_waiting_routine-Turned :
      (w : Turn) (m : Mover) (n : ℕ) (t : Tracker D) (b : ℕ)
      → Gives (victor_waiting_routine w m) (posted n t b) λ m' s'.
        (s'.sem ≡ suc n)
        × ((((m.pages_to_request ≡ pos 0) ⊎ (m.aborted ≡ true)) × Finished m m' s')
            ⊎ ((m.pages_to_request ≢ pos 0)
                × ((m.aborted ≡ false)
                    × Counts (if timed_out w m t then false else page_there t m.transfer) m m')))
  unfolding victor_waiting_routine finished finish_broadcast reset_locks reset_remote_spare
      unlock_max_score locked init_trck_access term_trck_access
  victor_waiting_routine-Turned w m n t b =
      elim (Bool-cases (m.pages_to_request ==ℤ pos 0 || m.aborted)) [
        | inl e ↦
            let why : (m.pages_to_request ≡ pos 0) ⊎ (m.aborted ≡ true) = ended e in
            rw (e, victor_waiting_routine)
              (
                _,
                (
                  _,
                  (
                    refl,
                    (
                      refl,
                      inl (
                        why,
                        (
                          (refl, refl, refl, refl, refl, refl, refl),
                          (refl, (refl, (refl, (refl, (refl, refl))))),
                        ),
                      ),
                    ),
                  ),
                ),
              )
        | inr e ↦
            let (m1, (t1, (run, (pages, (total, (signal, came)))))) =
              check_timeout-Turned w m n t b in
            let (m2, (s2, (turn, (sem, counts)))) = take_turn-Turned w m1 n t1 b in
            let (asked, kept) = going e in
            (
              m2,
              (
                s2,
                (
                  rw (e, victor_waiting_routine)
                      (ap (λ r. elim r [ none ↦ none | some (a, q) ↦ take_turn w a q ]) run ∙ turn),
                  (
                    sem,
                    inr (
                      asked,
                      (
                        kept,
                        moved _ m1 m2 pages total signal (subst (λ c. Counts c m1 m2) came counts),
                      ),
                    ),
                  ),
                ),
              ),
            )
      ]
    where
      ended :
          (m.pages_to_request ==ℤ pos 0 || m.aborted) ≡ true
          → (m.pages_to_request ≡ pos 0) ⊎ (m.aborted ≡ true)
      ended e = elim (Bool-cases (m.pages_to_request ==ℤ pos 0)) [
        | inl g ↦ inl ((==ℤ_iff _ _).0 g)
        | inr g ↦ inr (ground arith)
      ]

      going :
          (m.pages_to_request ==ℤ pos 0 || m.aborted) ≡ false
          → (m.pages_to_request ≢ pos 0) × (m.aborted ≡ false)
      going e = (λ k. ground (arith, (==ℤ_iff m.pages_to_request (pos 0)).1 k), ground arith)

      moved :
          (came : Bool) (m1 m2 : Mover)
          → m1.pages_to_request ≡ m.pages_to_request
          → m1.total_received_pages ≡ m.total_received_pages
          → m1.signal ≡ m.signal
          → Counts came m1 m2
          → Counts came m m2
      moved came m1 m2 pages total signal (a, (b', c)) = (
        a ∙ ap (λ k. if came then k +ℤ negsuc 0 else k) pages,
        (
          b' ∙ ap (λ k. if came then k + 1 else k) total,
          c ∙ ap (λ k. if came then 1 else k) signal,
        ),
      )
