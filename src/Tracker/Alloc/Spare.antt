-- ===== src/Tracker/Alloc/Spare.antt =====
-- A page that one tenant gives up by `set_spare_mem` and another takes by `shm_malloc_spare`.
use mem_exchange.Prelude.{ℕ, ℤ, ◌≡◌, some, min, get_or, set, arith, Double, List}
use mem_exchange.Tracker.State.{Shm}
use mem_exchange.Tracker.Alloc.{Os, page_round, set_spare_mem, shm_malloc_spare}

module _ {D : Type 0} ⦃d : Double D⦄ where
  -- the shares with `n` taken from a tenant, and with `n` given to one
  abbrev pub debit : ℕ → ℕ → List D → List D
  debit id n shares = set shares id (d.sub (get_or shares id d.worst) (d.of_size n))

  abbrev pub credit : ℕ → ℕ → List D → List D
  credit id n shares = set shares id (d.add (get_or shares id d.worst) (d.of_size n))

  -- The taker maps the giver's page at the giver's offset. When it asks for at least the page's size,
  -- it maps all of it, and its share grows by what the giver's fell; when the rounded request is
  -- smaller, only so much is mapped and credited.
  pub shm_malloc_spare-set_spare_mem :
      (os : Os) (ptr n m giver taker p : ℕ) (cls : ℤ) (s s₁ s₂ : Shm D)
      → set_spare_mem ptr n cls giver s ≡ some (tt, s₁)
      → shm_malloc_spare os m taker s₁ ≡ some (some p, s₂)
      → let size = min n (page_round os.page_size m) in
        (os.mmap ptr size s₁.track.spare_off ≡ some p)
        × (s₂.track.preset_share ≡ credit taker size (debit giver n s.track.preset_share))
        × (s₂.sem ≡ s.sem)
  unfolding set_spare_mem shm_malloc_spare
  shm_malloc_spare-set_spare_mem os ptr n m giver taker p cls s s₁ s₂ e g = ground arith
