-- ===== src/Tests/TrackerTests.antt =====
-- The tracker's theorems at sample states.
use mem_exchange.Prelude.{
  ◌⊎◌, refl, ◌+◌, ◌-◌, ◌^◌, ◌<◌, ◌≡◌, refl, true, false, some, List, [], ◌∷◌, ℤ, pos, arith, ◌+ℤ◌,
}
use mem_exchange.Tracker.State.{Shm}
use mem_exchange.Tracker.Alloc.{shm_malloc, shm_malloc_spare, set_spare_mem, signal_alloc_free}
use mem_exchange.Tracker.Alloc.Rounding.{Fits}
use mem_exchange.Tracker.Alloc.Segment
use mem_exchange.Tracker.Alloc.Segment.{IsValid, Took}
use mem_exchange.Tracker.Scores.{
  set_scores, withdraw_min, propose_min, propose_max, lock_max_score, lock_min_score,
}
use mem_exchange.Tracker.Scores.Counters.{min_rounds}
use mem_exchange.Tracker.Flags.{lock_spare}
use mem_exchange.Tracker.Calls.{
  Call, spare_request, spare_take, max_lock, scores, needed, call, calls,
}
use mem_exchange.Tracker.Calls.Liveness
use mem_exchange.Tracker.Calls.Locks
use mem_exchange.Tests.Samples.{integer_double, fresh, memory, traded, os}

-- everything that these tests run
run : Unit {0}
unfolding call calls set_scores withdraw_min propose_min propose_max lock_max_score lock_min_score
    lock_spare shm_malloc shm_malloc_spare set_spare_mem signal_alloc_free min_rounds ◌+ℤ◌
run = tt

abbrev script : List (Call ℤ)
script = spare_request ∷ spare_take ∷ max_lock ∷ scores (pos 9) (pos 4) (pos 11214) ∷ needed ∷ []

calls_return_example : Liveness.Returns script memory ⊎ Liveness.Loses script memory
calls_return_example = Liveness.calls_return script memory refl

abbrev starved : Shm ℤ
starved = record memory { sem = 0; slab_byte = 0 }

abbrev spare_held : Shm ℤ
spare_held = record memory { track = record fresh { spare_lock = true } }

lock_spare_excludes_example : lock_spare spare_held ≡ some (false, spare_held)
unfolding run
lock_spare_excludes_example =
    Locks.lock_spare_excludes (needed ∷ spare_take ∷ []) memory spare_held spare_held refl
      (refl, (refl, tt)) refl (omega arith)

abbrev max_held : Shm ℤ
max_held = record traded { track = record traded.track { max_score_lock = true } }

abbrev min_held : Shm ℤ
min_held = record traded { track = record traded.track { min_score_lock = true } }

lock_min_score_excludes_example :
    (lock_min_score min_held ≡ some (0, min_held)) × (min_held.track.min_id ≡ pos 11213)
unfolding run
lock_min_score_excludes_example =
    Locks.lock_min_score_excludes (scores (pos 1) (pos 0) (pos 11214) ∷ []) traded min_held min_held
      refl (refl, tt) refl (omega arith)

Fits-page : Fits 4096 10000
Fits-page = omega arith

fresh-IsValid : IsValid fresh
fresh-IsValid = omega arith

abbrev taken : Shm ℤ
taken = record memory {
  slab_byte = 0;
  track = record fresh {
    used_size = 12288;
    start_address = 2 ^ 46 - 12288;
    avail_address = 2 ^ 46;
  };
}

shm_malloc-Took_example : Took os 10000 fresh taken.track (2 ^ 46) × (taken.sem ≡ 1)
unfolding run
shm_malloc-Took_example =
    Segment.shm_malloc-Took os 10000 (2 ^ 46) memory taken fresh-IsValid Fits-page refl

abbrev spared : Shm ℤ
spared = record taken {
  track = record taken.track {
    spare_off = 0;
    spare_mem_start = 2 ^ 46;
    spare_mem_clsid = pos 3;
    spare_mem_avail = true;
    spare_size = 12288;
    spare_mem_owner = pos 11213;
    preset_share = pos 33554432 ∷ pos 33542144 ∷ pos 0 ∷ pos 0 ∷ [];
  };
}

abbrev lent : Shm ℤ
lent = record spared {
  track = record spared.track { preset_share = pos 33566720 ∷ pos 33542144 ∷ pos 0 ∷ pos 0 ∷ [] };
}

-- a segment with one memory page left
abbrev almost_full : Shm ℤ
almost_full = record memory {
  track = record fresh { used_size = 67104768; start_address = 2 ^ 46 - 67104768 };
}

almost_full-IsValid : IsValid almost_full.track
almost_full-IsValid = omega arith

abbrev overrun : Shm ℤ
overrun = record almost_full {
  track = record almost_full.track {
    used_size = 67117056;
    start_address = 2 ^ 46 - 67117056;
    spare_off = 67104768;
    spare_mem_start = 2 ^ 46 - 67104768;
    spare_mem_clsid = pos 1;
    spare_mem_avail = true;
    spare_size = 12288;
    spare_mem_owner = pos 11213;
    preset_share = pos 33554432 ∷ pos 33542144 ∷ pos 0 ∷ pos 0 ∷ [];
  };
}

signal_alloc_free_overruns_example :
    (67108864 < overrun.track.spare_off + overrun.track.spare_size) × (¬ (IsValid overrun.track))
unfolding run
signal_alloc_free_overruns_example =
    Segment.signal_alloc_free_overruns 4096 1 10000 almost_full overrun almost_full-IsValid
      Fits-page (omega arith) refl

signal_alloc_free_publishes_example :
    (overrun.track.spare_off ≡ 67104768)
    × (overrun.track.spare_mem_start ≡ almost_full.track.start_address)
    × (overrun.track.spare_size ≡ 12288)
    × (overrun.track.used_size ≡ 67104768 + 12288)
    × (overrun.track.spare_mem_avail ≡ true)
unfolding run
signal_alloc_free_publishes_example =
    Segment.signal_alloc_free_publishes 4096 1 10000 almost_full overrun almost_full-IsValid
      Fits-page refl

-- 11214 overtakes the victor
abbrev overtaken : Shm ℤ
overtaken = record traded {
  track = record traded.track { max_id = pos 11214; max_score = pos 60; max_counter = pos 0 };
}

-- the victor reports 40, less than its recorded 50, and 1, less than the victim's 3
abbrev both : Shm ℤ
both = record traded {
  track = record traded.track { min_id = pos 11212; min_score = pos 1; min_counter = pos 0 };
}
