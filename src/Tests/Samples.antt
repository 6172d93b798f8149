-- ===== src/Tests/Samples.antt =====
-- Sample values: doubles as integers, a fresh tracker, an operating system that maps where it is asked.
use mem_exchange.Prelude.{
  zero, suc, ◌+◌, ◌^◌, ◌≡◌, refl, true, false, none, some, [], ◌∷◌, ℤ, pos, negsuc, ◌+ℤ◌, ltb_ℤ,
  ◌==ℤ◌, arith, Double,
}
use mem_exchange.Tracker.State.{Tracker, Shm, SockaddrIn}
use mem_exchange.Tracker.Alloc.{Os}

pub lt_irrefl_ℤ : (a : ℤ) → ltb_ℤ a a ≡ false
lt_irrefl_ℤ a = ground arith

pub lt_trans_ℤ : (a b c : ℤ) → ltb_ℤ a b ≡ true → ltb_ℤ b c ≡ true → ltb_ℤ a c ≡ true
lt_trans_ℤ a b c h k = ground arith

abbrev pub negate : ℤ → ℤ
negate (pos zero) = pos 0
negate (pos (suc k)) = negsuc k
negate (negsuc n) = pos (n + 1)

instance abbrev pub integer_double : Double ℤ
integer_double = record {
  lt = ltb_ℤ;
  eq = λ a b. a ==ℤ b;
  of_size = pos;
  add = λ a b. a +ℤ b;
  sub = λ a b. a +ℤ negate b;
  worst = pos 9999999999;
  minus_one = negsuc 0;
  dbl_max = pos (2 ^ 200);
  int_min = negsuc 2147483647;
  lt_irrefl = lt_irrefl_ℤ;
  lt_trans = lt_trans_ℤ;
  eq_refl-dbl_max = refl;
}

abbrev pub no_peer : SockaddrIn
no_peer = record { sin_addr = 0; sin_port = 0 }

-- a segment of 64 MB, as `main` of the tracker sets it up
abbrev pub fresh : Tracker ℤ
fresh = record {
  max_size = 67108864;
  used_size = 0;
  spare_off = 0;
  spare_size = 0;
  start = 2 ^ 46;
  start_address = 2 ^ 46;
  avail_address = 0;
  spare_mem_start = 0;
  spare_mem_clsid = negsuc 0;
  max_id = negsuc 0;
  min_id = negsuc 0;
  spare_mem_owner = pos 0;
  spare_mem_avail = false;
  spare_requested = false;
  spare_lock = false;
  max_score = negsuc 0;
  min_score = pos 9999999999;
  preset_share = pos 33554432 ∷ pos 33554432 ∷ pos 0 ∷ pos 0 ∷ [];
  temp_score = pos 0;
  latest_conn = 0;
  rdma_peer_addr = no_peer;
  remote_spare_requested = false;
  remote_spare_received = false;
  rdma_broadcast = false;
  finish_broadcast = false;
  remote_server_ready = false;
  max_score_lock = false;
  min_score_lock = false;
  victim_potential = false;
  local_access_port_n = pos 0;
  rdma_peer_id = pos 0;
  min_counter = pos 0;
  max_counter = pos 0;
}

abbrev pub memory : Shm ℤ
memory = record { sem = 1; track = fresh; slab_byte = 7 }

-- a tracker with a victor, port 11212, and a victim, port 11213
abbrev pub traded : Shm ℤ
traded = record memory {
  track = record fresh {
    max_id = pos 11212;
    max_score = pos 50;
    min_id = pos 11213;
    min_score = pos 3;
    victim_potential = true;
  };
}

abbrev pub os : Os
os = record { page_size = 4096; slabs_open = true; write_ok = true; mmap = λ a n o. some a }

abbrev pub full_os : Os
full_os = record os { mmap = λ a n o. none }
