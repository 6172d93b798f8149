-- ===== src/Overload.antt =====
-- The overload control of src/rdma_util.c: get_remote_item as the steps that a thread takes between
-- its accesses of the shared atomics, which other threads' steps may come between. The one caller,
-- process_bin_get_or_touch, holds rdma_local_region_lock over the call, so that the choice of a buffer and
-- the posting of the read are one step; the atomics are written for callers that do not.
pub mod Slots
pub mod Bounds
pub mod Alone
pub mod Recovery
use mem_exchange.Prelude.{
  ℕ, zero, suc, ◌+◌, ◌*◌, ◌-◌, ◌/◌, ◌%◌, ◌^◌, Bool, true, false, not, ◌&&◌, Option, none, some, ℤ,
  pos, negsuc, ◌+ℤ◌, ltb, leb, ltb_ℤ, ◌==◌, if◌then◌else◌, sub64, word, List, [], ◌∷◌, ◌≡◌,
  get_elem?, set,
}

abbrev pub max_outstanding_rdma : ℕ
max_outstanding_rdma = 256

abbrev pub ppm : ℕ
ppm = 1000000

abbrev pub ppm_high : ℕ
ppm_high = 200000

abbrev pub ppm_low : ℕ
ppm_low = 50000

abbrev pub alpha_ppm : ℕ
alpha_ppm = 50000

abbrev pub decay_interval_ns : ℕ
decay_interval_ns = 50000000

abbrev pub decay_factor_ppm : ℕ
decay_factor_ppm = 980000

abbrev pub probe_interval_ns : ℕ
probe_interval_ns = 20000000

abbrev pub wait_timeout_ns : ℕ
wait_timeout_ns = 100000

-- ten times RDMA_BUFFER_SIZE
abbrev pub region_size : ℕ
region_size = 10485760

-- The part of a connection that a read uses: the local region, and the last buffer in it.
pub record Connection : Type 0 where
  pub rdma_local_region_r : ℕ
  pub last_used_addr : ℕ

-- the variables of the file; a connection has a number
pub record Victim : Type 0 where
  pub victim_outstanding_rdma : ℤ
  pub rdma_overloaded : Bool
  pub ewma_timeout_ppm : ℕ
  pub last_decay_ns : ℕ
  pub last_probe_ns : ℕ
  pub prevsize : ℕ
  pub conns : ℕ → Connection

-- what get_remote_item finds in the slab class: `p->conn[r_it->page_id]` and `p->size`
pub record RemoteRead : Type 0 where
  pub conn : ℕ
  pub size : ℕ

-- What a step meets outside the file: the clock in ns, whether ibv_post_send fails, whether a weak
-- exchange fails for no reason, and the field `nbytes` of the item at an address.
pub record Tick : Type 0 where
  pub now : ℕ
  pub post_fails : Bool
  pub spurious : Bool
  pub nbytes : ℕ → ℕ

-- computed in 64 bits, and cut to 32
unfoldable pub ewma_update : ℕ → ℕ → ℕ → ℕ
ewma_update old sample alpha = (alpha * sample + (ppm - alpha) * old) % word / ppm % 2 ^ 32

unfoldable pub decayed : ℕ → ℕ
decayed old = old * decay_factor_ppm % word / ppm % 2 ^ 32

-- Where a thread stands in get_remote_item: what it has read, and the access that comes next.
pub data Point : Type 0 where
  starting : Point
  decay_timed : ℕ → Point
  decay_claim : ℕ → ℕ → Point
  decay_load : Point
  decay_swap : ℕ → Point
  reading : Point
  latching : ℕ → Point
  clearing setting : Point
  probing : Point
  probe_timed : ℕ → Point
  probe_claim : ℕ → ℕ → Point
  reserving : Point
  refused : Point
  admitted : Point
  posted : Point
  waiting spun : ℕ → Point
  sampling : ℕ → Bool → Point
  swapping : ℕ → ℕ → Bool → Point
  releasing : Bool → Point
  leaving : Point
  returned : Option ℕ → Point

abbrev pub add_outstanding : ℤ → Victim → Victim
add_outstanding d v = record v { victim_outstanding_rdma = v.victim_outstanding_rdma +ℤ d }

abbrev pub buffer_of : ℕ → ℕ → Connection → ℕ
buffer_of prev n k =
    let addr = k.last_used_addr + (if ltb prev n then n else prev) in
    if leb (k.rdma_local_region_r + region_size) (addr + n) then k.rdma_local_region_r else addr

-- the next buffer of the connection
unfoldable pub place : RemoteRead → Victim → Victim
place r v = record v {
  prevsize = r.size;
  conns = λ c.
      if c == r.conn
      then record (v.conns c) { last_used_addr = buffer_of v.prevsize r.size (v.conns c) }
      else v.conns c;
}

-- the latch, once the average and the flag are read
unfoldable pub latch : ℕ → Bool → Point
latch e true = if leb e ppm_low then clearing else probing
latch e false = if leb ppm_high e then setting else reserving

-- one access of a thread
unfoldable pub step : RemoteRead → Tick → Victim → Point → Victim × Point
unfolding decayed ewma_update place latch
step r k v starting = (v, decay_timed k.now)
step r k v (decay_timed t) = (
  v,
  if ltb (sub64 t v.last_decay_ns) decay_interval_ns
      then reading
      else decay_claim t v.last_decay_ns,
)
step r k v (decay_claim t last) =
    if v.last_decay_ns == last then (record v { last_decay_ns = t }, decay_load) else (v, reading)
step r k v decay_load = (v, decay_swap v.ewma_timeout_ppm)
step r k v (decay_swap old) =
    if v.ewma_timeout_ppm == old && not k.spurious
    then (record v { ewma_timeout_ppm = decayed old }, reading)
    else (v, decay_load)
step r k v reading = (v, latching v.ewma_timeout_ppm)
step r k v (latching e) = (v, latch e v.rdma_overloaded)
step r k v clearing = (record v { rdma_overloaded = false }, reserving)
step r k v setting = (record v { rdma_overloaded = true }, probing)
step r k v probing = (v, probe_timed k.now)
step r k v (probe_timed t) = (
  v,
  if ltb (sub64 t v.last_probe_ns) probe_interval_ns
      then returned none
      else probe_claim t v.last_probe_ns,
)
step r k v (probe_claim t last) =
    if v.last_probe_ns == last
    then (record v { last_probe_ns = t }, reserving)
    else (v, returned none)
step r k v reserving = (
  add_outstanding (pos 1) v,
  if ltb_ℤ v.victim_outstanding_rdma (pos max_outstanding_rdma) then admitted else refused,
)
step r k v refused = (add_outstanding (negsuc 0) v, returned none)
step r k v admitted = (place r v, if k.post_fails then sampling ppm false else posted)
step r k v posted = (v, waiting k.now)
step r k v (waiting w) =
    (v, if k.nbytes (v.conns r.conn).last_used_addr == 0 then spun w else sampling 0 true)
step r k v (spun w) = (v, if leb (w + wait_timeout_ns) k.now then sampling ppm false else waiting w)
step r k v (sampling s ok) = (v, swapping s v.ewma_timeout_ppm ok)
step r k v (swapping s old ok) =
    if v.ewma_timeout_ppm == old && not k.spurious
    then (record v { ewma_timeout_ppm = ewma_update old s alpha_ppm }, releasing ok)
    else (v, sampling s ok)
step r k v (releasing ok) = (add_outstanding (negsuc 0) v, if ok then leaving else returned none)
step r k v leaving = (v, returned (some (v.conns r.conn).last_used_addr))
step r k v (returned a) = (v, returned a)

-- the calls that threads have made, and where each stands
abbrev pub Calls : Type 0
Calls = List (RemoteRead × Point)

-- The interleavings: a thread makes a call, or one of the calls takes a step.
pub data Reach (v₀ : Victim) : Victim → Calls → Type 0 where
  begun : Reach v₀ v₀ []
  called :
      (v : Victim) (cs : Calls) (r : RemoteRead) → Reach v₀ v cs → Reach v₀ v ((r, starting) ∷ cs)
  moved :
      (v : Victim) (cs : Calls) (i : ℕ) (k : Tick) (r : RemoteRead) (p : Point)
      → Reach v₀ v cs
      → get_elem? cs i ≡ some (r, p)
      → Reach v₀ (step r k v p).0 (set cs i (r, (step r k v p).1))

-- A call that no other call comes between, and that meets the same at each of its steps.
unfoldable pub alone : ℕ → RemoteRead → Tick → Victim × Point → Victim × Point
unfolding step
alone zero r k w = w
alone (suc n) r k (v, p) = alone n r k (step r k v p)

-- eighteen accesses are enough, if the data is there when they are first looked for
unfoldable pub get_remote_item : RemoteRead → Tick → Victim → Victim × Point
unfolding alone
get_remote_item r k v = alone 18 r k (v, starting)

unfoldable pub get_remote_items : List (RemoteRead × Tick) → Victim → Victim
unfolding get_remote_item
get_remote_items [] v = v
get_remote_items ((r, k) ∷ rest) v = get_remote_items rest (get_remote_item r k v).0
